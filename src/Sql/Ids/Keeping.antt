-- ===== src/Sql/Ids/Keeping.antt =====
-- Reading the ids of a record keeps the invariant.
use ksql.Prelude.{ℕ, String, Option, List, [], ◌∷◌}
use ksql.Prelude.Result.{Error}
use ksql.Reflect.{GoType, map_of, struct, Value, scalar, ref, object}
use ksql.World.{World, Log}
use ksql.World.Preserves.{Preserves, lift-Preserves}
use ksql.Sql.Ids.{from_struct, from_typed, from_pointer, read_ids, normalize_ids_as_map, not_a_map}
use ksql.Db.Invariant.{Holds, struct_to_map-Preserves, holding_rules}

module _ (begins : Log → Option Error) (n : Option ℕ) where
  abbrev I : World → Type 0
  I = Holds begins n

  from_struct-Preserves : (v : Value) → Preserves I (from_struct v)
  unfolding from_struct
  from_struct-Preserves v = record { at = λ w h. (struct_to_map-Preserves begins n v).at w h }

  from_typed-Preserves : (id : String) (t : GoType) (v : Value) → Preserves I (from_typed id t v)
  unfolding from_typed not_a_map
  from_typed-Preserves id (struct s fs) v = from_struct-Preserves v
  from_typed-Preserves id (map_of k e) v = search holding_rules
  from_typed-Preserves id _ v = lift-Preserves _

  from_pointer-Preserves : (id : String) (u v : Value) → Preserves I (from_pointer id u v)
  unfolding from_pointer not_a_map
  from_pointer-Preserves id (object s fs vs) v = from_struct-Preserves v
  from_pointer-Preserves id (scalar (map_of k e) i) v = lift-Preserves _
  from_pointer-Preserves id _ v = lift-Preserves _

  read_ids-Preserves : (id : String) (v : Value) → Preserves I (read_ids id v)
  unfolding read_ids
  read_ids-Preserves id (ref v) = from_pointer-Preserves id v (ref v)
  read_ids-Preserves id (object s fs vs) = from_struct-Preserves (object s fs vs)
  read_ids-Preserves id (scalar t i) = from_typed-Preserves id t (scalar t i)
  read_ids-Preserves id _ = lift-Preserves _

  pub normalize_ids_as_map-Preserves :
      (ids : List String) (v : Value) → Preserves I (normalize_ids_as_map ids v)
  unfolding normalize_ids_as_map
  normalize_ids_as_map-Preserves [] v = lift-Preserves _
  normalize_ids_as_map-Preserves (id ∷ ids) v = search (holding_rules, read_ids-Preserves)
