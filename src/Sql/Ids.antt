-- ===== src/Sql/Ids.antt =====
-- validateIfAllIdsArePresent and normalizeIDsAsMap of ksql.go.
pub mod Laws
pub mod Keeping
use ksql.Prelude.{String, Option, none, some, Bool, true, false, List, [], ◌∷◌, if◌then◌else◌}
use ksql.Prelude.Dict.{Dict, lookup}
use ksql.Prelude.Result.{Result, ok, err, panic, Error, msg, wrap}
use ksql.Prelude.Action.{Action, pure, raise, lift, ◌>>=◌}
use ksql.Reflect.{
  GoType, Fields, basic, interface, ptr, slice, map_of, func, struct, any_type, same_type, Value,
  null, scalar, text, nil_ptr, ref, dict, list, object, json, entries, is_zero,
}
use ksql.Structs.ToMap.{struct_to_map}
use ksql.World.{World, on_tags}

-- One round of the loop: what is wrong with the value that stands for an id.
check_id : Option Value → Result (Unit {0})
unfolding is_zero
check_id none = err (msg "missing required id field on input record")
check_id (some null) = err (msg "invalid value received for id column")
check_id (some v) = if is_zero v then err (msg "invalid value received for id column") else ok tt

and_also : Result (Unit {0}) → Result (Unit {0}) → Result (Unit {0})
and_also (ok _) r = r
and_also (err e) r = err e
and_also (panic p) r = panic p

unfoldable pub validate_if_all_ids_are_present : List String → Dict Value → Result (Unit {0})
unfolding check_id and_also
validate_if_all_ids_are_present [] id_map = ok tt
validate_if_all_ids_are_present (id_name ∷ more) id_map =
    and_also (check_id (lookup id_name id_map)) (validate_if_all_ids_are_present more id_map)

-- The error of StructToMap, if there is one, behind the words of `errors.Wrapf`.
wrapped : Result (Dict Value) → Result (Dict Value)
wrapped (ok m) = ok m
wrapped (err e) = err (wrap "could not get ID(s) from input record" e)
wrapped (panic p) = panic p

from_struct : Value → Action World (Dict Value)
unfolding wrapped
from_struct v w = let (r, w') = on_tags (struct_to_map v) w in (wrapped r, w')

not_a_map : Action World (Dict Value)
not_a_map = raise (msg "expected map[string]interface{}")

-- A value that is no struct, of type `t`; the nil map of the right type has no keys.
from_typed : String → GoType → Value → Action World (Dict Value)
from_typed id (map_of k e) v =
    if same_type (map_of k e) (map_of (basic "string") any_type) then pure [] else not_a_map
from_typed id (struct n fs) v = from_struct v
from_typed id _ v = pure ((id, v) ∷ [])

-- What a pointer points to is looked at to choose the case, and the pointer is what is converted.
from_pointer : String → Value → Value → Action World (Dict Value)
from_pointer id (object n fs vs) v = from_struct v
from_pointer id (dict es) v = not_a_map
from_pointer id (scalar (map_of k e) n) v = not_a_map
from_pointer id _ v = pure ((id, v) ∷ [])

-- The `switch` on the kind.
read_ids : String → Value → Action World (Dict Value)
unfolding from_struct from_typed from_pointer not_a_map
read_ids id null = lift (panic "runtime error: invalid memory address or nil pointer dereference")
read_ids id (nil_ptr t) =
    raise (msg "expected a valid pointer to struct as argument but received a nil pointer")
read_ids id (ref v) = from_pointer id v (ref v)
read_ids id (object n fs vs) = from_struct (object n fs vs)
read_ids id (dict es) = pure (entries es)
read_ids id (scalar t n) = from_typed id t (scalar t n)
read_ids id v = pure ((id, v) ∷ [])

unfoldable pub normalize_ids_as_map : List String → Value → Action World (Dict Value)
unfolding read_ids
normalize_ids_as_map [] v = raise (msg "internal ksql error: missing idNames")
normalize_ids_as_map (id ∷ ids) v = do
  id_map ← read_ids id v
  _ ← lift (validate_if_all_ids_are_present (id ∷ ids) id_map)
  pure id_map
