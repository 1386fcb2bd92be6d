-- ===== src/Db/Write/Updates.antt =====
-- What Patch sends to the driver.
use ksql.Prelude.{ℕ, suc, String, ◌≡◌, ◌<◌, refl, true, List, length, ltb, arith}
use ksql.Prelude.Dict.{Dict}
use ksql.Prelude.Result.{Result, ok, panic}
use ksql.Prelude.Action.{Action}
use ksql.Reflect.{Value, Values, Fields, struct, object, ref}
use ksql.World.{World, get_tag_info}
use ksql.Structs.Info.{StructInfo}
use ksql.Structs.ToMap.{struct_to_map}
use ksql.Table.{Table}
use ksql.Sql.Update.{write_update, build_update_query}
use ksql.Db.{Db, Int64, pos}
use ksql.Db.Write.{Runtime, patch, patch_typed, none_updated}
use ksql.Db.Write.Counts.{Counts, run_counted}

abbrev pub IsPositive : Int64 → Type 0
IsPositive n = (k : ℕ) × (n ≡ pos (suc k))

abbrev run_patch : Db → String × List Value → Action World (Unit {0})
run_patch =
    run_counted "unexpected error: unable to fetch how many rows were affected by the update"
      none_updated

-- A record whose tags and whose attributes can be read.
module _ (c : Db) (rt : Runtime) (table : Table) (n : String) (fs : Fields) (vs : Values)
    (w : World) (info : StructInfo) (read : (get_tag_info (struct n fs) w).0 ≡ ok info)
    (m : Dict Value)
    (maps : (struct_to_map (ref (object n fs vs)) (get_tag_info (struct n fs) w).1.tags).0
      ≡ ok m) where
  abbrev pub patched : Result (Unit {0}) × World
  patched = patch c rt table (ref (object n fs vs)) w

  abbrev pub update_statement : String × List Value
  update_statement = write_update rt.order c.dialect table.name info table.id_columns m

  abbrev informed : World
  informed = (get_tag_info (struct n fs) w).1

  abbrev mapped : World
  mapped = record informed { tags = (struct_to_map (ref (object n fs vs)) informed.tags).1 }

  mapped-log : mapped.log ≡ w.log
  unfolding get_tag_info
  mapped-log = refl

  -- For a pointer to a struct whose tags are read and that maps to fewer attributes than the table
  -- has ids, Patch panics on the bounds of a slice and sends nothing.
  pub patch-panics :
      length m < length table.id_columns
      → (patched.0 ≡ panic "runtime error: slice bounds out of range") × (patched.1.log ≡ w.log)
  unfolding patch patch_typed build_update_query
  patch-panics few =
      let out_of_range : ltb (length m) (length table.id_columns) ≡ true = ground arith in
      rw read (rw maps (rw out_of_range (refl, mapped-log)))
