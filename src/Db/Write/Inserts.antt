-- ===== src/Db/Write/Inserts.antt =====
-- What Insert sends to the driver, and what it makes of the answer.
use ksql.Prelude.{String, ◌≡◌, refl, Bool, true, false, some}
use ksql.Prelude.{List, map}
use ksql.Prelude.Dict.{Dict, lookup, keys}
use ksql.Sql.Insert.Written.{insert_sql, sent_value}
use ksql.Prelude.Result.{Result, ok, panic, and_then}
use ksql.Prelude.Action.{Action}
use ksql.Reflect.{Value, Values, Fields, field_at, null, struct, object, ref}
use ksql.World.{World, get_tag_info}
use ksql.Structs.Info.{StructInfo, by_name}
use ksql.Structs.ToMap.{struct_to_map}
use ksql.Dialect.{insert_method}
use ksql.Table.{Table, validate, insert_method_for}
use ksql.Sql.Insert.{Insertion, drop_unset_ids, write_insert, build_insert_query}
use ksql.Sql.Insert.Laws.{drop_unset_ids-panics}
use mathlib.Core.List.{Memᴰ}
use ksql.Db.{Db, ExecResult, wrapping}
use ksql.Db.Write.{Runtime, store_id, first_id, run_insert, insert}

-- The statement for a map of attributes.
abbrev pub statement : Db → Runtime → Table → StructInfo → Dict Value → Insertion
statement c rt table info m' = write_insert rt.order c.dialect table info m'

-- The text of that statement, over the columns in the order in which Go visits them, and the value
-- of each of these columns.
abbrev pub sql_of : Db → Runtime → Table → Dict Value → String
sql_of c rt table m' =
    insert_sql (insert_method c.dialect) c.dialect table.name table.id_columns (rt.order (keys m'))

abbrev pub params_of : Db → Runtime → StructInfo → Dict Value → List Value
params_of c rt info m' = map (sent_value c.dialect info m') (rt.order (keys m'))

module _ (rt : Runtime) (table : Table) (n : String) (fs : Fields) (vs : Values)
    (info : StructInfo) where
  -- What Insert returns where the driver has LastInsertId: the record with the id in the field of
  -- the only id column, or the record as it was for several.
  abbrev pub after_exec : Bool → ExecResult → Result Value
  after_exec true res = and_then res.last_insert_id (λ id.
      store_id rt n fs vs (by_name info (first_id table.id_columns)).index
        (field_at fs (by_name info (first_id table.id_columns)).index) id)
  after_exec false res = ok (object n fs vs)

-- A record whose tags and whose attributes can be read, for a valid table.
module _ (c : Db) (rt : Runtime) (table : Table) (valid : validate table ≡ ok tt) (n : String)
    (fs : Fields) (vs : Values) (w : World) (info : StructInfo)
    (read : (get_tag_info (struct n fs) w).0 ≡ ok info) (m : Dict Value)
    (maps : (struct_to_map (ref (object n fs vs)) (get_tag_info (struct n fs) w).1.tags).0
      ≡ ok m) where
  abbrev pub inserted : Result Value × World
  inserted = insert c rt table (ref (object n fs vs)) w

  abbrev pub informed : World
  informed = (get_tag_info (struct n fs) w).1

  abbrev pub mapped : World
  mapped = record informed { tags = (struct_to_map (ref (object n fs vs)) informed.tags).1 }

  pub mapped-log : mapped.log ≡ w.log
  unfolding get_tag_info
  mapped-log = refl

  pub insert_runs :
      (m' : Dict Value)
      → drop_unset_ids table.id_columns m ≡ ok m'
      → inserted
        ≡ run_insert
            (insert_method_for table c.dialect)
            c
            rt
            table
            n
            fs
            vs
            info
            (statement c rt table info m')
            mapped
  unfolding insert build_insert_query wrapping
  insert_runs m' dropped = rw valid (rw read (rw maps (rw dropped refl)))

  insert_panics :
      (p : String) → drop_unset_ids table.id_columns m ≡ panic p → inserted ≡ (panic p, mapped)
  unfolding insert build_insert_query wrapping
  insert_panics p dropped = rw valid (rw read (rw maps (rw dropped refl)))

  -- For a valid table and a pointer to a struct whose tags are read and that maps to attributes
  -- among which an id is a nil interface, Insert panics and sends nothing.
  pub insert-panics :
      (id : String)
      → Memᴰ id table.id_columns
      → lookup id m ≡ some null
      → (inserted.0 ≡ panic "reflect: call of reflect.Value.IsZero on zero Value")
        × (inserted.1.log ≡ w.log)
  insert-panics id there nil =
      let e = insert_panics _ (drop_unset_ids-panics id table.id_columns m there nil) in
      rw e (refl, mapped-log)
