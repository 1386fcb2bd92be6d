-- ===== src/Db/Write/Keeping.antt =====
-- Insert, Delete and Patch keep the invariant.
use ksql.Prelude.{ℕ, String, Option-cases, inl, inr, Option, List, [], ◌∷◌}
use ksql.Prelude.Result.{Error}
use ksql.Reflect.{GoType, Fields, struct, Value, Values, null, nil_ptr, ref, object}
use ksql.Structs.Info.{StructInfo}
use ksql.World.{World, Log}
use ksql.World.Preserves.{Preserves, lift-Preserves}
use ksql.Dialect.{
  Dialect, InsertMethod, insert_with_returning, insert_with_output, insert_with_last_insert_id,
  insert_with_no_id_retrieval,
}
use ksql.Sql.Scan.{ScanArg}
use ksql.Table.{Table}
use ksql.Sql.Ids.Keeping.{normalize_ids_as_map-Preserves}
use ksql.Sql.Insert.{Insertion, build_insert_query}
use ksql.Sql.Update.{build_update_query}
use ksql.Db.{Db, Rows}
use ksql.Db.Invariant.{Holds, holding_rules}
use ksql.Db.Write.{
  Runtime, read_ids, insert_returning_ids, insert_with_last_insert_id_of, insert_with_no_ids,
  run_insert, not_a_struct_pointer, nil_pointer, insert, delete, patch, patch_typed,
}

module _ (begins : Log → Option Error) (n : Option ℕ) where
  abbrev I : World → Type 0
  I = Holds begins n

  build_insert_query-Preserves :
      (order : List String → List String) (d : Dialect) (table : Table) (info : StructInfo)
      (v : Value)
      → Preserves I (build_insert_query order d table info v)
  unfolding build_insert_query
  build_insert_query-Preserves order d table info v = search holding_rules

  build_update_query-Preserves :
      (order : List String → List String) (d : Dialect) (table : String) (info : StructInfo)
      (v : Value) (ids : List String)
      → Preserves I (build_update_query order d table info v ids)
  unfolding build_update_query
  build_update_query-Preserves order d table info v ids = search holding_rules

  read_ids-Preserves :
      (c : Db) (rows : Rows) (rs : List (List Value)) (args : List ScanArg) (v : Value)
      → Preserves I (read_ids c rows rs args v)
  unfolding read_ids
  read_ids-Preserves c rows [] args v = elim (Option-cases rows.failure) [
    | inl e ↦ rw e (lift-Preserves _)
    | inr (_, e) ↦ rw e (lift-Preserves _)
  ]
  read_ids-Preserves c rows (row ∷ more) args v = search holding_rules

  module _ (c : Db) (rt : Runtime) (table : Table) where
    run_insert-Preserves :
        (method : InsertMethod) (s : String) (fs : Fields) (vs : Values) (info : StructInfo)
        (ins : Insertion)
        → Preserves I (run_insert method c rt table s fs vs info ins)
    unfolding run_insert insert_returning_ids insert_with_last_insert_id_of insert_with_no_ids
    run_insert-Preserves insert_with_returning s fs vs info ins =
        search (holding_rules, read_ids-Preserves)
    run_insert-Preserves insert_with_output s fs vs info ins =
        search (holding_rules, read_ids-Preserves)
    run_insert-Preserves insert_with_last_insert_id s fs vs info ins = search holding_rules
    run_insert-Preserves insert_with_no_id_retrieval s fs vs info ins = search holding_rules

    pub insert-Preserves : (v : Value) → Preserves I (insert c rt table v)
    unfolding insert not_a_struct_pointer nil_pointer
    insert-Preserves (ref (object s fs vs)) =
        search (holding_rules, build_insert_query-Preserves, run_insert-Preserves)
    insert-Preserves (nil_ptr (struct s fs)) = lift-Preserves _
    insert-Preserves _ = lift-Preserves _

    pub delete-Preserves : (v : Value) → Preserves I (delete c table v)
    unfolding delete
    delete-Preserves v = search (holding_rules, normalize_ids_as_map-Preserves)

    patch_typed-Preserves : (t : GoType) (v : Value) → Preserves I (patch_typed c rt table t v)
    unfolding patch_typed
    patch_typed-Preserves t v = search (holding_rules, build_update_query-Preserves)

    pub patch-Preserves : (v : Value) → Preserves I (patch c rt table v)
    unfolding patch nil_pointer
    patch-Preserves null = lift-Preserves _
    patch-Preserves (nil_ptr t) = lift-Preserves _
    patch-Preserves (ref v) = patch_typed-Preserves _ (ref v)
    patch-Preserves v = patch_typed-Preserves _ v
