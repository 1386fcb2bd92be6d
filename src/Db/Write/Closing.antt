-- ===== src/Db/Write/Closing.antt =====
-- Insert, Delete and Patch leave as many rows open as they find.
use ksql.Prelude.{String, List}
use ksql.Reflect.{GoType, Fields, struct, Value, Values, null, nil_ptr, ref, object}
use ksql.Structs.Info.{StructInfo}
use ksql.World.Quiet.{IsQuiet, quiet_rules, get_tag_info-IsQuiet}
use ksql.Dialect.{
  Dialect, InsertMethod, insert_with_returning, insert_with_output, insert_with_last_insert_id,
  insert_with_no_id_retrieval,
}
use ksql.Table.{Table}
use ksql.Sql.Ids.Laws.{normalize_ids_as_map-IsQuiet}
use ksql.Sql.Update.{build_update_query}
use ksql.Sql.Insert.{Insertion, build_insert_query}
use ksql.Db.{Db, Rows}
use ksql.Sql.Scan.{ScanArg}
use ksql.Prelude.{[], ◌∷◌, inl, inr, Option-cases, refl}
use ksql.Db.Closing.{Shuts, query_context-Shuts, IsQuiet-Shuts, lift-Shuts, shut_rules}
use ksql.Db.Write.{
  Runtime, read_ids, insert_returning_ids, insert_with_last_insert_id_of, insert_with_no_ids,
  run_insert, not_a_struct_pointer, nil_pointer, insert, delete, patch, patch_typed,
}

pub build_insert_query-IsQuiet :
    (order : List String → List String) (d : Dialect) (table : Table) (info : StructInfo)
    (v : Value)
    → IsQuiet (build_insert_query order d table info v)
unfolding build_insert_query
build_insert_query-IsQuiet order d table info v = search quiet_rules

build_update_query-IsQuiet :
    (order : List String → List String) (d : Dialect) (table : String) (info : StructInfo)
    (v : Value) (ids : List String)
    → IsQuiet (build_update_query order d table info v ids)
unfolding build_update_query
build_update_query-IsQuiet order d table info v ids = search quiet_rules

read_ids-Shuts :
    (c : Db) (rows : Rows) (rs : List (List Value)) (args : List ScanArg) (v : Value)
    → Shuts c (read_ids c rows rs args v)
unfolding read_ids
read_ids-Shuts c rows [] args v = record {
  at = λ w. elim (Option-cases rows.failure) [
    | inl whole ↦ rw whole refl
    | inr (e, broken) ↦ rw broken refl
  ];
}
read_ids-Shuts c rows (row ∷ more) args v = search shut_rules

module _ (c : Db) (rt : Runtime) (table : Table) where
  run_insert-Shuts :
      (method : InsertMethod) (n : String) (fs : Fields) (vs : Values) (info : StructInfo)
      (ins : Insertion)
      → Shuts c (run_insert method c rt table n fs vs info ins)
  unfolding run_insert insert_returning_ids insert_with_last_insert_id_of insert_with_no_ids
  run_insert-Shuts insert_with_returning n fs vs info ins =
      query_context-Shuts c ins.query ins.params _
        (λ rows. read_ids-Shuts c rows rows.rows ins.scan_values (object n fs vs))
  run_insert-Shuts insert_with_output n fs vs info ins =
      query_context-Shuts c ins.query ins.params _
        (λ rows. read_ids-Shuts c rows rows.rows ins.scan_values (object n fs vs))
  run_insert-Shuts insert_with_last_insert_id n fs vs info ins = search shut_rules
  run_insert-Shuts insert_with_no_id_retrieval n fs vs info ins = search shut_rules

  pub insert-Shuts : (v : Value) → Shuts c (insert c rt table v)
  unfolding insert not_a_struct_pointer nil_pointer
  insert-Shuts null = lift-Shuts _
  insert-Shuts (nil_ptr (struct n fs)) = lift-Shuts _
  insert-Shuts (ref (object n fs vs)) = search (
    shut_rules, IsQuiet-Shuts, get_tag_info-IsQuiet, build_insert_query-IsQuiet, run_insert-Shuts,
  )
  insert-Shuts _ = lift-Shuts _

  pub delete-Shuts : (v : Value) → Shuts c (delete c table v)
  unfolding delete
  delete-Shuts v = search (shut_rules, IsQuiet-Shuts, normalize_ids_as_map-IsQuiet) depth 8

  patch_typed-Shuts : (t : GoType) (v : Value) → Shuts c (patch_typed c rt table t v)
  unfolding patch_typed
  patch_typed-Shuts t v =
      search (shut_rules, IsQuiet-Shuts, get_tag_info-IsQuiet, build_update_query-IsQuiet) depth 8

  pub patch-Shuts : (v : Value) → Shuts c (patch c rt table v)
  unfolding patch nil_pointer
  patch-Shuts null = lift-Shuts _
  patch-Shuts (nil_ptr t) = lift-Shuts _
  patch-Shuts (ref v) = patch_typed-Shuts _ (ref v)
  patch-Shuts v = patch_typed-Shuts _ v
