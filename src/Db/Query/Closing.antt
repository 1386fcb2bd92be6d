-- ===== src/Db/Query/Closing.antt =====
-- Query and QueryOne leave as many rows open as they find.
use ksql.Prelude.{ℕ, suc, String, Bool, true, false, List, [], ◌∷◌}
use ksql.Prelude.Action.{Action, ◌>>=◌}
use ksql.World.{World, get_tag_info}
use ksql.Reflect.{GoType, Value, nil_ptr, ref, object, struct}
use ksql.Structs.Info.{StructInfo}
use ksql.World.Quiet.{IsQuiet, quiet_rules, get_tag_info-IsQuiet}
use ksql.Sql.Select.Laws.{build_select_query-IsQuiet}
use ksql.Db.{Db, Rows, query_context, deferring_close, wrapping}
use ksql.Db.Closing.{
  Shuts, IsQuiet-Shuts, lift-Shuts, bind-Shuts, wrapped-query_context-Shuts, shut_rules,
}
use ksql.Db.Scanning.Quiet.{scan_rows-IsQuiet}
use ksql.Db.Query.{
  complete_query, scan_element, fill, read_rows, query_slice, query_typed, no_slice_for,
  query_structs_nowhere, query_nowhere, not_pointer_to_slice, query, read_first, query_record,
  not_pointer_to_struct, query_one,
}

pub complete_query-IsQuiet :
    (c : Db) (t : GoType) (info : StructInfo) (sql : String) → IsQuiet (complete_query c t info sql)
unfolding complete_query
complete_query-IsQuiet c t info sql = search (quiet_rules, build_select_query-IsQuiet)

module _ (c : Db) (rows : Rows) where
  scan_element-Shuts :
      (row : List Value) (ptrs : Bool) (v : Value) → Shuts c (scan_element c rows row ptrs v)
  unfolding scan_element
  scan_element-Shuts row true v = search (shut_rules, IsQuiet-Shuts, scan_rows-IsQuiet)
  scan_element-Shuts row false v = search (IsQuiet-Shuts, scan_rows-IsQuiet)

  fill-Shuts :
      (t : GoType) (ptrs : Bool) (i : ℕ) (rs : List (List Value)) (items : List Value)
      → Shuts c (fill c rows t ptrs i rs items)
  unfolding fill
  fill-Shuts t ptrs i [] items = lift-Shuts _
  fill-Shuts t ptrs i (row ∷ more) items = search (
    shut_rules,
    scan_element-Shuts,
    λ (items' : List Value). fill-Shuts t ptrs (suc i) more items',
  )

  read_rows-Shuts :
      (t : GoType) (ptrs : Bool) (items : List Value) → Shuts c (read_rows c rows t ptrs items)
  unfolding read_rows
  read_rows-Shuts t ptrs items = search (shut_rules, fill-Shuts)

  read_first-Shuts : (rs : List (List Value)) (v : Value) → Shuts c (read_first c rows rs v)
  unfolding read_first
  read_first-Shuts [] v = search shut_rules
  read_first-Shuts (row ∷ more) v = search (shut_rules, IsQuiet-Shuts, scan_rows-IsQuiet)

  no_slice_for-Shuts : (rs : List (List Value)) → Shuts c (no_slice_for rows rs)
  unfolding no_slice_for
  no_slice_for-Shuts [] = search shut_rules
  no_slice_for-Shuts (row ∷ more) = lift-Shuts _

module _ (c : Db) (sql : String) (params : List Value) where
  -- The steps that Query and QueryOne share.
  asked-Shuts :
      {B : Type 0} (t : GoType) (read : Rows → Action World B)
      → ((rows : Rows) → Shuts c (read rows))
      → Shuts c (
          get_tag_info t >>= λ info. complete_query c t info sql >>= λ complete.
          (λ w.
            let (r, w') = query_context c complete params w in
            (wrapping "error running query" r, w'))
          >>= λ rows. deferring_close (read rows))
  asked-Shuts t read shuts =
      bind-Shuts (get_tag_info t) _ (IsQuiet-Shuts _ (get_tag_info-IsQuiet t)) (λ info.
        bind-Shuts (complete_query c t info sql) _
          (IsQuiet-Shuts _ (complete_query-IsQuiet c t info sql))
          (λ complete.
            wrapped-query_context-Shuts c complete params read shuts "error running query"))

  query_slice-Shuts :
      (t : GoType) (ptrs : Bool) (items : List Value)
      → Shuts c (query_slice c t ptrs items sql params)
  unfolding query_slice
  query_slice-Shuts t ptrs items = asked-Shuts t _ (λ rows. read_rows-Shuts c rows t ptrs items)

  query_typed-Shuts : (t : GoType) (v : Value) → Shuts c (query_typed c t v sql params)
  unfolding query_typed
  query_typed-Shuts t v = search (shut_rules, query_slice-Shuts)

  query_structs_nowhere-Shuts : (t : GoType) → Shuts c (query_structs_nowhere c t sql params)
  unfolding query_structs_nowhere
  query_structs_nowhere-Shuts t = asked-Shuts t _ (λ rows. no_slice_for-Shuts c rows rows.rows)

  query_nowhere-Shuts : (t : GoType) → Shuts c (query_nowhere c t sql params)
  unfolding query_nowhere
  query_nowhere-Shuts t = search (shut_rules, query_structs_nowhere-Shuts)

  query_record-Shuts : (t : GoType) (v : Value) → Shuts c (query_record c t v sql params)
  unfolding query_record
  query_record-Shuts t v = asked-Shuts t _ (λ rows. read_first-Shuts c rows rows.rows v)

  pub query-Shuts : (v : Value) → Shuts c (query c v sql params)
  unfolding query not_pointer_to_slice
  query-Shuts (ref v) = query_typed-Shuts _ v
  query-Shuts (nil_ptr t) = query_nowhere-Shuts t
  query-Shuts _ = lift-Shuts _

  pub query_one-Shuts : (v : Value) → Shuts c (query_one c v sql params)
  unfolding query_one not_pointer_to_struct
  query_one-Shuts (ref (object n fs vs)) = query_record-Shuts (struct n fs) (object n fs vs)
  query_one-Shuts _ = lift-Shuts _
