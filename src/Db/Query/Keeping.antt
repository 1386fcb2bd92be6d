-- ===== src/Db/Query/Keeping.antt =====
-- Query and QueryOne keep the invariant.
use ksql.Prelude.{ℕ, suc, String, ◌≡◌, Bool, true, false, ◌==◌, ◌&&◌, Option, List, [], ◌∷◌}
use ksql.Prelude.Result.{ok, Error}
use ksql.Prelude.Text.{to_upper}
use ksql.Sql.Token.{get_first_token}
use ksql.Reflect.{GoType, Value, nil_ptr, ref, object, struct}
use ksql.Structs.Info.{StructInfo}
use ksql.Structs.Tags.{get_tag_names}
use ksql.World.{World, Log}
use ksql.World.Preserves.{Preserves, if-Preserves, bind-Preserves, lift-Preserves}
use ksql.Db.{Db, Rows}
use ksql.Db.Invariant.{
  Holds, tagged-Preserves, build_select_query-Preserves, wrapped-query_context-Preserves,
  holding_rules,
}
use ksql.Db.Scanning.Keeping.{scan_rows-Preserves}
use ksql.Db.Query.{
  complete_query, scan_element, fill, read_rows, query_slice, no_slice_for, query_structs_nowhere,
  query_nowhere, query_typed, not_pointer_to_slice, query, read_first, query_record,
  not_pointer_to_struct, query_one,
}

module _ (begins : Log → Option Error) (n : Option ℕ) where
  abbrev I : World → Type 0
  I = Holds begins n

  pub complete_query-Preserves :
      (c : Db) (t : GoType) (info : StructInfo) (sql : String)
      → get_tag_names t ≡ ok info
      → Preserves I (complete_query c t info sql)
  unfolding complete_query
  complete_query-Preserves c t info sql read =
      let word = to_upper (get_first_token sql) in
      if-Preserves (info.is_nested_struct && word == "SELECT") _ _ (lift-Preserves _) (
        if-Preserves (word == "FROM") _ _
          (search (holding_rules, build_select_query-Preserves begins n c.dialect t info read))
          (lift-Preserves _))

  module _ (c : Db) (rows : Rows) where
    scan_element-Preserves :
        (row : List Value) (ptrs : Bool) (v : Value) → Preserves I (scan_element c rows row ptrs v)
    unfolding scan_element
    scan_element-Preserves row true v = search (holding_rules, scan_rows-Preserves)
    scan_element-Preserves row false v = scan_rows-Preserves begins n c rows row (ref v)

    fill-Preserves :
        (t : GoType) (ptrs : Bool) (i : ℕ) (rs : List (List Value)) (items : List Value)
        → Preserves I (fill c rows t ptrs i rs items)
    unfolding fill
    fill-Preserves t ptrs i [] items = lift-Preserves _
    fill-Preserves t ptrs i (row ∷ more) items = search (
      holding_rules,
      scan_element-Preserves,
      λ (items' : List Value). fill-Preserves t ptrs (suc i) more items',
    )

    read_rows-Preserves :
        (t : GoType) (ptrs : Bool) (items : List Value)
        → Preserves I (read_rows c rows t ptrs items)
    unfolding read_rows
    read_rows-Preserves t ptrs items = search (holding_rules, fill-Preserves)

    read_first-Preserves :
        (rs : List (List Value)) (v : Value) → Preserves I (read_first c rows rs v)
    unfolding read_first
    read_first-Preserves [] v = search holding_rules
    read_first-Preserves (row ∷ more) v = search (holding_rules, scan_rows-Preserves)

  module _ (c : Db) (sql : String) (params : List Value) where
    query_slice-Preserves :
        (t : GoType) (ptrs : Bool) (items : List Value)
        → Preserves I (query_slice c t ptrs items sql params)
    unfolding query_slice
    query_slice-Preserves t ptrs items = tagged-Preserves begins n t _ (λ info read.
        bind-Preserves (complete_query c t info sql) _ (complete_query-Preserves c t info sql read)
          (λ complete.
            wrapped-query_context-Preserves begins n c complete params "error running query" _
              (λ rows. search (holding_rules, read_rows-Preserves))))

    query_typed-Preserves : (t : GoType) (v : Value) → Preserves I (query_typed c t v sql params)
    unfolding query_typed
    query_typed-Preserves t v = search (holding_rules, query_slice-Preserves)

    no_slice_for-Preserves :
        (rows : Rows) (rs : List (List Value)) → Preserves I (no_slice_for rows rs)
    unfolding no_slice_for
    no_slice_for-Preserves rows [] = search holding_rules
    no_slice_for-Preserves rows (row ∷ more) = lift-Preserves _

    query_structs_nowhere-Preserves :
        (t : GoType) → Preserves I (query_structs_nowhere c t sql params)
    unfolding query_structs_nowhere
    query_structs_nowhere-Preserves t = tagged-Preserves begins n t _ (λ info read.
        bind-Preserves (complete_query c t info sql) _ (complete_query-Preserves c t info sql read)
          (λ complete.
            wrapped-query_context-Preserves begins n c complete params "error running query" _
              (λ rows. search (holding_rules, no_slice_for-Preserves))))

    query_nowhere-Preserves : (t : GoType) → Preserves I (query_nowhere c t sql params)
    unfolding query_nowhere
    query_nowhere-Preserves t = search (holding_rules, query_structs_nowhere-Preserves)

    pub query-Preserves : (v : Value) → Preserves I (query c v sql params)
    unfolding query not_pointer_to_slice
    query-Preserves (ref v) = query_typed-Preserves _ v
    query-Preserves (nil_ptr t) = query_nowhere-Preserves t
    query-Preserves _ = lift-Preserves _

    query_record-Preserves : (t : GoType) (v : Value) → Preserves I (query_record c t v sql params)
    unfolding query_record
    query_record-Preserves t v = tagged-Preserves begins n t _ (λ info read.
        bind-Preserves (complete_query c t info sql) _ (complete_query-Preserves c t info sql read)
          (λ complete.
            wrapped-query_context-Preserves begins n c complete params "error running query" _
              (λ rows. search (holding_rules, read_first-Preserves))))

    pub query_one-Preserves : (v : Value) → Preserves I (query_one c v sql params)
    unfolding query_one not_pointer_to_struct
    query_one-Preserves (ref (object s fs vs)) =
        query_record-Preserves (struct s fs) (object s fs vs)
    query_one-Preserves _ = lift-Preserves _
