-- ===== src/Db/Write/Reading.antt =====
-- What Insert makes of the rows, where the driver answers with the new ids.
use ksql.Prelude.{
  String, ◌≡◌, ◌⊎◌, refl, ap, ◌∙◌, none, some, List, [], ◌∷◌, length, eqb, Bool-cases, Option-cases,
  inl, inr,
}
use ksql.Prelude.Dict.{Dict}
use ksql.Prelude.Result.{Result, ok, err, panic, msg, and_then}
use ksql.Prelude.Action.{Action, continue}
use ksql.Reflect.{Value, Values, Fields, struct, object, ref}
use ksql.World.{World, Log, close_rows, deferred_close, query, emit, get_tag_info}
use ksql.Structs.Info.{StructInfo}
use ksql.Structs.ToMap.{struct_to_map}
use ksql.Dialect.{insert_method, insert_with_returning, insert_with_output}
use ksql.Table.{Table, validate, insert_method_for}
use ksql.Sql.Scan.{ScanArg}
use ksql.Sql.Insert.{Insertion}
use ksql.Sql.Insert.Laws.{HasNoNull, Keeps, drop_unset_ids-Keeps}
use ksql.Db.{Db, Rows, query_context, close, deferring_close, or_fail}
use ksql.Db.Scanning.{scan_into}
use ksql.Db.Write.{Runtime, read_ids, insert_returning_ids, run_insert}
use mathlib.Core.Path.{ap₂}
use ksql.Sql.Insert.Written.{
  id_fields, write_insert-query, write_insert-params, write_insert-scan_values,
}
use ksql.Db.Write.Inserts.{sql_of, params_of, inserted, statement, insert_runs, mapped, mapped-log}

-- The log without the closing of rows.
abbrev pub sent : Log → Log
sent [] = []
sent (close_rows ∷ l) = sent l
sent (deferred_close ∷ l) = sent l
sent (e ∷ l) = e ∷ sent l

-- What Insert returns for the rows: the record after the first of them was scanned into it.
abbrev pub after_rows : Db → List ScanArg → Value → Rows → List (List Value) → Result Value
after_rows c args v rows [] = elim rows.failure [
  | none ↦ err (msg "unexpected error when retrieving the id columns from the database")
  | some e ↦ err e
]
after_rows c args v rows (row ∷ rest) =
    and_then (scan_into c.db row args v) (λ v'. and_then (or_fail rows.close_failure) (λ _. ok v'))

module _ (c : Db) (args : List ScanArg) (v : Value) (rows : Rows) where
  after_scan :
      (r : Result Value) (w : World)
      → ((continue r
            (λ v' s.
              continue (or_fail rows.close_failure) (λ _ s'. (ok v', s')) (emit close_rows s))
            w).0
          ≡ and_then r (λ v'. and_then (or_fail rows.close_failure) (λ _. ok v')))
        × (sent
              (continue r
                (λ v' s.
                  continue (or_fail rows.close_failure) (λ _ s'. (ok v', s')) (emit close_rows s))
                w).1.log
            ≡ sent w.log)
  after_scan (ok v') w = elim (Option-cases rows.close_failure) [
    | inl closed ↦ rw closed (refl, refl)
    | inr (e, failed) ↦ rw failed (refl, refl)
  ]
  after_scan (err e) w = (refl, refl)
  after_scan (panic p) w = (refl, refl)

  reads :
      (rs : List (List Value)) (w : World)
      → ((read_ids c rows rs args v w).0 ≡ after_rows c args v rows rs)
        × (sent (read_ids c rows rs args v w).1.log ≡ sent w.log)
  unfolding read_ids close
  reads [] w = elim (Option-cases rows.failure) [
    | inl whole ↦ rw whole (refl, refl)
    | inr (e, broken) ↦ rw broken (refl, refl)
  ]
  reads (row ∷ rest) w = after_scan (scan_into c.db row args v) w

module _ (c : Db) (rt : Runtime) (table : Table) (valid : validate table ≡ ok tt) (n : String)
    (fs : Fields) (vs : Values) (w : World) (info : StructInfo)
    (read : (get_tag_info (struct n fs) w).0 ≡ ok info) (m : Dict Value)
    (maps : (struct_to_map (ref (object n fs vs)) (get_tag_info (struct n fs) w).1.tags).0
      ≡ ok m) where
  abbrev outcome : Result Value × World
  outcome = inserted c rt table valid n fs vs w info read m maps

  returns_ids :
      (ins : Insertion) (r : Result Rows) (v : World)
      → ((continue r
            (λ rows. deferring_close (read_ids c rows rows.rows ins.scan_values (object n fs vs)))
            v).0
          ≡ and_then r (λ rows. after_rows c ins.scan_values (object n fs vs) rows rows.rows))
        × (sent
              (continue r
                (λ rows.
                  deferring_close (read_ids c rows rows.rows ins.scan_values (object n fs vs)))
                v).1.log
            ≡ sent v.log)
  unfolding deferring_close
  returns_ids ins (ok rows) v = reads c ins.scan_values (object n fs vs) rows rows.rows v
  returns_ids ins (err e) v = (refl, refl)
  returns_ids ins (panic p) v = (refl, refl)

  module _
      (by_rows : (insert_method c.dialect ≡ insert_with_returning)
        ⊎ (insert_method c.dialect ≡ insert_with_output)) where
    query_runs :
        (ins : Insertion)
        → run_insert (insert_method_for table c.dialect) c rt table n fs vs info ins
          ≡ insert_returning_ids c ins (object n fs vs)
    unfolding run_insert insert_method_for
    query_runs ins = elim by_rows [
      | inl returning ↦ elim (Bool-cases (eqb (length table.id_columns) 1)) [
        | inl one ↦ rw (one, returning) refl
        | inr several ↦ rw (several, returning) refl
      ]
      | inr output ↦ elim (Bool-cases (eqb (length table.id_columns) 1)) [
        | inl one ↦ rw (one, output) refl
        | inr several ↦ rw (several, output) refl
      ]
    ]

    asked :
        (ins : Insertion) (v : World)
        → ((insert_returning_ids c ins (object n fs vs) v).0
            ≡ and_then
                (c.db.query_context v.log ins.query ins.params)
                (λ rows. after_rows c ins.scan_values (object n fs vs) rows rows.rows))
          × (sent (insert_returning_ids c ins (object n fs vs) v).1.log
              ≡ query ins.query ins.params ∷ sent v.log)
    unfolding insert_returning_ids query_context
    asked ins v =
        returns_ids ins (c.db.query_context v.log ins.query ins.params)
          (emit (query ins.query ins.params) v)

    -- In PostgreSQL and SQL Server, for a valid table and a pointer to a struct whose tags are
    -- read and that maps to attributes among which no id is a nil interface, Insert sends exactly
    -- one query: INSERT INTO the table, with the names of the attributes without the ids that are
    -- zero values as columns, in the order in which Go visits them, one placeholder for each,
    -- numbered from 0, the values of these attributes as params, each at the place of its column
    -- and as JSON if its tag says so, and the id columns in a RETURNING clause at the end or an
    -- OUTPUT clause before VALUES, as the dialect asks for them. It returns the record after the
    -- first row of the answer was scanned into the fields of the id columns, in their order; no
    -- row, and the failure of the rows, the scan or the closing, are errors.
    pub insert-reads :
        HasNoNull table.id_columns m
        → (m' : Dict Value) × Keeps table.id_columns m m'
          × (sent outcome.1.log
              ≡ query (sql_of c rt table m') (params_of c rt info m') ∷ sent w.log)
          × (outcome.0
              ≡ and_then
                  (c.db.query_context w.log (sql_of c rt table m') (params_of c rt info m'))
                  (λ rows.
                    after_rows c (id_fields info table.id_columns) (object n fs vs) rows rows.rows))
    insert-reads given =
        let (m', dropped, keeps) = drop_unset_ids-Keeps table.id_columns m given in
        let st = statement c rt table info m' in
        let v = mapped c rt table valid n fs vs w info read m maps in
        let same : v.log ≡ w.log = mapped-log c rt table valid n fs vs w info read m maps in
        let returns : Log → String → List Value → List ScanArg → Result Value = λ l q ps args.
          and_then (c.db.query_context l q ps)
            (λ rows. after_rows c args (object n fs vs) rows rows.rows) in
        let e =
          insert_runs c rt table valid n fs vs w info read m maps m' dropped
          ∙ ap (λ (a : Action World Value). a v) (query_runs st) in
        let a = asked st v in
        let q = write_insert-query rt.order c.dialect table info m' in
        let ps = write_insert-params rt.order c.dialect table info m' in
        (
          m',
          keeps,
          ap (λ (x : Result Value × World). sent x.1.log) e
              ∙ a.1
              ∙ ap (λ l. query st.query st.params ∷ sent l) same
              ∙ ap₂ (λ t l. query t l ∷ sent w.log) q ps,
          ap (λ (x : Result Value × World). x.0) e
              ∙ a.0
              ∙ ap (λ l. returns l st.query st.params st.scan_values) same
              ∙ ap₂ (λ t l. returns w.log t l st.scan_values) q ps
              ∙ ap (returns w.log (sql_of c rt table m') (params_of c rt info m'))
                  (write_insert-scan_values rt.order c.dialect table info m' by_rows),
        )
