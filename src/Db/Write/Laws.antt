-- ===== src/Db/Write/Laws.antt =====
-- What Delete sends to the driver, and when they succeed.
use ksql.Prelude.{zero, suc, String, ◌≡◌, ◌≢◌, refl, ap, ◌∙◌, ◌↔◌, false, List, ◌∷◌}
use ksql.Prelude.Dict.{Dict}
use ksql.Prelude.Result.{Result, ok, err, panic}
use ksql.Prelude.Action.{Action, continue}
use ksql.Reflect.{Value}
use ksql.World.{World, exec}
use mathlib.Core.Path.{subst}
use ksql.Table.{Table, validate}
use ksql.Sql.Ids.{normalize_ids_as_map}
use ksql.Sql.Ids.Laws.{normalize_ids_as_map-IsQuiet, normalize_ids_as_map-IsGiven}
use ksql.Dialect.{escape}
use ksql.Sql.Delete.{build_delete_query}
use ksql.Sql.Delete.Laws.{all_equal, Carries, build_delete_query-text, build_delete_query-Carries}
use Prim.Native.String.{◌++◌}
use ksql.Db.{Db, Int64, pos, negsuc, wrapping}
use ksql.Db.Write.{delete, none_deleted}
use ksql.Db.Write.Counts.{Counts, run_counted, run_counted-log, run_counted_iff}

abbrev pub IsDeleted : Int64 → Type 0
IsDeleted n = n ≢ pos 0

none_deleted_iff : (n : Int64) → (none_deleted n ≡ false) ↔ IsDeleted n
none_deleted_iff (pos zero) = (λ h. absurd (cc h), λ h. absurd (h refl))
none_deleted_iff (pos (suc n)) = (λ _ e. cc e, λ _. refl)
none_deleted_iff (negsuc n) = (λ _ e. cc e, λ _. refl)

abbrev run_delete : Db → String × List Value → Action World (Unit {0})
run_delete = run_counted "unable to check if the record was succesfully deleted" none_deleted

module _ (c : Db) (table : Table) (v : Value) (w : World) (fine : validate table ≡ ok tt) where
  abbrev pub ids_read : Result (Dict Value) × World
  ids_read = normalize_ids_as_map table.id_columns v w

  delete_runs :
      (m : Dict Value)
      → ids_read.0 ≡ ok m
      → delete c table v w ≡ run_delete c (build_delete_query c.dialect table m) ids_read.1
  unfolding delete wrapping
  delete_runs m e = rw fine (rw e refl)

  abbrev pub delete_sql : String
  delete_sql =
      "DELETE FROM "
      ++ (escape c.dialect table.name ++ (" WHERE " ++ all_equal c.dialect 0 table.id_columns))

  -- For a table that is valid, if the ids are read as a map, exactly one statement is sent: DELETE
  -- FROM the table WHERE each id column is equal to its placeholder, the conditions joined by AND
  -- and numbered from 0, and its params are the values that the map has for the id columns, in
  -- their order, none of them a zero value; Delete succeeds if and only if the driver answers with
  -- a count of rows other than 0.
  pub delete-sends :
      (m : Dict Value)
      → ids_read.0 ≡ ok m
      → (params : List Value) × Carries m table.id_columns params
        × ((delete c table v w).1.log ≡ exec delete_sql params ∷ w.log)
        × (((delete c table v w).0 ≡ ok tt)
            ↔ Counts IsDeleted (c.db.exec_context w.log delete_sql params))
  delete-sends m e =
      let s = build_delete_query c.dialect table m in
      let text : s.0 ≡ delete_sql = build_delete_query-text c.dialect table m in
      let quiet = (normalize_ids_as_map-IsQuiet table.id_columns v).at w in
      let runs = delete_runs m e in
      (
        s.1,
        build_delete_query-Carries c.dialect table m
            (normalize_ids_as_map-IsGiven table.id_columns v w m e),
        ap (λ (x : Result (Unit {0}) × World). x.1.log) runs
            ∙ run_counted-log _ none_deleted c s ids_read.1
            ∙ ap (λ l. exec s.0 s.1 ∷ l) quiet
            ∙ ap (λ t. exec t s.1 ∷ w.log) text,
        subst
            (λ t.
              ((delete c table v w).0 ≡ ok tt) ↔ Counts IsDeleted (c.db.exec_context w.log t s.1))
            text
            (subst
              (λ l.
                ((delete c table v w).0 ≡ ok tt) ↔ Counts IsDeleted (c.db.exec_context l s.0 s.1))
              quiet
              (rw runs (run_counted_iff _ none_deleted IsDeleted none_deleted_iff c s ids_read.1))),
      )

  -- For a table that is valid, if the ids cannot be read as a map, then Delete does not succeed
  -- and sends nothing.
  pub delete-refuses :
      ((m : Dict Value) → ids_read.0 ≢ ok m)
      → ((delete c table v w).1.log ≡ w.log) × ((delete c table v w).0 ≢ ok tt)
  unfolding delete wrapping
  delete-refuses bad = rw fine (by_ids ids_read.0 bad)
    where
      by_ids :
          (r : Result (Dict Value))
          → ((m : Dict Value) → r ≢ ok m)
          → ((continue r
                (λ m. run_delete c (build_delete_query c.dialect table m))
                ids_read.1).1.log
              ≡ w.log)
            × ((continue r (λ m. run_delete c (build_delete_query c.dialect table m)) ids_read.1).0
                ≢ ok tt)
      by_ids (ok m) no_map = absurd (no_map m refl)
      by_ids (err x) no_map = ((normalize_ids_as_map-IsQuiet table.id_columns v).at w, λ h. cc h)
      by_ids (panic x) no_map = ((normalize_ids_as_map-IsQuiet table.id_columns v).at w, λ h. cc h)
