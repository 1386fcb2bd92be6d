-- ===== src/Db/Write/Returning.antt =====
-- Insert in PostgreSQL, whose adapter has no LastInsertId: the ids come from rows.
use ksql.Prelude.{
  Option-cases, ℕ, suc, String, ◌≡◌, refl, ap, ◌∙◌, List, [], ◌∷◌, eqb, length, Bool-cases, inl,
  inr,
}
use ksql.Prelude.Result.{Result, ok, err, panic}
use ksql.Prelude.Action.{Action, ◌>>=◌, continue, lift}
use ksql.Reflect.{Fields, Value, Values, null, nil_ptr, ref, object, struct}
use ksql.Structs.Info.{StructInfo}
use ksql.World.{World, Log, exec}
use ksql.World.Quiet.{IsQuiet, get_tag_info-IsQuiet}
use ksql.Dialect.{postgres, insert_with_returning, insert_method}
use ksql.Table.{Table, insert_method_for}
use ksql.Sql.Insert.{Insertion}
use ksql.Db.{Db, Rows, query_context, close, deferring_close}
use ksql.Db.Write.{
  Runtime, read_ids, insert_returning_ids, run_insert, not_a_struct_pointer, nil_pointer, insert,
}
use ksql.Db.Write.Closing.{build_insert_query-IsQuiet}

-- How often ExecContext was called.
abbrev pub execs : Log → ℕ
execs [] = 0
execs (exec sql params ∷ l) = suc (execs l)
execs (_ ∷ l) = execs l

record NoExec {A : Type 0} (m : Action World A) : Type 0 where
  at : (w : World) → execs (m w).1.log ≡ execs w.log

module _ {A : Type 0} where
  IsQuiet-NoExec : (m : Action World A) → IsQuiet m → NoExec m
  IsQuiet-NoExec m q = record { at = λ w. ap execs (q.at w) }

  lift-NoExec : (r : Result A) → NoExec (lift r)
  lift-NoExec r = record { at = λ w. refl }

  deferring_close-NoExec : (m : Action World A) → NoExec m → NoExec (deferring_close m)
  unfolding deferring_close
  deferring_close-NoExec m q = record { at = λ w. q.at w }

module _ {A B : Type 0} where
  continue-execs :
      (r : Result A) (k : A → Action World B) (w : World)
      → ((a : A) → NoExec (k a))
      → execs (continue r k w).1.log ≡ execs w.log
  continue-execs (ok a) k w q = (q a).at w
  continue-execs (err e) k w q = refl
  continue-execs (panic p) k w q = refl

  bind-NoExec :
      (m : Action World A) (k : A → Action World B)
      → NoExec m
      → ((a : A) → NoExec (k a))
      → NoExec (m >>= k)
  bind-NoExec m k qm qk = record {
    at = λ w. let (r, w') = m w in continue-execs r k w' qk ∙ qm.at w;
  }

module _ (c : Db) where
  query_context-NoExec : (sql : String) (params : List Value) → NoExec (query_context c sql params)
  unfolding query_context
  query_context-NoExec sql params = record { at = λ w. refl }

  close-NoExec : (rows : Rows) → NoExec (close rows)
  unfolding close
  close-NoExec rows = record { at = λ w. refl }

  read_ids-NoExec :
      (rows : Rows) (rs : List (List Value)) (ins : Insertion) (v : Value)
      → NoExec (read_ids c rows rs ins.scan_values v)
  unfolding read_ids
  read_ids-NoExec rows [] ins v = elim (Option-cases rows.failure) [
    | inl whole ↦ rw whole (lift-NoExec _)
    | inr (e, broken) ↦ rw broken (lift-NoExec _)
  ]
  read_ids-NoExec rows (row ∷ rs) ins v = search (bind-NoExec, lift-NoExec, close-NoExec)

  insert_returning_ids-NoExec :
      (ins : Insertion) (v : Value) → NoExec (insert_returning_ids c ins v)
  unfolding insert_returning_ids
  insert_returning_ids-NoExec ins v =
      search (bind-NoExec, query_context-NoExec, deferring_close-NoExec, read_ids-NoExec)

  module _ (rt : Runtime) (table : Table) (in_postgres : c.dialect ≡ postgres) where
    returning : insert_method_for table c.dialect ≡ insert_with_returning
    unfolding insert_method_for insert_method
    returning = rw in_postgres (elim (Bool-cases (eqb (length table.id_columns) 1)) [
      | inl one ↦ rw one refl
      | inr several ↦ rw several refl
    ])

    run_insert-NoExec :
        (n : String) (fs : Fields) (vs : Values) (info : StructInfo) (ins : Insertion)
        → NoExec (run_insert (insert_method_for table c.dialect) c rt table n fs vs info ins)
    unfolding run_insert
    run_insert-NoExec n fs vs info ins =
        rw returning (insert_returning_ids-NoExec ins (object n fs vs))

    insert-NoExec : (v : Value) → NoExec (insert c rt table v)
    unfolding insert not_a_struct_pointer nil_pointer
    insert-NoExec null = lift-NoExec _
    insert-NoExec (nil_ptr (struct n fs)) = lift-NoExec _
    insert-NoExec (ref (object n fs vs)) = search (
      bind-NoExec, lift-NoExec, IsQuiet-NoExec, get_tag_info-IsQuiet, build_insert_query-IsQuiet,
      run_insert-NoExec,
    )
    insert-NoExec _ = lift-NoExec _

    -- In the dialect of PostgreSQL, Insert never calls ExecContext, whose result has no
    -- LastInsertId in the adapter of pgx.
    pub insert-execs : (v : Value) (w : World) → execs (insert c rt table v w).1.log ≡ execs w.log
    insert-execs v w = (insert-NoExec v).at w
