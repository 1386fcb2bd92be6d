-- ===== src/Db/Write/Counts.antt =====
-- A statement whose count of rows decides: what Delete and Patch share.
use ksql.Prelude.{String, ◌≡◌, refl, ◌↔◌, Bool, inl, inr, Bool-cases, false, List, ◌∷◌}
use ksql.Prelude.Result.{Result, ok, err, panic}
use ksql.Prelude.Action.{Action, lift, ◌>>=◌, continue}
use ksql.Reflect.{Value}
use ksql.World.{World, exec, emit}
use ksql.World.Quiet.{IsQuiet, quiet_rules}
use mathlib.Core.Bool.{false≢true}
use ksql.Db.{Db, ExecResult, Int64, exec_context, wrapping}
use ksql.Db.Write.{found}

-- The driver answers with a count of rows that is enough.
abbrev pub Counts : (Int64 → Type 0) → Result ExecResult → Type 0
Counts Enough answer =
    (r : ExecResult) × (n : Int64) × (answer ≡ ok r) × (r.rows_affected ≡ ok n) × Enough n

-- What follows the statement: its count is read, and then looked at.
abbrev pub count_of : String → (Int64 → Bool) → Result Int64 → Action World (Unit {0})
count_of words missing count = lift (wrapping words count) >>= λ n. lift (found (missing n))

-- The statement is run and its count looked at.
abbrev pub run_counted :
    String → (Int64 → Bool) → Db → String × List Value → Action World (Unit {0})
run_counted words missing c statement =
    exec_context c statement.0 statement.1 >>= λ r. count_of words missing r.rows_affected

module _ (words : String) (missing : Int64 → Bool) where
  count_of-IsQuiet : (count : Result Int64) → IsQuiet (count_of words missing count)
  count_of-IsQuiet count = search quiet_rules

  pub run_counted-log :
      (c : Db) (s : String × List Value) (w : World)
      → (run_counted words missing c s w).1.log ≡ exec s.0 s.1 ∷ w.log
  unfolding exec_context
  run_counted-log c s w = by_answer (c.db.exec_context w.log s.0 s.1)
    where
      by_answer :
          (r : Result ExecResult)
          → (continue r (λ r. count_of words missing r.rows_affected) (emit (exec s.0 s.1) w)).1.log
            ≡ exec s.0 s.1 ∷ w.log
      by_answer (ok r) = (count_of-IsQuiet r.rows_affected).at _
      by_answer (err e) = refl
      by_answer (panic p) = refl

  module _ (Enough : Int64 → Type 0)
      (missing_iff : (n : Int64) → (missing n ≡ false) ↔ Enough n) where
    count_of_iff :
        (count : Result Int64) (w : World)
        → ((count_of words missing count w).0 ≡ ok tt) ↔ ((n : Int64) × (count ≡ ok n) × Enough n)
    unfolding wrapping
    count_of_iff (ok n) w = elim (Bool-cases (missing n)) [
      | inl none_there ↦ rw none_there (
        λ h. absurd (cc h),
        λ (k, e, enough). absurd (false≢true (cc (e, (missing_iff k).1 enough, none_there))),
      )
      | inr there ↦ rw there (λ _. (n, refl, (missing_iff n).0 there), λ _. refl)
    ]
    count_of_iff (err e) w = (λ h. absurd (cc h), λ h. absurd (cc (h.1)))
    count_of_iff (panic p) w = (λ h. absurd (cc h), λ h. absurd (cc (h.1)))

    pub run_counted_iff :
        (c : Db) (s : String × List Value) (w : World)
        → ((run_counted words missing c s w).0 ≡ ok tt)
          ↔ Counts Enough (c.db.exec_context w.log s.0 s.1)
    unfolding exec_context
    run_counted_iff c s w = by_answer (c.db.exec_context w.log s.0 s.1)
      where
        by_answer :
            (r : Result ExecResult)
            → ((continue r (λ r. count_of words missing r.rows_affected) (emit (exec s.0 s.1) w)).0
                ≡ ok tt)
              ↔ Counts Enough r
        by_answer (ok r) =
            let i = count_of_iff r.rows_affected (emit (exec s.0 s.1) w) in
            (
              λ h. let (n, e, enough) = i.0 h in (r, n, refl, e, enough),
              λ (r', n, same, e, enough). i.1 (n, cc (same, e), enough),
            )
        by_answer (err e) = (λ h. absurd (cc h), λ h. absurd (cc (h.2)))
        by_answer (panic p) = (λ h. absurd (cc h), λ h. absurd (cc (h.2)))
