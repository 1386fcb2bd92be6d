-- ===== src/Db/Closing.antt =====
-- How many rows of the driver a log leaves open, and calls that leave as many open as they find.
use ksql.Prelude.{
  ℕ, String, ◌≡◌, refl, ap, ◌∙◌, Bool, true, false, Option, some, List, [], ◌∷◌, if◌then◌else◌,
}
use ksql.Prelude.Result.{Result, ok, err, panic}
use ksql.Prelude.Action.{Action, ◌>>=◌, continue, lift}
use ksql.Reflect.{Value}
use ksql.World.{World, Log, query, deferred_close, emit}
use ksql.World.Quiet.{IsQuiet}
use ksql.Db.{Db, Rows, exec_context, query_context, close, deferring_close, wrapping}
use ksql.Db.Invariant.{opened, ended, ended-opened}

abbrev pub is_ok : Result Rows → Bool
is_ok (ok rows) = true
is_ok (err e) = false
is_ok (panic p) = false

-- How many queries the driver has answered with rows whose deferred Close has not run; nothing if
-- one ran when no rows were open. A Close before it leaves them counted.
abbrev pub open_rows : Db → Log → Option ℕ
open_rows c [] = some 0
open_rows c (deferred_close ∷ l) = ended (open_rows c l)
open_rows c (query text params ∷ l) =
    if is_ok (c.db.query_context l text params) then opened (open_rows c l) else open_rows c l
open_rows c (e ∷ l) = open_rows c l

-- A call after which as many rows are open as before, however it ends.
pub record Shuts (c : Db) {A : Type 0} (m : Action World A) : Type 0 where
  pub at : (w : World) → open_rows c (m w).1.log ≡ open_rows c w.log

module _ {c : Db} {A : Type 0} where
  pub IsQuiet-Shuts : (m : Action World A) → IsQuiet m → Shuts c m
  IsQuiet-Shuts m q = record { at = λ w. ap (open_rows c) (q.at w) }

  pub lift-Shuts : (r : Result A) → Shuts c (lift r)
  lift-Shuts r = record { at = λ w. refl }

  pub if-Shuts :
      (b : Bool) (m n : Action World A) → Shuts c m → Shuts c n → Shuts c (if b then m else n)
  if-Shuts true m n qm qn = qm
  if-Shuts false m n qm qn = qn

module _ {c : Db} {A B : Type 0} where
  continue-shut :
      (r : Result A) (k : A → Action World B) (w : World)
      → ((a : A) → Shuts c (k a))
      → open_rows c (continue r k w).1.log ≡ open_rows c w.log
  continue-shut (ok a) k w q = (q a).at w
  continue-shut (err e) k w q = refl
  continue-shut (panic p) k w q = refl

  pub bind-Shuts :
      (m : Action World A) (k : A → Action World B)
      → Shuts c m
      → ((a : A) → Shuts c (k a))
      → Shuts c (m >>= k)
  bind-Shuts m k qm qk = record { at = λ w. let (r, w') = m w in continue-shut r k w' qk ∙ qm.at w }

pub exec_context-Shuts :
    (c : Db) (text : String) (params : List Value) → Shuts c (exec_context c text params)
unfolding exec_context
exec_context-Shuts c text params = record { at = λ w. refl }

pub close-Shuts : (c : Db) (rows : Rows) → Shuts c (close rows)
unfolding close
close-Shuts c rows = record { at = λ w. refl }

module _ (c : Db) {B : Type 0} (text : String) (params : List Value) (read : Rows → Action World B)
    (shuts : (rows : Rows) → Shuts c (read rows)) where
  read_and_closed :
      (rows : Rows) (w : World)
      → c.db.query_context w.log text params ≡ ok rows
      → open_rows c (deferring_close (read rows) (emit (query text params) w)).1.log
        ≡ open_rows c w.log
  unfolding deferring_close
  read_and_closed rows w e =
      let asked : open_rows c (query text params ∷ w.log) ≡ opened (open_rows c w.log) =
        rw e refl in
      ap ended ((shuts rows).at (emit (query text params) w) ∙ asked)
      ∙ ended-opened (open_rows c w.log)

  -- The rows of a query are closed when the call that reads them ends, if that leaves none of its
  -- own.
  pub query_context-Shuts :
      Shuts c (query_context c text params >>= λ rows. deferring_close (read rows))
  unfolding query_context
  query_context-Shuts = record { at = λ w. by_answer (c.db.query_context w.log text params) w refl }
    where
      by_answer :
          (r : Result Rows) (w : World)
          → c.db.query_context w.log text params ≡ r
          → open_rows c
              (continue r (λ rows. deferring_close (read rows)) (emit (query text params) w)).1.log
            ≡ open_rows c w.log
      by_answer (ok rows) w e = read_and_closed rows w e
      by_answer (err x) w e = rw e refl
      by_answer (panic p) w e = rw e refl

  pub wrapped-query_context-Shuts :
      (words : String)
      → Shuts c (
          (λ w. let (r, w') = query_context c text params w in (wrapping words r, w')) >>= λ rows.
          deferring_close (read rows))
  unfolding query_context wrapping
  wrapped-query_context-Shuts words = record {
    at = λ w. by_answer (c.db.query_context w.log text params) w refl;
  }
    where
      by_answer :
          (r : Result Rows) (w : World)
          → c.db.query_context w.log text params ≡ r
          → open_rows c
              (continue
                (wrapping words r)
                (λ rows. deferring_close (read rows))
                (emit (query text params) w)).1.log
            ≡ open_rows c w.log
      by_answer (ok rows) w e = read_and_closed rows w e
      by_answer (err x) w e = rw e refl
      by_answer (panic p) w e = rw e refl

pub ruleset shut_rules = (
  lift-Shuts, if-Shuts, bind-Shuts, query_context-Shuts, wrapped-query_context-Shuts,
  exec_context-Shuts, close-Shuts,
)
