-- ===== src/Db/Transaction/Closing.antt =====
-- Transaction leaves as many rows open as it finds, if its callback does.
use ksql.Prelude.{◌≡◌, refl, ap, sym, ◌∙◌, Option, none, some, [], ◌∷◌, if◌then◌else◌}
use ksql.Prelude.Result.{Result, ok, err, panic, Error}
use ksql.Prelude.Action.{Action}
use ksql.World.{
  World, Log, exec, query, close_rows, deferred_close, begin, commit, rollback, close_db, chunk,
  emit,
}
use ksql.Db.{Db, AdapterKind, tx, tx_beginner, plain}
use ksql.Db.Invariant.{opened, ended}
use ksql.Db.Closing.{Shuts, is_ok, open_rows}
use ksql.Db.Transaction.{in_transaction, end_transaction, begun, transaction_by, transaction}

-- The rows of a transaction are those of its client.
same_rows : (c : Db) (l : Log) → open_rows (in_transaction c) l ≡ open_rows c l
unfolding in_transaction
same_rows c [] = refl
same_rows c (deferred_close ∷ l) = ap ended (same_rows c l)
same_rows c (query sql params ∷ l) =
    ap (λ n. if is_ok (c.db.query_context l sql params) then opened n else n) (same_rows c l)
same_rows c (close_rows ∷ l) = same_rows c l
same_rows c (exec sql params ∷ l) = same_rows c l
same_rows c (begin ∷ l) = same_rows c l
same_rows c (commit ∷ l) = same_rows c l
same_rows c (rollback ∷ l) = same_rows c l
same_rows c (close_db ∷ l) = same_rows c l
same_rows c (chunk items ∷ l) = same_rows c l

from_transaction :
    (c : Db) {A : Type 0} (m : Action World A) → Shuts (in_transaction c) m → Shuts c m
from_transaction c m p = record {
  at = λ w. sym (same_rows c (m w).1.log) ∙ p.at w ∙ same_rows c w.log;
}

module _ (c : Db) (fn : Db → Action World (Unit {0})) where
  end_transaction-shut :
      (r : Result (Unit {0})) (w : World)
      → open_rows c (end_transaction c r w).1.log ≡ open_rows c w.log
  unfolding end_transaction
  end_transaction-shut (ok _) w = refl
  end_transaction-shut (err e) w = refl
  end_transaction-shut (panic p) w = refl

  module _ (inside : Shuts (in_transaction c) (fn (in_transaction c)))
      (outside : Shuts c (fn c)) where
    begun-shut :
        (o : Option Error) (w : World)
        → open_rows c (begun c fn o (emit begin w)).1.log ≡ open_rows c w.log
    unfolding begun
    begun-shut (some e) w = refl
    begun-shut none w =
        let (r, w') = fn (in_transaction c) (emit begin w) in
        end_transaction-shut r w'
        ∙ (from_transaction c (fn (in_transaction c)) inside).at (emit begin w)

    by_kind :
        (k : AdapterKind) (w : World)
        → open_rows c (transaction_by k c fn w).1.log ≡ open_rows c w.log
    unfolding transaction_by
    by_kind tx w = outside.at w
    by_kind tx_beginner w = begun-shut (c.db.begin_tx w.log) w
    by_kind plain w = refl

    pub transaction-Shuts : Shuts c (transaction c fn)
    unfolding transaction
    transaction-Shuts = record { at = by_kind c.db.kind }
