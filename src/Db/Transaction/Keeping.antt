-- ===== src/Db/Transaction/Keeping.antt =====
-- Transaction keeps the invariant, if its callback does: the transaction that it begins is over
-- when it returns.
use ksql.Prelude.{ℕ, ◌≡◌, sym, ◌∙◌, ap, Option, none, some}
use ksql.Prelude.Result.{Result, ok, err, panic, Error}
use ksql.Prelude.Action.{Action}
use ksql.World.{World, Log, begin, commit, rollback, emit}
use ksql.World.Preserves.{Preserves}
use ksql.Db.{Db, AdapterKind, tx, tx_beginner, plain}
use ksql.Db.Invariant.{opened, ended, ended-opened, Holds, relogged-IsSound}
use ksql.Db.Transaction.{in_transaction, end_transaction, begun, transaction_by, transaction}

module _ (begins : Log → Option Error) where
  end_transaction-Preserves :
      (n : Option ℕ) (c : Db) (r : Result (Unit {0})) (w : World)
      → Holds begins (opened n) w
      → Holds begins n (end_transaction c r w).1
  unfolding end_transaction
  end_transaction-Preserves n c (ok _) w h =
      (relogged-IsSound begins n commit w h.0, ap ended h.1 ∙ ended-opened n)
  end_transaction-Preserves n c (err e) w h =
      (relogged-IsSound begins n rollback w h.0, ap ended h.1 ∙ ended-opened n)
  end_transaction-Preserves n c (panic p) w h =
      (relogged-IsSound begins n rollback w h.0, ap ended h.1 ∙ ended-opened n)

  module _ (c : Db) (fn : Db → Action World (Unit {0})) (same : c.db.begin_tx ≡ begins) where
    -- The callback keeps as many transactions open as it finds, on the client given to it.
    abbrev pub Keeps : Type 0
    Keeps = (d : Db) → d.db.begin_tx ≡ begins → (n : Option ℕ) → Preserves (Holds begins n) (fn d)

    module _ (keeps : Keeps) (n : Option ℕ) where
      begun-Preserves :
          (o : Option Error) (w : World)
          → begins w.log ≡ o
          → Holds begins n w
          → Holds begins n (begun c fn o (emit begin w)).1
      unfolding begun in_transaction
      begun-Preserves (some e) w answer h = (relogged-IsSound begins n begin w h.0, rw answer h.1)
      begun-Preserves none w answer h = end_transaction-Preserves n c _ _ (
          (keeps (in_transaction c) same (opened n)).at (emit begin w)
            (relogged-IsSound begins n begin w h.0, rw answer (ap opened h.1)))

      by_kind :
          (k : AdapterKind) (w : World)
          → Holds begins n w
          → Holds begins n (transaction_by k c fn w).1
      unfolding transaction_by
      by_kind tx w h = (keeps c same n).at w h
      by_kind tx_beginner w h =
          begun-Preserves (c.db.begin_tx w.log) w (ap (λ f. f w.log) (sym same)) h
      by_kind plain w h = h

      pub transaction-Preserves : Preserves (Holds begins n) (transaction c fn)
      unfolding transaction
      transaction-Preserves = record { at = by_kind c.db.kind }
