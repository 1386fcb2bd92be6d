-- ===== src/Db/Transaction/Laws.antt =====
-- How a transaction ends.
use ksql.Prelude.{◌≡◌, refl, ap, ◌↔◌, ◌∷◌, none, Option-cases, inl, inr}
use ksql.Prelude.Result.{Result, ok, err, panic}
use ksql.Prelude.Action.{Action}
use ksql.World.{World, Event, begin, commit, rollback, emit}
use ksql.Db.{Db, AdapterKind, tx, tx_beginner, plain}
use ksql.Db.Transaction.{in_transaction, end_transaction, begun, transaction_by, transaction}

-- The event that ends a transaction whose callback had this outcome.
abbrev pub ending : Result (Unit {0}) → Event
ending (ok _) = commit
ending (err e) = rollback
ending (panic p) = rollback

module _ (c : Db) (fn : Db → Action World (Unit {0})) (w : World) where
  -- The callback's run on the transaction that was begun.
  abbrev pub inner : Result (Unit {0}) × World
  inner = fn (in_transaction c) (emit begin w)

  module _ (can_begin : c.db.kind ≡ tx_beginner) (begins : c.db.begin_tx w.log ≡ none) where
    opened : transaction c fn w ≡ end_transaction c inner.0 inner.1
    unfolding transaction transaction_by begun
    opened = rw can_begin (rw begins)

    -- If the adapter can begin transactions and this one begins, then after `transaction` the log
    -- is that of the callback's run on the transaction with one more event: a commit if the
    -- callback returned no error, a rollback if it returned an error or panicked.
    pub transaction-logs : (transaction c fn w).1.log ≡ ending inner.0 ∷ inner.1.log
    unfolding end_transaction
    transaction-logs = rw opened (log_of inner.0 inner.1)
      where
        log_of :
            (r : Result (Unit {0})) (s : World) → (end_transaction c r s).1.log ≡ ending r ∷ s.log
        log_of (ok x) s = refl
        log_of (err e) s = refl
        log_of (panic p) s = refl

    -- If the adapter can begin transactions and this one begins, `transaction` returns no error if
    -- and only if the callback returned none and the commit failed with none.
    pub transaction-eq-ok_iff :
        ((transaction c fn w).0 ≡ ok tt) ↔ ((inner.0 ≡ ok tt) × (c.db.commit_tx inner.1.log ≡ none))
    unfolding end_transaction
    transaction-eq-ok_iff = rw opened (iff_of inner.0 inner.1)
      where
        iff_of :
            (r : Result (Unit {0})) (s : World)
            → ((end_transaction c r s).0 ≡ ok tt) ↔ ((r ≡ ok tt) × (c.db.commit_tx s.log ≡ none))
        iff_of (ok x) s = elim (Option-cases (c.db.commit_tx s.log)) [
          | inl done ↦ rw done (λ _. (refl, refl), λ _. refl)
          | inr (e, failed) ↦ rw failed (λ h. absurd (cc h), λ h. absurd (cc h.1))
        ]
        iff_of (err e) s = elim (Option-cases (c.db.rollback_tx s.log)) [
          | inl done ↦ rw done (λ h. absurd (cc h), λ h. absurd (cc h.0))
          | inr (e', failed) ↦ rw failed (λ h. absurd (cc h), λ h. absurd (cc h.0))
        ]
        iff_of (panic p) s = elim (Option-cases (c.db.rollback_tx s.log)) [
          | inl done ↦ rw done (λ h. absurd (cc h), λ h. absurd (cc h.0))
          | inr (e', failed) ↦ rw failed (λ h. absurd (cc h), λ h. absurd (cc h.0))
        ]

module _ (c : Db) (fn : Db → Action World (Unit {0})) where
  -- A transaction started inside a transaction, with nothing else in it, is the outer transaction
  -- with its callback: no second one begins or ends.
  pub transaction-transaction :
      (w : World) → transaction c (λ d. transaction d fn) w ≡ transaction c fn w
  unfolding transaction transaction_by begun in_transaction
  transaction-transaction w = by_kind c.db.kind refl
    where
      by_kind :
          (k : AdapterKind)
          → c.db.kind ≡ k
          → transaction_by k c (λ d. transaction d fn) w ≡ transaction_by k c fn w
      by_kind tx e = ap (λ k. transaction_by k c fn w) e
      by_kind tx_beginner e = refl
      by_kind plain e = refl
