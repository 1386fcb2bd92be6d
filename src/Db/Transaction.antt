-- ===== src/Db/Transaction.antt =====
-- Transaction and Close of ksql.go.
pub mod Laws
pub mod Closing
pub mod Keeping
use ksql.Prelude.{String, Option, none, some}
use ksql.Prelude.Result.{Result, ok, err, panic, Error, msg, wrap}
use ksql.Prelude.Action.{Action, pure, raise, lift, ◌>>=◌}
use ksql.World.{World, Event, begin, commit, rollback, close_db, emit}
use ksql.Db.{Db, Adapter, AdapterKind, tx, tx_beginner, plain, or_fail}

-- The client whose adapter is the transaction that was begun.
pub in_transaction : Db → Db
in_transaction c = record c { db = record c.db { kind = tx; closer = none } }

rollback_tx : Db → World → Option Error × World
rollback_tx c w = (c.db.rollback_tx w.log, emit rollback w)

commit_tx : Db → Action World (Unit {0})
commit_tx c w = (or_fail (c.db.commit_tx w.log), emit commit w)

-- The error of the callback, or that of the rollback if it fails.
after_error : Error → Option Error → Result (Unit {0})
after_error e none = err e
after_error e (some failed) = err (wrap "KSQL: unable to rollback after error" failed)

-- The deferred function panics again, with another value if the rollback fails.
after_panic : String → Option Error → Result (Unit {0})
after_panic p none = panic p
after_panic p (some failed) = panic "KSQL: unable to rollback after panic"

-- What follows the call of `fn`.
end_transaction : Db → Result (Unit {0}) → Action World (Unit {0})
unfolding after_error after_panic commit_tx rollback_tx
end_transaction c (ok _) w = commit_tx c w
end_transaction c (err e) w = let (failed, w') = rollback_tx c w in (after_error e failed, w')
end_transaction c (panic p) w = let (failed, w') = rollback_tx c w in (after_panic p failed, w')

begun : Db → (Db → Action World (Unit {0})) → Option Error → Action World (Unit {0})
unfolding end_transaction in_transaction
begun c fn (some e) w = (err (wrap "KSQL: error starting transaction" e), w)
begun c fn none w = let (r, w') = fn (in_transaction c) w in end_transaction c r w'

transaction_by : AdapterKind → Db → (Db → Action World (Unit {0})) → Action World (Unit {0})
unfolding begun
transaction_by tx c fn w = fn c w
transaction_by tx_beginner c fn w = begun c fn (c.db.begin_tx w.log) (emit begin w)
transaction_by plain c fn w = (
  err (
      msg
        "KSQL: can't start transaction: The DBAdapter doesn't implement the TxBeginner interface"),
  w,
)

pub transaction : Db → (Db → Action World (Unit {0})) → Action World (Unit {0})
unfolding transaction_by
transaction c fn = transaction_by c.db.kind c fn

-- Close of the adapter, if it is an io.Closer
unfoldable pub close_client : Db → Action World (Unit {0})
close_client c w = elim c.db.closer [
  | none ↦ (ok tt, w)
  | some closer ↦ (or_fail (closer w.log), emit close_db w)
]
