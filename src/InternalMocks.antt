-- ===== src/InternalMocks.antt =====
-- internal_mocks.go: doubles of the interfaces of ksql.go that the tests of the package use.
use ksql.Prelude.{String, Option, none, some, List}
use ksql.Prelude.Result.{panic}
use ksql.Prelude.Action.{Action, lift}
use ksql.Reflect.{Value}
use ksql.World.{World}
use ksql.Db.{ExecResult, Rows}

-- The interfaces DBAdapter and Tx.
pub record DbAdapter : Type 0 where
  pub exec_context : String → List Value → Action World ExecResult
  pub query_context : String → List Value → Action World Rows

pub record Tx : Type 0 where
  pub exec_context : String → List Value → Action World ExecResult
  pub query_context : String → List Value → Action World Rows
  pub rollback : Action World (Unit {0})
  pub commit : Action World (Unit {0})

-- A call of a function, or of a method of an embedded interface, that may be nil.
set_or_panic : {F : Type 0} {A : Type 0} → Option F → (F → Action World A) → Action World A
set_or_panic none call =
    lift (panic "runtime error: invalid memory address or nil pointer dereference")
set_or_panic (some f) call = call f

pub record MockTxBeginner : Type 0 where
  pub db_adapter : Option DbAdapter
  pub begin_tx_fn : Option (Action World Tx)

pub record MockDbAdapter : Type 0 where
  pub exec_context_fn : Option (String → List Value → Action World ExecResult)
  pub query_context_fn : Option (String → List Value → Action World Rows)

pub record MockTx : Type 0 where
  pub db_adapter : Option DbAdapter
  pub rollback_fn : Option (Action World (Unit {0}))
  pub commit_fn : Option (Action World (Unit {0}))

pub record MockCloser : Type 0 where
  pub close_fn : Option (Action World (Unit {0}))

pub begin_tx : MockTxBeginner → Action World Tx
unfolding set_or_panic
begin_tx b = set_or_panic b.begin_tx_fn (λ f. f)

-- mockDBAdapter as a DBAdapter
pub as_db_adapter : MockDbAdapter → DbAdapter
unfolding set_or_panic
as_db_adapter m = record {
  exec_context = λ text params. set_or_panic m.exec_context_fn (λ f. f text params);
  query_context = λ text params. set_or_panic m.query_context_fn (λ f. f text params);
}

-- mockTx as a Tx, with the methods of the DBAdapter that it holds
pub as_tx : MockTx → Tx
unfolding set_or_panic
as_tx m = record {
  exec_context = λ text params. set_or_panic m.db_adapter (λ db. db.exec_context text params);
  query_context = λ text params. set_or_panic m.db_adapter (λ db. db.query_context text params);
  rollback = set_or_panic m.rollback_fn (λ f. f);
  commit = set_or_panic m.commit_fn (λ f. f);
}

pub close : MockCloser → Action World (Unit {0})
unfolding set_or_panic
close m = set_or_panic m.close_fn (λ f. f)
