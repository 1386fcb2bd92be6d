-- ===== src/Db.antt =====
-- DB of ksql.go: the client, the interfaces that it drives, and the calls that reach the driver.
pub mod Scanning
pub mod Closing
pub mod Invariant
pub mod Query
pub mod Chunks
pub mod Write
pub mod Transaction
pub mod Program
pub mod Provider
use ksql.Prelude.{
  ℕ, zero, suc, String, Option, none, some, Bool, true, false, List, [], ◌∷◌, if◌then◌else◌,
}
use ksql.Prelude.Result.{Result, ok, err, panic, Error, msg, external, wrap}
use ksql.Prelude.Action.{Action, pure, raise, lift, ◌>>=◌}
use ksql.Reflect.{Value}
use ksql.World.{World, Log, Event, exec, query, close_rows, deferred_close, emit}
use ksql.Dialect.{Dialect, supported_dialect}
use ksql.Sql.Scan.{ScanArg}

-- An `int64` count or id.
pub data Int64 : Type 0 where
  pos : ℕ → Int64
  negsuc : ℕ → Int64

-- What the driver will answer for one Result.
pub record ExecResult : Type 0 where
  pub last_insert_id : Result Int64
  pub rows_affected : Result Int64

-- What the driver will answer for one Rows: the columns, the rows that `Next` steps through, what
-- `Err` says after the last and what `Close` returns.
pub record Rows : Type 0 where
  pub columns : Result (List String)
  pub rows : List (List Value)
  pub failure : Option Error
  pub close_failure : Option Error

-- Which of the interfaces Tx and TxBeginner an adapter implements.
pub data AdapterKind : Type 0 where
  tx tx_beginner plain : AdapterKind

-- The driver, which is not ksql's: its answers depend on the calls that came before. `scan` stores
-- a row at the addresses given, inside the record that they lead into, and may fail half-way.
pub record Adapter : Type 0 where
  pub kind : AdapterKind
  pub exec_context : Log → String → List Value → Result ExecResult
  pub query_context : Log → String → List Value → Result Rows
  pub scan : List Value → List ScanArg → Value → Option Error × Value
  pub begin_tx : Log → Option Error
  pub commit_tx : Log → Option Error
  pub rollback_tx : Log → Option Error
  -- the adapter's own Close, if it is an io.Closer
  pub closer : Option (Log → Option Error)

pub record Db : Type 0 where
  pub driver : String
  pub dialect : Dialect
  pub db : Adapter

unfoldable pub with_dialect : Adapter → String → Option Dialect → Result Db
with_dialect db name none = err (msg "unsupported driver")
with_dialect db name (some dialect) = ok (record { driver = name; dialect = dialect; db = db })

unfoldable pub new_with_adapter : Adapter → String → Result Db
unfolding with_dialect
new_with_adapter db dialect_name = with_dialect db dialect_name (supported_dialect dialect_name)

pub record Config : Type 0 where
  pub max_open_conns : Int64

unfoldable pub set_default_values : Config → Config
set_default_values c = elim c.max_open_conns [
  | pos zero ↦ record c { max_open_conns = pos 1 }
  | _ ↦ c
]

-- An error value, nil or not, as the outcome of a call.
abbrev pub or_fail : Option Error → Result (Unit {0})
or_fail none = ok tt
or_fail (some e) = err e

module _ (c : Db) where
  unfoldable pub exec_context : String → List Value → Action World ExecResult
  exec_context text params w = (c.db.exec_context w.log text params, emit (exec text params) w)

  unfoldable pub query_context : String → List Value → Action World Rows
  query_context text params w = (c.db.query_context w.log text params, emit (query text params) w)

  -- Exec
  pub exec_statement : String → List Value → Action World ExecResult
  exec_statement text params = exec_context text params

unfoldable pub close : Rows → Action World (Unit {0})
close rows w = (or_fail rows.close_failure, emit close_rows w)

-- `defer rows.Close()`, whose own error is dropped: it runs however the rest ends.
unfoldable pub deferring_close : {A : Type 0} → Action World A → Action World A
deferring_close m w = let (r, w') = m w in (r, emit deferred_close w')

-- fmt.Errorf("…: %s", err)
unfoldable pub wrapping : {A : Type 0} → String → Result A → Result A
wrapping text (ok a) = ok a
wrapping text (err e) = err (wrap text e)
wrapping text (panic p) = panic p
