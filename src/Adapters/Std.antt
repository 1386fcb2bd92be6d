-- ===== src/Adapters/Std.antt =====
-- The text that adapters/kmysql, adapters/ksqlite3 and adapters/ksqlserver share: an adapter over
-- database/sql, which is a parameter.
use ksql.Prelude.{String, Option, some, List}
use ksql.Prelude.Result.{Result, Error, and_then}
use ksql.Reflect.{Value}
use ksql.World.{Log}
use ksql.Sql.Scan.{ScanArg}
use ksql.Db.{
  Int64, Adapter, tx_beginner, Config, Db, ExecResult, Rows, new_with_adapter, or_fail,
  set_default_values,
}

-- A sql.DB, and the sql.Tx that it begins.
pub record SqlDb : Type 0 where
  pub exec_context : Log → String → List Value → Result ExecResult
  pub query_context : Log → String → List Value → Result Rows
  pub scan : List Value → List ScanArg → Value → Option Error × Value
  pub begin_tx : Log → Option Error
  pub commit : Log → Option Error
  pub rollback : Log → Option Error
  pub close : Log → Option Error

-- SQLAdapter, with SQLTx for the transaction
unfoldable pub adapter_over : SqlDb → Adapter
adapter_over db = record {
  kind = tx_beginner;
  exec_context = db.exec_context;
  query_context = db.query_context;
  scan = db.scan;
  begin_tx = db.begin_tx;
  commit_tx = db.commit;
  rollback_tx = db.rollback;
  closer = some db.close;
}

-- sql.Open, Ping and SetMaxOpenConns
pub record DatabaseSql : Type 0 where
  pub open_db : String → String → Result SqlDb
  pub ping : SqlDb → Option Error
  pub set_max_open_conns : Int64 → SqlDb → SqlDb

-- NewFromSQLDB, for the driver of its package
pub new_for_driver_from : String → SqlDb → Result Db
new_for_driver_from driver db = new_with_adapter (adapter_over db) driver

-- New, for the driver of its package
unfoldable pub new_for_driver : DatabaseSql → String → String → Config → Result Db
new_for_driver sql driver connection_string config =
    and_then (sql.open_db driver connection_string) λ db. and_then (or_fail (sql.ping db)) λ _.
      new_with_adapter
        (adapter_over (sql.set_max_open_conns (set_default_values config).max_open_conns db)) driver
