-- ===== src/Adapters/Pgx.antt =====
-- adapters/kpgx: the adapter over pgx, which is a parameter.
use ksql.Prelude.{ℕ, suc, ◌-◌, ◌%◌, ◌^◌, String, Option, none, some, List, [], ◌∷◌}
use ksql.Prelude.Result.{Result, ok, err, Error, msg, and_then}
use ksql.Reflect.{Value}
use ksql.World.{Log}
use ksql.Sql.Scan.{ScanArg}
use ksql.Db.{
  pos, negsuc, Adapter, tx_beginner, Config, Db, ExecResult, Int64, Rows, new_with_adapter, or_fail,
  set_default_values,
}

pub record FieldDescription : Type 0 where
  pub name : String

-- What pgx answers to a query: its rows have a Close with no error.
pub record PgxRows : Type 0 where
  pub field_descriptions : List FieldDescription
  pub rows : List (List Value)
  pub failure : Option Error

-- A pgxpool.Pool, and the transaction that it begins. `exec` answers with the count of rows in the
-- command tag.
pub record Pool : Type 0 where
  pub exec : Log → String → List Value → Result Int64
  pub query : Log → String → List Value → Result PgxRows
  pub scan : List Value → List ScanArg → Value → Option Error × Value
  pub begin : Log → Option Error
  pub commit : Log → Option Error
  pub rollback : Log → Option Error

-- PGXResult
pub pgx_result : Int64 → ExecResult
pgx_result tag = record {
  last_insert_id = err (
      msg
        "LastInsertId is not implemented in the pgx adapter, use the `RETURNING` statement instead");
  rows_affected = ok tag;
}

-- PGXRows.Columns
column_names : List FieldDescription → List String
column_names [] = []
column_names (desc ∷ more) = desc.name ∷ column_names more

-- PGXRows
pub pgx_rows : PgxRows → Rows
unfolding column_names
pgx_rows r = record {
  columns = ok (column_names r.field_descriptions);
  rows = r.rows;
  failure = r.failure;
  close_failure = none;
}

-- PGXAdapter, with PGXTx for the transaction
pub pgx_adapter : Pool → Adapter
unfolding pgx_result pgx_rows
pgx_adapter db = record {
  kind = tx_beginner;
  exec_context = λ log sql args. and_then (db.exec log sql args) (λ tag. ok (pgx_result tag));
  query_context = λ log sql args. and_then (db.query log sql args) (λ rows. ok (pgx_rows rows));
  scan = db.scan;
  begin_tx = db.begin;
  commit_tx = db.commit;
  rollback_tx = db.rollback;
  closer = some (λ log. none);
}

pub new_from_pgx_pool : Pool → Result Db
new_from_pgx_pool pool = new_with_adapter (pgx_adapter pool) "postgres"

-- The 32 bits of a conversion to int32.
int32 : Int64 → ℕ
int32 (pos n) = n % 2 ^ 32
int32 (negsuc n) = 2 ^ 32 - suc (n % 2 ^ 32)

-- pgxpool.ParseConfig, ConnectConfig with MaxConns as an int32 in 32 bits, and Ping.
pub record Pgx : Type 0 where
  pub parse_config : String → Option Error
  pub connect_config : String → ℕ → Result Pool
  pub ping : Pool → Option Error

pub new : Pgx → String → Config → Result Db
unfolding int32
new pgx connection_string config = and_then (or_fail (pgx.parse_config connection_string)) λ _.
    and_then
      (pgx.connect_config connection_string (int32 (set_default_values config).max_open_conns))
      λ pool. and_then (or_fail (pgx.ping pool)) λ _. new_with_adapter (pgx_adapter pool) "postgres"
