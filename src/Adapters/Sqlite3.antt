-- ===== src/Adapters/Sqlite3.antt =====
-- adapters/ksqlite3: the adapter over database/sql, and the constructors of its clients.
use ksql.Prelude.{String}
use ksql.Prelude.Result.{Result}
use ksql.Db.{Adapter, Config, Db}
use ksql.Adapters.Std.{SqlDb, DatabaseSql, adapter_over, new_for_driver, new_for_driver_from}

-- NewSQLAdapter, with SQLTx for the transaction
pub new_sql_adapter : SqlDb → Adapter
new_sql_adapter db = adapter_over db

pub new_from_sql_db : SqlDb → Result Db
new_from_sql_db db = new_for_driver_from "sqlite3" db

unfoldable pub new : DatabaseSql → String → Config → Result Db
new sql connection_string config = new_for_driver sql "sqlite3" connection_string config
