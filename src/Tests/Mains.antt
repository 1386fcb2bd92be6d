-- ===== src/Tests/Mains.antt =====
-- Runs of the example programs on a database/sql that answers from a script.
use ksql.Prelude.{String, ◌≡◌, ◌≢◌, refl, none, some, [], ◌∷◌}
use ksql.Prelude.Result.{ok, err, Error, msg}
use ksql.Reflect.{object, from_values}
use ksql.World.{World, Log, close_db}
use ksql.Sql.Select.{initialize_query_cache}
use ksql.Sql.Select.Sound.{initial-IsSound}
use ksql.Db.{pos}
use ksql.Db.Closing.{open_rows}
use ksql.Db.Invariant.{open_transactions}
use ksql.Adapters.Std.{SqlDb, DatabaseSql, adapter_over}
use ksql.Adapters.Pgx.{Pgx}
use ksql.Examples.Crud
use ksql.Examples.Crud.Laws.{client_of, main-closes}
use ksql.Examples.AllAdapters
use ksql.Examples.AllAdapters.Laws.{main-fails}
use ksql.Tests.{client, two_rows}
use ksql.Tests.Writes.{go}

abbrev sqlite : SqlDb
sqlite = record {
  exec_context =
      λ log sql params. ok (record { last_insert_id = ok (pos 7); rows_affected = ok (pos 1) });
  query_context = λ log sql params. ok two_rows;
  scan = λ row args v. (none, object "User" Crud.user_fields (from_values row));
  begin_tx = λ log. none;
  commit = λ log. none;
  rollback = λ log. none;
  close = λ log. none;
}

abbrev database_sql : DatabaseSql
database_sql = record {
  open_db = λ driver source. ok sqlite;
  ping = λ db. none;
  set_max_open_conns = λ n db. db;
}

abbrev pgx : Pgx
pgx = record {
  parse_config = λ source. some (msg "no server");
  connect_config = λ source n. err (msg "no server");
  ping = λ pool. none;
}

abbrev text_of : Error → String
text_of e = "an error"

abbrev fresh : World
fresh = record { tags = []; selects = initialize_query_cache; log = [] }

main-closes_example :
    (l : Log) × ((Crud.main text_of database_sql go fresh).1.log ≡ close_db ∷ l)
    × (open_transactions sqlite.begin_tx l ≡ some 0)
    × (open_rows (client_of database_sql sqlite) l ≡ some 0)
unfolding adapter_over
main-closes_example = main-closes text_of database_sql go sqlite refl refl fresh initial-IsSound

main-fails_example :
    (AllAdapters.main pgx database_sql client go "sqlite3" fresh).0
    ≢ ok (
      object "User" Crud.user_fields (from_values []),
      object "User" Crud.user_fields (from_values []),
    )
main-fails_example = main-fails pgx database_sql client go "sqlite3" fresh (
  object "User" Crud.user_fields (from_values []),
  object "User" Crud.user_fields (from_values []),
)
