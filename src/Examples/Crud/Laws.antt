-- ===== src/Examples/Crud/Laws.antt =====
-- The program of examples/crud ends with its client closed and nothing left open.
use ksql.Prelude.{String, ◌≡◌, refl, none, ◌∷◌}
use ksql.Prelude.Result.{ok, Error}
use ksql.World.{World, Log, close_db}
use ksql.Sql.Select.Sound.{IsSound}
use ksql.Dialect.{sqlite3, supported_dialect}
use ksql.Db.{Db, pos, new_with_adapter, with_dialect, set_default_values}
use ksql.Db.Closing.{open_rows}
use ksql.Db.Invariant.{open_transactions}
use ksql.Db.Write.{Runtime}
use ksql.Db.Transaction.{close_client}
use ksql.Db.Program.{run}
use ksql.Db.Program.Laws.{run-open_transactions}
use ksql.Db.Program.Closing.{run-open_rows}
use ksql.Adapters.Std.{SqlDb, DatabaseSql, adapter_over, new_for_driver}
use ksql.Adapters.Sqlite3.{new}
use ksql.Examples.Crud.{use_client, serve, after_new, main}

-- The client that New returns for an open database.
abbrev pub client_of : DatabaseSql → SqlDb → Db
client_of sql db = record {
  driver = "sqlite3";
  dialect = sqlite3;
  db = adapter_over (sql.set_max_open_conns (pos 1) db);
}

module _ (error_text : Error → String) (sql : DatabaseSql) (rt : Runtime) (db : SqlDb)
    (opens : sql.open_db "sqlite3" "/tmp/hello.sqlite" ≡ ok db) (pings : sql.ping db ≡ none) where
  connects : new sql "/tmp/hello.sqlite" (record { max_open_conns = pos 1 }) ≡ ok (client_of sql db)
  unfolding new new_for_driver new_with_adapter with_dialect supported_dialect set_default_values
  connects = rw opens (rw pings refl)

  module _ (w : World) (sound : IsSound w) where
    -- If the database opens and answers the ping and the caches are sound, the program of
    -- examples/crud closes the database last, and before that has left as many transactions and as
    -- many rows open as there were, whatever the driver answers and however its calls end.
    pub main-closes :
        (l : Log) × ((main error_text sql rt w).1.log ≡ close_db ∷ l)
        × (open_transactions (client_of sql db).db.begin_tx l
            ≡ open_transactions (client_of sql db).db.begin_tx w.log)
        × (open_rows (client_of sql db) l ≡ open_rows (client_of sql db) w.log)
    unfolding main serve after_new close_client adapter_over
    main-closes = (
      (run rt (use_client error_text) (client_of sql db) w).1.log,
      rw connects refl,
      run-open_transactions rt (use_client error_text) (client_of sql db) w sound,
      run-open_rows rt (use_client error_text) (client_of sql db) w,
    )
