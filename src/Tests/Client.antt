-- ===== src/Tests/Client.antt =====
-- Runs of the client.
use ksql.Sql.Ids.{normalize_ids_as_map, validate_if_all_ids_are_present}
use ksql.Sql.Delete.{build_delete_query}
use ksql.Reflect.{is_zero}
use ksql.Table.{validate}
use ksql.Db.Write.{delete}
use ksql.Db.Write.Counts.{Counts}
use ksql.Prelude.Text.{itoa}
use ksql.Dialect.{postgres}
use ksql.Sql.Delete.Laws.{Carries}
use ksql.Db.Write.Laws.{IsDeleted, delete-sends, delete-refuses}
use ksql.Tests.{users}
use ksql.Dialect.{escape, placeholder}
use ksql.Prelude.Text.{join}
use ksql.Db.{pos}
use ksql.World.{exec}
use ksql.Prelude.{◌↔◌, ◌≢◌}
use ksql.Prelude.{◌≡◌, refl, ◌↔◌, [], ◌∷◌}
use ksql.Prelude.Dict.{lookup}
use ksql.Prelude.Result.{ok, err, msg}
use ksql.Prelude.{List}
use ksql.Reflect.{Value, basic, scalar}
use ksql.World.{rollback, begin}
use ksql.Db.Transaction.{transaction}
use ksql.Db.Transaction.Laws.{transaction-logs, transaction-transaction}
use ksql.Tests.{start, client}

transaction-logs_example :
    (transaction client (λ d s. (err (msg "no"), s)) start).1.log ≡ rollback ∷ begin ∷ []
transaction-logs_example = transaction-logs client (λ d s. (err (msg "no"), s)) start refl refl

transaction-transaction_example :
    transaction client (λ d. transaction d (λ e s. (ok tt, s))) start
    ≡ transaction client (λ e s. (ok tt, s)) start
transaction-transaction_example = transaction-transaction client (λ e s. (ok tt, s)) start

ids_of_4 :
    (normalize_ids_as_map ("id" ∷ []) (scalar (basic "int") 4) start).0
    ≡ ok (("id", scalar (basic "int") 4) ∷ [])
unfolding normalize_ids_as_map validate_if_all_ids_are_present lookup is_zero
ids_of_4 = refl

pub valid_users : validate users ≡ ok tt
unfolding validate
valid_users = refl

delete-sends_example :
    (params : List Value) × Carries (("id", scalar (basic "int") 4) ∷ []) ("id" ∷ []) params
    × ((delete client users (scalar (basic "int") 4) start).1.log
        ≡ exec "DELETE FROM `users` WHERE `id` = ?" params ∷ [])
    × (((delete client users (scalar (basic "int") 4) start).0 ≡ ok tt)
        ↔ Counts IsDeleted
            (ok (record { last_insert_id = ok (pos 7); rows_affected = ok (pos 1) })))
unfolding escape placeholder
delete-sends_example =
    delete-sends client users (scalar (basic "int") 4) start valid_users
      (("id", scalar (basic "int") 4) ∷ []) ids_of_4

-- A statement with two ids.
delete_test :
    build_delete_query postgres
      (record { name = "likes"; id_columns = "user" ∷ "post" ∷ [] })
      (("post", scalar (basic "int") 5) ∷ ("user", scalar (basic "int") 4) ∷ [])
    ≡ (
      "DELETE FROM \"likes\" WHERE \"user\" = $1 AND \"post\" = $2",
      scalar (basic "int") 4 ∷ scalar (basic "int") 5 ∷ [],
    )
unfolding build_delete_query escape placeholder join itoa lookup
delete_test = refl

delete-refuses_example :
    ((delete client users (scalar (basic "int") 0) start).1.log ≡ [])
    × ((delete client users (scalar (basic "int") 0) start).0 ≢ ok tt)
unfolding normalize_ids_as_map validate_if_all_ids_are_present lookup is_zero
delete-refuses_example =
    delete-refuses client users (scalar (basic "int") 0) start valid_users (λ m e. cc e)
