-- ===== src/Examples/AllAdapters/Laws.antt =====
-- The address of a pointer is not a record: what this makes of the program of examples/all_adapters.
use ksql.Prelude.{String, ◌≡◌, refl, ◌≢◌, [], Option, none, some}
use ksql.Prelude.Result.{Result, ok, err, panic, msg, wrap}
use ksql.Prelude.Action.{Action, ◌>>=◌, lift, continue}
use ksql.Reflect.{Value}
use ksql.World.{World}
use ksql.Db.{Db, exec_statement, wrapping}
use ksql.Db.Write.{Runtime}
use ksql.Db.Write.Refused.{insert-refuses_pointers}
use ksql.Adapters.Pgx.{Pgx}
use ksql.Adapters.Std.{DatabaseSql}
use ksql.Examples.AllAdapters.{
  fatally, closing, insert_and_read, create_and_go_on, open_and_go_on, main, switch, Case,
}

-- A program that comes to no good end.
record Fails {A : Type 0} (m : Action World A) : Type 0 where
  at : (w : World) (a : A) → (m w).0 ≢ ok a

continue-Fails :
    {A B : Type 0} (r : Result A) (k : A → Action World B) (w : World)
    → ((a : A) → Fails (k a))
    → (b : B) → (continue r k w).0 ≢ ok b
continue-Fails (ok a) k w fails b h = (fails a).at w b h
continue-Fails (err e) k w fails b h = absurd (cc h)
continue-Fails (panic p) k w fails b h = absurd (cc h)

bind-Fails :
    {A B : Type 0} (m : Action World A) (k : A → Action World B)
    → ((a : A) → Fails (k a))
    → Fails (m >>= k)
bind-Fails m k fails = record { at = λ w. continue-Fails (m w).0 k (m w).1 fails }

module _ (rt : Runtime) where
  refused :
      (db : Db) (w : World)
      → insert_and_read rt db w ≡ (
        err (wrap "error inserting user" (msg "ksql: expected record to be a pointer to struct")),
        w,
      )
  unfolding insert_and_read fatally wrapping
  refused db w = rw (insert-refuses_pointers db rt _ _ w) refl

  insert_and_read-Fails : (db : Db) → Fails (insert_and_read rt db)
  insert_and_read-Fails db = record { at = λ w a h. absurd (cc (refused db w, h)) }

  open_and_go_on-Fails :
      (unset : Db) (chosen : Option Case) → Fails (open_and_go_on rt unset chosen)
  unfolding open_and_go_on create_and_go_on closing
  open_and_go_on-Fails unset none = insert_and_read-Fails unset
  open_and_go_on-Fails unset (some chosen) =
      bind-Fails (fatally chosen.refusal (lift chosen.opened)) _ (λ db. record {
        at =
            (bind-Fails
              (fatally "unable to create users table" (exec_statement db chosen.create []))
              (λ _. insert_and_read rt db) (λ _. insert_and_read-Fails db)).at;
      })

module _ (pgx : Pgx) (sql : DatabaseSql) (unset : Db) (rt : Runtime) (env : String) where
  -- The program of examples/all_adapters never comes to its last lines, whatever the environment
  -- names and the driver answers: it gives Insert the address of a pointer.
  pub main-fails : (w : World) (users : Value × Value) → (main pgx sql unset rt env w).0 ≢ ok users
  unfolding main
  main-fails = (open_and_go_on-Fails rt unset (switch pgx sql env)).at
