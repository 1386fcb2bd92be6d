-- ===== src/Db/Program/Closing.antt =====
-- Any code that uses a client leaves as many rows open as it finds.
use ksql.Prelude.{◌≡◌, ◌∙◌}
use ksql.Prelude.Result.{Result}
use ksql.Prelude.Action.{Action}
use ksql.World.{World}
use ksql.Db.{Db, exec_statement}
use ksql.Db.Closing.{Shuts, open_rows, lift-Shuts, exec_context-Shuts}
use ksql.Db.Query.Closing.{query-Shuts, query_one-Shuts}
use ksql.Db.Chunks.Closing.{query_chunks-Shuts}
use ksql.Db.Write.{Runtime}
use ksql.Db.Write.Closing.{insert-Shuts, patch-Shuts, delete-Shuts}
use ksql.Db.Transaction.{in_transaction}
use ksql.Db.Transaction.Closing.{transaction-Shuts}
use ksql.Db.Program.{
  Program, stop, querying, querying_one, chunking, inserting, patching, deleting, executing,
  transacting, handing_on, run,
}

handing_on-Shuts :
    {c : Db} {A B : Type 0} (m : Action World A) (k : Result A → Action World B)
    → Shuts c m
    → ((r : Result A) → Shuts c (k r))
    → Shuts c (handing_on m k)
unfolding handing_on
handing_on-Shuts m k pm pk = record { at = λ w. (pk (m w).0).at (m w).1 ∙ pm.at w }

module _ (rt : Runtime) where
  run-Shuts : (p : Program) (c : Db) → Shuts c (run rt p c)
  unfolding run exec_statement
  run-Shuts (stop r) c = lift-Shuts r
  run-Shuts (querying v sql params next) c =
      handing_on-Shuts _ _ (query-Shuts c sql params v) (λ r. run-Shuts (next r) c)
  run-Shuts (querying_one v sql params next) c =
      handing_on-Shuts _ _ (query_one-Shuts c sql params v) (λ r. run-Shuts (next r) c)
  run-Shuts (chunking sql params size type each next) c =
      handing_on-Shuts _ _ (query_chunks-Shuts c _ (λ items. run-Shuts (each items) c))
        (λ r. run-Shuts (next r) c)
  run-Shuts (inserting table v next) c =
      handing_on-Shuts _ _ (insert-Shuts c rt table v) (λ r. run-Shuts (next r) c)
  run-Shuts (patching table v next) c =
      handing_on-Shuts _ _ (patch-Shuts c rt table v) (λ r. run-Shuts (next r) c)
  run-Shuts (deleting table v next) c =
      handing_on-Shuts _ _ (delete-Shuts c rt table v) (λ r. run-Shuts (next r) c)
  run-Shuts (executing sql params next) c =
      handing_on-Shuts _ _ (exec_context-Shuts c sql params) (λ r. run-Shuts (next r) c)
  run-Shuts (transacting body next) c =
      handing_on-Shuts _ _
        (transaction-Shuts c _ (run-Shuts body (in_transaction c)) (run-Shuts body c))
        (λ r. run-Shuts (next r) c)

  -- Any code made of the client's calls, with callbacks and transactions inside and each outcome
  -- deciding what comes next, leaves as many rows of the driver open as it found, where each query
  -- that the driver answers with rows opens some and each deferred Close ends some, also after
  -- errors and panics and for queries made while other rows are read; if no deferred Close had run
  -- with no rows open, none has.
  pub run-open_rows :
      (p : Program) (c : Db) (w : World) → open_rows c (run rt p c w).1.log ≡ open_rows c w.log
  run-open_rows p c w = (run-Shuts p c).at w
