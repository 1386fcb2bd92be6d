-- ===== src/Db/Program/Laws.antt =====
-- What holds after any code that uses a client.
use ksql.Prelude.{ℕ, ◌≡◌, refl, Option}
use ksql.Prelude.Result.{Result, Error}
use ksql.Prelude.Action.{Action}
use ksql.World.{World, Log}
use ksql.World.Preserves.{Preserves}
use ksql.Sql.Select.Sound.{IsSound}
use ksql.Db.{Db, exec_statement}
use ksql.Db.Invariant.{open_transactions, Holds, exec_context-Preserves}
use ksql.Db.Query.Keeping.{query-Preserves, query_one-Preserves}
use ksql.Db.Chunks.Keeping.{query_chunks-Preserves}
use ksql.Db.Write.{Runtime}
use ksql.Db.Write.Keeping.{insert-Preserves, patch-Preserves, delete-Preserves}
use ksql.Db.Transaction.Keeping.{transaction-Preserves}
use ksql.Db.Program.{
  Program, stop, querying, querying_one, chunking, inserting, patching, deleting, executing,
  transacting, handing_on, run,
}

handing_on-Preserves :
    {I : World → Type 0} {A B : Type 0} (m : Action World A) (k : Result A → Action World B)
    → Preserves I m
    → ((r : Result A) → Preserves I (k r))
    → Preserves I (handing_on m k)
unfolding handing_on
handing_on-Preserves m k pm pk = record { at = λ w h. (pk (m w).0).at (m w).1 (pm.at w h) }

module _ (begins : Log → Option Error) (rt : Runtime) where
  run-Preserves :
      (p : Program) (c : Db) (n : Option ℕ)
      → c.db.begin_tx ≡ begins
      → Preserves (Holds begins n) (run rt p c)
  unfolding run exec_statement
  run-Preserves (stop r) c n same = record { at = λ w h. h }
  run-Preserves (querying v sql params next) c n same =
      handing_on-Preserves _ _ (query-Preserves begins n c sql params v)
        (λ r. run-Preserves (next r) c n same)
  run-Preserves (querying_one v sql params next) c n same =
      handing_on-Preserves _ _ (query_one-Preserves begins n c sql params v)
        (λ r. run-Preserves (next r) c n same)
  run-Preserves (chunking sql params size type each next) c n same =
      handing_on-Preserves _ _
        (query_chunks-Preserves begins n c _ (λ items. run-Preserves (each items) c n same))
        (λ r. run-Preserves (next r) c n same)
  run-Preserves (inserting table v next) c n same =
      handing_on-Preserves _ _ (insert-Preserves begins n c rt table v)
        (λ r. run-Preserves (next r) c n same)
  run-Preserves (patching table v next) c n same =
      handing_on-Preserves _ _ (patch-Preserves begins n c rt table v)
        (λ r. run-Preserves (next r) c n same)
  run-Preserves (deleting table v next) c n same =
      handing_on-Preserves _ _ (delete-Preserves begins n c rt table v)
        (λ r. run-Preserves (next r) c n same)
  run-Preserves (executing sql params next) c n same =
      handing_on-Preserves _ _ (exec_context-Preserves begins n c sql params)
        (λ r. run-Preserves (next r) c n same)
  run-Preserves (transacting body next) c n same =
      handing_on-Preserves _ _
        (transaction-Preserves begins c _ same (λ d same' m. run-Preserves body d m same') n)
        (λ r. run-Preserves (next r) c n same)

module _ (rt : Runtime) (p : Program) (c : Db) (w : World) (sound : IsSound w) where
  -- Any code made of the client's calls, with callbacks and transactions inside and each outcome
  -- deciding what comes next, leaves the two caches with only what is true of the types, if they
  -- had nothing else before.
  pub run-IsSound : IsSound (run rt p c w).1
  run-IsSound = ((run-Preserves c.db.begin_tx rt p c _ refl).at w (sound, refl)).0

  -- Over sound caches, any code made of the client's calls leaves as many transactions open as it
  -- found: each one that began has had its own commit or rollback, none is ended when none is
  -- open, also after errors and panics and when transactions are asked for inside transactions.
  pub run-open_transactions :
      open_transactions c.db.begin_tx (run rt p c w).1.log ≡ open_transactions c.db.begin_tx w.log
  run-open_transactions = ((run-Preserves c.db.begin_tx rt p c _ refl).at w (sound, refl)).1
