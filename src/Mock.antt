-- ===== src/Mock.antt =====
-- mocks.go: a Provider made of functions, and the result of a mocked Exec. The type of the providers
-- that a transaction hands on is the parameter `P`, and `as_provider` turns a Mock into one.
pub mod Laws
use ksql.Prelude.{String, Option, none, some, List}
use ksql.Prelude.Result.{Result, ok, err, panic}
use ksql.Prelude.Action.{Action, lift}
use ksql.Reflect.{Value}
use ksql.World.{World}
use ksql.Table.{Table}
use ksql.Db.{Int64, ExecResult}
use ksql.Db.Chunks.{ChunkParser}

-- The types of the methods: what a call leaves in the record or the slice that it fills is its
-- value.
abbrev pub Filling : Type 0
Filling = Table → Value → Action World Value

abbrev pub Writing : Type 0
Writing = Table → Value → Action World (Unit {0})

abbrev pub Reading : Type 0
Reading = Value → String → List Value → Action World Value

abbrev pub InChunks : Type 0
InChunks = ChunkParser → Action World (Unit {0})

abbrev pub Executing : Type 0
Executing = String → List Value → Action World ExecResult

abbrev pub Transacting : Type 0 → Type 0
Transacting P = (P → Action World (Unit {0})) → Action World (Unit {0})

-- The interface Provider of contracts.go.
pub record Provider (P : Type 0) : Type 0 where
  pub insert : Filling
  pub patch : Writing
  pub delete : Writing
  pub update : Writing
  pub query : Reading
  pub query_one : Reading
  pub query_chunks : InChunks
  pub exec : Executing
  pub transaction : Transacting P

pub record Mock (P : Type 0) : Type 0 where
  pub insert_fn : Option Filling
  pub patch_fn : Option Writing
  pub delete_fn : Option Writing
  pub update_fn : Option Writing
  pub query_fn : Option Reading
  pub query_one_fn : Option Reading
  pub query_chunks_fn : Option InChunks
  pub exec_fn : Option Executing
  pub transaction_fn : Option (Transacting P)

-- `if m.F == nil { m.F = f }`
or_fallback : {F : Type 0} → Option F → F → Option F
or_fallback none f = some f
or_fallback (some g) f = some g

-- `if m.F == nil { … }; return m.F(…)`
called : {F : Type 0} → F → Option F → F
called missing none = missing
called missing (some f) = f

abbrev not_set : {A : Type 0} → String → Action World A
not_set call = lift (panic call)

module _ {P : Type 0} where
  pub set_fallback_database : Mock P → Provider P → Mock P
  unfolding or_fallback
  set_fallback_database m db = record {
    insert_fn = or_fallback m.insert_fn db.insert;
    patch_fn = or_fallback m.patch_fn db.patch;
    delete_fn = or_fallback m.delete_fn db.delete;
    update_fn = or_fallback m.update_fn db.update;
    query_fn = or_fallback m.query_fn db.query;
    query_one_fn = or_fallback m.query_one_fn db.query_one;
    query_chunks_fn = or_fallback m.query_chunks_fn db.query_chunks;
    exec_fn = or_fallback m.exec_fn db.exec;
    transaction_fn = or_fallback m.transaction_fn db.transaction;
  }

  insert : Mock P → Filling
  unfolding called
  insert m = called (λ table record_. not_set "ksql.Mock.InsertFn() is not set") m.insert_fn

  patch : Mock P → Writing
  unfolding called
  patch m = called (λ table record_. not_set "ksql.Mock.PatchFn() is not set") m.patch_fn

  delete : Mock P → Writing
  unfolding called
  delete m = called (λ table id_or_record. not_set "ksql.Mock.DeleteFn() is not set") m.delete_fn

  update : Mock P → Writing
  unfolding called
  update m = called (λ table record_. not_set "ksql.Mock.UpdateFn() is not set") m.update_fn

  query : Mock P → Reading
  unfolding called
  query m = called (λ records text params. not_set "ksql.Mock.QueryFn() is not set") m.query_fn

  query_one : Mock P → Reading
  unfolding called
  query_one m =
      called (λ record_ text params. not_set "ksql.Mock.QueryOneFn() is not set") m.query_one_fn

  query_chunks : Mock P → InChunks
  unfolding called
  query_chunks m =
      called (λ parser. not_set "ksql.Mock.QueryChunksFn() is not set") m.query_chunks_fn

  exec : Mock P → Executing
  unfolding called
  exec m = called (λ text params. not_set "ksql.Mock.ExecFn() is not set") m.exec_fn

  -- The Mock itself is the provider of a transaction that is not mocked.
  transaction : (Mock P → P) → Mock P → Transacting P
  unfolding called
  transaction as_provider m = called (λ fn. fn (as_provider m)) m.transaction_fn

  -- The Provider that a Mock is.
  pub provider : (Mock P → P) → Mock P → Provider P
  unfolding insert patch delete update query query_one query_chunks exec transaction
  provider as_provider m = record {
    insert = insert m;
    patch = patch m;
    delete = delete m;
    update = update m;
    query = query m;
    query_one = query_one m;
    query_chunks = query_chunks m;
    exec = exec m;
    transaction = transaction as_provider m;
  }

pub record MockResult : Type 0 where
  pub last_insert_id_fn : Option (Result Int64)
  pub rows_affected_fn : Option (Result Int64)

abbrev call_or_panic : String → Option (Result Int64) → Result Int64
call_or_panic call none = panic call
call_or_panic call (some r) = r

pub last_insert_id : MockResult → Result Int64
last_insert_id m = call_or_panic "ksql.MockResult.LastInsertIdFn is not set" m.last_insert_id_fn

pub rows_affected : MockResult → Result Int64
rows_affected m = call_or_panic "ksql.MockResult.RowsAffectedFn is not set" m.rows_affected_fn

-- The Result that a MockResult is.
pub result : MockResult → ExecResult
unfolding last_insert_id rows_affected
result m = record { last_insert_id = last_insert_id m; rows_affected = rows_affected m }

pub new_mock_result : Int64 → Int64 → ExecResult
unfolding result
new_mock_result last_id count =
    result (record { last_insert_id_fn = some (ok last_id); rows_affected_fn = some (ok count) })
