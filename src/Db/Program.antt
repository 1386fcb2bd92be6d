-- ===== src/Db/Program.antt =====
-- Code that uses a client, as the methods of the interface Provider of contracts.go let it: each
-- call's outcome decides what comes next, errors and panics included.
pub mod Laws
pub mod Closing
use ksql.Prelude.{String, some, List}
use ksql.Prelude.Result.{Result}
use ksql.Prelude.Action.{Action, lift}
use ksql.Reflect.{GoType, Value}
use ksql.World.{World}
use ksql.Table.{Table}
use ksql.Db.{Db, Int64, ExecResult, exec_statement}
use ksql.Db.Query.{query, query_one}
use ksql.Db.Chunks.{Callback, ChunkParser, query_chunks}
use ksql.Db.Write.{Runtime, insert, patch, delete}
use ksql.Db.Transaction.{transaction}

pub data Program : Type 0 where
  -- the end: no error, an error or a panic of the code itself
  stop : Result (Unit {0}) → Program
  querying querying_one : Value → String → List Value → (Result Value → Program) → Program
  -- the type of the callback, and what a call of it does
  chunking :
      String
      → List Value
      → Int64
      → GoType
      → (List Value → Program)
      → (Result (Unit {0}) → Program)
      → Program
  inserting : Table → Value → (Result Value → Program) → Program
  patching deleting : Table → Value → (Result (Unit {0}) → Program) → Program
  executing : String → List Value → (Result ExecResult → Program) → Program
  transacting : Program → (Result (Unit {0}) → Program) → Program

-- A call whose outcome goes to what comes next.
unfoldable pub handing_on :
    {A B : Type 0} → Action World A → (Result A → Action World B) → Action World B
handing_on m k w = let (r, w') = m w in k r w'

pub run : Runtime → Program → Db → Action World (Unit {0})
run rt (stop r) c = lift r
run rt (querying v sql params next) c = handing_on (query c v sql params) (λ r. run rt (next r) c)
run rt (querying_one v sql params next) c =
    handing_on (query_one c v sql params) (λ r. run rt (next r) c)
run rt (chunking sql params size type each next) c =
    handing_on
      (query_chunks c (record {
        query = sql;
        params = params;
        chunk_size = size;
        for_each_chunk = some (record { type = type; call = λ items. run rt (each items) c });
      }))
      (λ r. run rt (next r) c)
run rt (inserting table v next) c = handing_on (insert c rt table v) (λ r. run rt (next r) c)
run rt (patching table v next) c = handing_on (patch c rt table v) (λ r. run rt (next r) c)
run rt (deleting table v next) c = handing_on (delete c table v) (λ r. run rt (next r) c)
run rt (executing sql params next) c =
    handing_on (exec_statement c sql params) (λ r. run rt (next r) c)
run rt (transacting body next) c =
    handing_on (transaction c (λ d. run rt body d)) (λ r. run rt (next r) c)
