-- ===== src/Db/Chunks.antt =====
-- QueryChunks of ksql.go.
pub mod Closing
pub mod Keeping
pub mod Pieces
pub mod Laws
pub mod Whole
pub mod Stopping
pub mod Ending
use ksql.Prelude.{
  ℕ, zero, suc, String, Option, none, some, Bool, true, false, List, [], ◌∷◌, length, set, take,
  ltb, if◌then◌else◌,
}
use ksql.Prelude.Result.{
  Result, ok, err, panic, Error, msg, record_not_found, abort_iteration, external, wrap,
}
use ksql.Prelude.Action.{Action, pure, raise, lift, ◌>>=◌}
use ksql.Reflect.{GoType, Value, ref}
use ksql.Structs.Func.{parse_input_func}
use ksql.Structs.Tags.{decode_as_slice_of_structs}
use ksql.World.{World, Event, chunk, emit, get_tag_info}
use ksql.Db.{Db, Rows, Int64, pos, negsuc, query_context, close, deferring_close, or_fail}
use ksql.Db.Scanning.{scan_rows}
use ksql.Db.Query.{complete_query, grown, element_at}

-- The function ForEachChunk: its type, and what a call does. Its error value is the outcome.
pub record Callback : Type 0 where
  pub type : GoType
  pub call : List Value → Action World (Unit {0})

pub record ChunkParser : Type 0 where
  pub query : String
  pub params : List Value
  pub chunk_size : Int64
  pub for_each_chunk : Option Callback

-- The error of a call is the result, but ErrAbortIteration stops the iteration with no error.
pub go_on : Result (Unit {0}) → Result Bool
go_on (ok _) = ok true
go_on (err abort_iteration) = ok false
go_on (err e) = err e
go_on (panic p) = panic p

pub deliver : Callback → List Value → Action World Bool
unfolding go_on
deliver f items w = let (r, w') = f.call items (emit (chunk items) w) in (go_on r, w')

-- How the loop ends: after the last row, with the index and the chunk, or by an abort.
pub data LoopEnd : Type 0 where
  finished : ℕ → List Value → LoopEnd
  aborted : LoopEnd

-- The rest of a round, once the row is in the chunk: the next row, or a call of ForEachChunk that
-- starts the chunk again.
pub after_scan :
    ℕ
    → Callback
    → ℕ
    → List Value
    → (List Value → Action World LoopEnd)
    → (List Value → Action World LoopEnd)
    → Action World LoopEnd
after_scan size f idx items next restart =
    if ltb (suc idx) size
    then next items
    else (deliver f items >>= λ continues. if continues then restart items else pure aborted)

pub chunk_loop :
    Db
    → Rows
    → GoType
    → Bool
    → ℕ
    → Callback
    → ℕ
    → List (List Value)
    → List Value
    → Action World LoopEnd
chunk_loop c rows t ptrs size f idx [] items = pure (finished idx items)
chunk_loop c rows t ptrs size f idx (row ∷ more) items = do
  v ← scan_rows c rows row (ref (element_at (grown t ptrs idx items) idx))
  after_scan size f idx (set (grown t ptrs idx items) idx v)
      (chunk_loop c rows t ptrs size f (suc idx) more) (chunk_loop c rows t ptrs size f 0 more)

-- What follows the loop.
pub finish : Rows → Callback → LoopEnd → Action World (Unit {0})
finish rows f aborted = pure tt
finish rows f (finished idx items) = do
  _ ← close rows
  _ ← lift (or_fail rows.failure)
  if ltb 0 idx then (do _ ← deliver f (take idx items); pure tt) else pure tt

pub read_chunks : Db → Rows → GoType → Bool → ℕ → Callback → Action World (Unit {0})
read_chunks c rows t ptrs size f = do
  end ← chunk_loop c rows t ptrs size f 0 rows.rows []
  finish rows f end

-- The capacity of `reflect.MakeSlice`.
abbrev capacity : Int64 → Result ℕ
capacity (pos n) = ok n
capacity (negsuc n) = panic "reflect.MakeSlice: negative cap"

abbrev type_of_callback : Option Callback → Option GoType
type_of_callback none = none
type_of_callback (some f) = some f.type

-- ParseInputFunc has refused a callback that is nil.
run_callback : Option Callback → (Callback → Action World (Unit {0})) → Action World (Unit {0})
run_callback none k = pure tt
run_callback (some f) k = k f

pub query_chunks : Db → ChunkParser → Action World (Unit {0})
unfolding read_chunks run_callback
query_chunks c parser = do
  chunk_type ← lift (parse_input_func (type_of_callback parser.for_each_chunk))
  size ← lift (capacity parser.chunk_size)
  decoded ← lift (decode_as_slice_of_structs chunk_type)
  info ← get_tag_info decoded.0
  complete ← complete_query c decoded.0 info parser.query
  rows ← query_context c complete parser.params
  deferring_close
      (run_callback parser.for_each_chunk λ f. read_chunks c rows decoded.0 decoded.1 size f)
