-- ===== src/Db/Chunks/Closing.antt =====
-- QueryChunks leaves as many rows open as it finds, if its callback does.
use ksql.Prelude.{ℕ, suc, Bool, Option, none, some, List, [], ◌∷◌, set}
use ksql.Prelude.Action.{Action, lift}
use ksql.Reflect.{GoType, Value, ref}
use ksql.World.{World, chunk, emit, get_tag_info}
use ksql.World.Quiet.{get_tag_info-IsQuiet}
use ksql.Structs.Func.{parse_input_func}
use ksql.Structs.Tags.{decode_as_slice_of_structs}
use ksql.Db.{Db, Rows}
use ksql.Db.Closing.{Shuts, IsQuiet-Shuts, lift-Shuts, bind-Shuts, query_context-Shuts, shut_rules}
use ksql.Db.Scanning.Quiet.{scan_rows-IsQuiet}
use ksql.Db.Scanning.{scan_rows}
use ksql.Db.Query.{complete_query, grown, element_at}
use ksql.Db.Query.Closing.{complete_query-IsQuiet}
use ksql.Db.Chunks.{
  Callback, ChunkParser, deliver, LoopEnd, finished, aborted, after_scan, chunk_loop, finish,
  read_chunks, run_callback, query_chunks, capacity, type_of_callback,
}

module _ (c : Db) where
  -- A callback that leaves as many rows open as it finds in each call.
  abbrev pub ShutsEach : Callback → Type 0
  ShutsEach f = (items : List Value) → Shuts c (f.call items)

  abbrev pub ShutsIfGiven : Option Callback → Type 0
  ShutsIfGiven none = Unit
  ShutsIfGiven (some f) = ShutsEach f

  module _ (f : Callback) (shuts : ShutsEach f) where
    deliver-Shuts : (items : List Value) → Shuts c (deliver f items)
    unfolding deliver
    deliver-Shuts items = record { at = λ w. (shuts items).at (emit (chunk items) w) }

    after_scan-Shuts :
        (size idx : ℕ) (items : List Value) (next restart : List Value → Action World LoopEnd)
        → ((vs : List Value) → Shuts c (next vs))
        → ((vs : List Value) → Shuts c (restart vs))
        → Shuts c (after_scan size f idx items next restart)
    unfolding after_scan
    after_scan-Shuts size idx items next restart pn pr = search (shut_rules, deliver-Shuts)

    module _ (rows : Rows) (t : GoType) (ptrs : Bool) (size : ℕ) where
      chunk_loop-Shuts :
          (idx : ℕ) (rs : List (List Value)) (items : List Value)
          → Shuts c (chunk_loop c rows t ptrs size f idx rs items)
      unfolding chunk_loop
      chunk_loop-Shuts idx [] items = lift-Shuts _
      chunk_loop-Shuts idx (row ∷ more) items =
          bind-Shuts (scan_rows c rows row (ref (element_at (grown t ptrs idx items) idx))) _
            (IsQuiet-Shuts _ (scan_rows-IsQuiet c rows row _))
            (λ v.
              after_scan-Shuts size idx (set (grown t ptrs idx items) idx v) _ _
                (λ vs. chunk_loop-Shuts (suc idx) more vs) (λ vs. chunk_loop-Shuts 0 more vs))

      finish-Shuts : (end : LoopEnd) → Shuts c (finish rows f end)
      unfolding finish
      finish-Shuts aborted = lift-Shuts _
      finish-Shuts (finished idx items) = search (shut_rules, deliver-Shuts)

      read_chunks-Shuts : Shuts c (read_chunks c rows t ptrs size f)
      unfolding read_chunks
      read_chunks-Shuts = search (shut_rules, chunk_loop-Shuts, finish-Shuts)

  run_callback-Shuts :
      (o : Option Callback) (k : Callback → Action World (Unit {0}))
      → ShutsIfGiven o
      → ((f : Callback) → ShutsEach f → Shuts c (k f))
      → Shuts c (run_callback o k)
  unfolding run_callback
  run_callback-Shuts none k given pk = lift-Shuts _
  run_callback-Shuts (some f) k given pk = pk f given

  pub query_chunks-Shuts :
      (parser : ChunkParser) → ShutsIfGiven parser.for_each_chunk → Shuts c (query_chunks c parser)
  unfolding query_chunks
  query_chunks-Shuts parser shuts =
      bind-Shuts (lift (parse_input_func (type_of_callback parser.for_each_chunk))) _ (lift-Shuts _)
        (λ chunk_type. bind-Shuts (lift (capacity parser.chunk_size)) _ (lift-Shuts _) (λ size.
          bind-Shuts (lift (decode_as_slice_of_structs chunk_type)) _ (lift-Shuts _) (λ decoded.
            bind-Shuts (get_tag_info decoded.0) _ (IsQuiet-Shuts _ (get_tag_info-IsQuiet decoded.0))
              (λ info.
                bind-Shuts (complete_query c decoded.0 info parser.query) _
                  (IsQuiet-Shuts _ (complete_query-IsQuiet c decoded.0 info parser.query))
                  (λ complete. query_context-Shuts c complete parser.params _ (λ rows.
                    run_callback-Shuts parser.for_each_chunk _ shuts
                      (λ f kept. read_chunks-Shuts f kept rows decoded.0 decoded.1 size)))))))
