-- ===== src/Db/Chunks/Keeping.antt =====
-- QueryChunks keeps the invariant, if its callback does.
use ksql.Prelude.{ℕ, suc, Bool, Option, none, some, List, [], ◌∷◌, set}
use ksql.Prelude.Result.{Error}
use ksql.Prelude.Action.{Action, lift}
use ksql.Reflect.{GoType, Value, ref}
use ksql.World.{World, Log, chunk, emit}
use ksql.World.Preserves.{Preserves, bind-Preserves, lift-Preserves}
use ksql.Structs.Func.{parse_input_func}
use ksql.Structs.Tags.{decode_as_slice_of_structs}
use ksql.Db.Scanning.{scan_rows}
use ksql.Db.{Db, Rows, query_context}
use ksql.Db.Invariant.{
  Holds, tagged-Preserves, relogged-IsSound, query_context-Preserves, deferring_close-Preserves,
  holding_rules,
}
use ksql.Db.Scanning.Keeping.{scan_rows-Preserves}
use ksql.Db.Query.{complete_query, grown, element_at}
use ksql.Db.Query.Keeping.{complete_query-Preserves}
use ksql.Db.Chunks.{
  Callback, ChunkParser, deliver, LoopEnd, finished, aborted, after_scan, chunk_loop, finish,
  read_chunks, run_callback, query_chunks, capacity, type_of_callback,
}

module _ (begins : Log → Option Error) (n : Option ℕ) where
  abbrev I : World → Type 0
  I = Holds begins n

  -- A callback that keeps the invariant in each call.
  abbrev pub Keeps : Callback → Type 0
  Keeps f = (items : List Value) → Preserves I (f.call items)

  abbrev pub KeepsIfGiven : Option Callback → Type 0
  KeepsIfGiven none = Unit
  KeepsIfGiven (some f) = Keeps f

  module _ (f : Callback) (keeps : Keeps f) where
    deliver-Preserves : (items : List Value) → Preserves I (deliver f items)
    unfolding deliver
    deliver-Preserves items = record {
      at = λ w h.
          (keeps items).at (emit (chunk items) w)
            (relogged-IsSound begins n (chunk items) w h.0, h.1);
    }

    after_scan-Preserves :
        (size idx : ℕ) (items : List Value) (next restart : List Value → Action World LoopEnd)
        → ((vs : List Value) → Preserves I (next vs))
        → ((vs : List Value) → Preserves I (restart vs))
        → Preserves I (after_scan size f idx items next restart)
    unfolding after_scan
    after_scan-Preserves size idx items next restart pn pr =
        search (holding_rules, deliver-Preserves)

    module _ (c : Db) (rows : Rows) (t : GoType) (ptrs : Bool) (size : ℕ) where
      chunk_loop-Preserves :
          (idx : ℕ) (rs : List (List Value)) (items : List Value)
          → Preserves I (chunk_loop c rows t ptrs size f idx rs items)
      unfolding chunk_loop
      chunk_loop-Preserves idx [] items = lift-Preserves _
      chunk_loop-Preserves idx (row ∷ more) items =
          bind-Preserves (scan_rows c rows row (ref (element_at (grown t ptrs idx items) idx))) _
            (scan_rows-Preserves begins n c rows row _)
            (λ v.
              after_scan-Preserves size idx (set (grown t ptrs idx items) idx v) _ _
                (λ vs. chunk_loop-Preserves (suc idx) more vs)
                (λ vs. chunk_loop-Preserves 0 more vs))

      finish-Preserves : (end : LoopEnd) → Preserves I (finish rows f end)
      unfolding finish
      finish-Preserves aborted = lift-Preserves _
      finish-Preserves (finished idx items) = search (holding_rules, deliver-Preserves)

      read_chunks-Preserves : Preserves I (read_chunks c rows t ptrs size f)
      unfolding read_chunks
      read_chunks-Preserves = search (holding_rules, chunk_loop-Preserves, finish-Preserves)

  run_callback-Preserves :
      (o : Option Callback) (k : Callback → Action World (Unit {0}))
      → KeepsIfGiven o
      → ((f : Callback) → Keeps f → Preserves I (k f))
      → Preserves I (run_callback o k)
  unfolding run_callback
  run_callback-Preserves none k given pk = lift-Preserves _
  run_callback-Preserves (some f) k given pk = pk f given

  pub query_chunks-Preserves :
      (c : Db) (parser : ChunkParser)
      → KeepsIfGiven parser.for_each_chunk
      → Preserves I (query_chunks c parser)
  unfolding query_chunks
  query_chunks-Preserves c parser keeps =
      bind-Preserves (lift (parse_input_func (type_of_callback parser.for_each_chunk))) _
        (lift-Preserves _)
        (λ chunk_type.
          bind-Preserves (lift (capacity parser.chunk_size)) _ (lift-Preserves _) (λ size.
            bind-Preserves (lift (decode_as_slice_of_structs chunk_type)) _ (lift-Preserves _)
              (λ decoded. tagged-Preserves begins n decoded.0 _ (λ info read.
                bind-Preserves (complete_query c decoded.0 info parser.query) _
                  (complete_query-Preserves begins n c decoded.0 info parser.query read)
                  (λ complete.
                    bind-Preserves (query_context c complete parser.params) _
                      (query_context-Preserves begins n c complete parser.params)
                      (λ rows. deferring_close-Preserves begins n _ (
                        run_callback-Preserves parser.for_each_chunk _ keeps (λ f kept.
                          read_chunks-Preserves f kept c rows decoded.0 decoded.1 size))))))))
