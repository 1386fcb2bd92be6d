-- ===== src/Db/Chunks/Whole.antt =====
-- QueryChunks from its arguments to the chunks that it delivers.
use ksql.Prelude.{ℕ, max, ◌≡◌, refl, ap, ◌∙◌, false, none, some, String, List, map}
use ksql.Prelude.Result.{Result, ok}
use ksql.Prelude.Action.{lift, bind-ok}
use ksql.Reflect.{Fields, slice, struct, Value}
use ksql.Structs.Info.{StructInfo}
use ksql.Structs.Tags.{get_tag_names, decode_as_slice_of_structs}
use ksql.Structs.Func.{parse_input_func}
use ksql.World.{World, get_tag_info, query, emit}
use ksql.World.Laws.{get_tag_info-eq-get_tag_names, get_tag_info-OnlyTags}
use ksql.Sql.Select.Sound.{IsSound, OnlyTags-IsSound}
use ksql.Db.{Db, Rows, pos, query_context, deferring_close}
use ksql.Db.Scanning.Laws.{decode}
use ksql.Db.Query.{complete_query, new_element}
use ksql.Db.Query.Closing.{complete_query-IsQuiet}
use ksql.Db.Query.Keeping.{complete_query-Preserves}
use ksql.Db.Query.Meaning.{statement_for, complete_query-returns}
use ksql.Db.Chunks.{Callback, ChunkParser, read_chunks, run_callback, query_chunks}
use ksql.Db.Chunks.Laws.{read_chunks-delivers}
use ksql.Db.Chunks.Pieces.{delivered, Sized}
use mathlib.Core.List.{◌++◌, flatten}

module _ (c : Db) (n : String) (fs : Fields) (sql : String) (params : List Value) (size : ℕ)
    (f : Callback) (typed : parse_input_func (some f.type) ≡ ok (slice (struct n fs))) where
  abbrev pub parser : ChunkParser
  parser = record { query = sql; params = params; chunk_size = pos size; for_each_chunk = some f }

  module _ (info : StructInfo) (read : get_tag_names (struct n fs) ≡ ok info) (complete : String)
      (states : statement_for c (struct n fs) info sql ≡ ok complete) (rows : Rows) (w : World)
      (sound : IsSound w) (answers : c.db.query_context w.log complete params ≡ ok rows) where
    tagged : World
    tagged = (get_tag_info (struct n fs) w).1

    completed : World
    unfolding tagged
    completed = (complete_query c (struct n fs) info sql tagged).1

    tagged-IsSound : IsSound tagged
    unfolding tagged
    tagged-IsSound = OnlyTags-IsSound (get_tag_info-OnlyTags (struct n fs) w sound.tags) sound

    completed-IsSound : IsSound completed
    unfolding completed
    completed-IsSound =
        ((complete_query-Preserves c.db.begin_tx _ c (struct n fs) info sql read).at tagged
          (tagged-IsSound, refl)).0

    same_log : completed.log ≡ w.log
    unfolding completed tagged
    same_log =
        (complete_query-IsQuiet c (struct n fs) info sql).at tagged
        ∙ (get_tag_info-OnlyTags (struct n fs) w sound.tags).log

    runs :
        query_chunks c parser w
        ≡ deferring_close
            (read_chunks c rows (struct n fs) false size f)
            (emit (query complete params) completed)
    unfolding query_chunks decode_as_slice_of_structs run_callback completed tagged query_context
    runs =
        bind-ok (lift (parse_input_func (some f.type))) _ w typed
        ∙ bind-ok (get_tag_info (struct n fs)) _ w
            (get_tag_info-eq-get_tag_names (struct n fs) w sound.tags ∙ read)
        ∙ bind-ok (complete_query c (struct n fs) info sql) _ tagged
            (complete_query-returns c (struct n fs) sql info tagged read tagged-IsSound ∙ states)
        ∙ bind-ok (query_context c complete params) _ completed
            (ap (λ l. c.db.query_context l complete params) same_log ∙ answers)

    module _ (value : List Value → Value) (IsRecord : Value → Type 0)
        (new-IsRecord : IsRecord (new_element (struct n fs) false))
        (value-IsRecord : (row : List Value) → IsRecord (value row))
        (reads : (row : List Value) (u : Value) → IsRecord u → decode c rows row u ≡ ok (value row))
        (continues : (vs : List Value) (v : World) → f.call vs v ≡ (ok tt, v))
        (whole : rows.failure ≡ none) (closes : rows.close_failure ≡ none) where
      -- Over sound caches, for a callback of one slice of structs that never fails, a statement
      -- that the driver answers with rows, a scan that turns every record into the value of its
      -- row, and rows that end and close with no error, QueryChunks returns no error, and the
      -- chunks that it delivers, put together, are the values of all the rows in order; each chunk
      -- but the last has `max 1 size` elements, and the last is not empty and has no more.
      pub query_chunks-delivers :
          (sent : List (List Value)) × ((query_chunks c parser w).0 ≡ ok tt)
          × (delivered (query_chunks c parser w).1.log ≡ delivered w.log ++ sent)
          × (flatten sent ≡ map value rows.rows)
          × Sized (max 1 size) sent
      unfolding deferring_close
      query_chunks-delivers =
          let d =
            read_chunks-delivers c rows (struct n fs) size f value IsRecord new-IsRecord
              value-IsRecord reads continues whole closes (emit (query complete params) completed)
              completed-IsSound.tags in
          (
            d.0,
            ap (λ (x : Result (Unit {0}) × World). x.0) runs ∙ d.1,
            ap (λ (x : Result (Unit {0}) × World). delivered x.1.log) runs
                ∙ d.2
                ∙ ap (λ l. delivered l ++ d.0) same_log,
            d.3,
            d.4,
          )
