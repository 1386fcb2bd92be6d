-- ===== src/Db/Chunks/Stopping.antt =====
-- QueryChunks whose callback does not let it go on.
use ksql.Prelude.{
  ℕ, suc, String, ◌≡◌, ◌≢◌, ◌⊎◌, inl, inr, refl, ap, Bool, false, some, List, [], ◌∷◌, Bool-cases,
  if◌then◌else◌, ltb, take,
}
use ksql.Prelude.Result.{
  Result, ok, err, panic, msg, record_not_found, abort_iteration, external, wrap,
}
use ksql.Prelude.Action.{Action, pure, lift, ◌>>=◌, continue}
use ksql.Reflect.{GoType, Value}
use ksql.World.{World, Log, chunk, emit, get_tag_info}
use ksql.World.Quiet.{IsQuiet, lift-IsQuiet, get_tag_info-IsQuiet}
use ksql.Db.{Db, Rows, Int64, query_context, close, deferring_close, or_fail}
use ksql.Db.Scanning.{scan_rows}
use ksql.Db.Scanning.Quiet.{scan_rows-IsQuiet}
use ksql.Structs.Func.{parse_input_func}
use ksql.Structs.Tags.{decode_as_slice_of_structs}
use ksql.Db.Query.{complete_query}
use ksql.Db.Query.Closing.{complete_query-IsQuiet}
use ksql.Db.Chunks.{
  Callback, LoopEnd, finished, aborted, go_on, deliver, after_scan, chunk_loop, finish, read_chunks,
  run_callback, query_chunks, capacity,
}

-- How often ForEachChunk was called.
abbrev pub calls : Log → ℕ
calls [] = 0
calls (chunk vs ∷ l) = suc (calls l)
calls (_ ∷ l) = calls l

-- What a call returns whose callback has returned the outcome.
abbrev pub result_of : {A : Type 0} → A → Result (Unit {0}) → Result A
result_of end (ok _) = ok end
result_of end (err abort_iteration) = ok end
result_of end (err e) = err e
result_of end (panic p) = panic p

go_on-refused : (r : Result (Unit {0})) → r ≢ ok tt → go_on r ≡ result_of false r
unfolding go_on
go_on-refused (ok tt) h = absurd (h refl)
go_on-refused (err abort_iteration) h = refl
go_on-refused (err (msg s)) h = refl
go_on-refused (err record_not_found) h = refl
go_on-refused (err (external n)) h = refl
go_on-refused (err (wrap s e)) h = refl
go_on-refused (panic p) h = refl

-- What follows such a result, where nothing is left to do.
continue-result_of :
    {A B : Type 0} (a : A) (b : B) (k : A → Action World B) (r : Result (Unit {0})) (w : World)
    → k a w ≡ (ok b, w)
    → continue (result_of a r) k w ≡ (result_of b r, w)
continue-result_of a b k (ok u) w h = h
continue-result_of a b k (err abort_iteration) w h = h
continue-result_of a b k (err (msg s)) w h = refl
continue-result_of a b k (err record_not_found) w h = refl
continue-result_of a b k (err (external n)) w h = refl
continue-result_of a b k (err (wrap s e)) w h = refl
continue-result_of a b k (panic p) w h = refl

-- A call that calls ForEachChunk not at all, or once, and then returns the result.
record StopsAt {A : Type 0} (m : Action World A) (r : Result A) : Type 0 where
  at :
      (w : World)
      → (calls (m w).1.log ≡ calls w.log)
        ⊎ ((calls (m w).1.log ≡ suc (calls w.log)) × ((m w).0 ≡ r))

module _ {A : Type 0} (r : Result A) where
  pure-StopsAt : (s : Result A) → StopsAt (lift s) r
  pure-StopsAt s = record { at = λ w. inl refl }

module _ {A B : Type 0} (m : Action World A) (k : A → Action World B) (r : Result B)
    (silent : (w : World) → calls (m w).1.log ≡ calls w.log)
    (rest : (a : A) → StopsAt (k a) r) where
  continue_at :
      (s : Result A) (w : World)
      → (calls (continue s k w).1.log ≡ calls w.log)
        ⊎ ((calls (continue s k w).1.log ≡ suc (calls w.log)) × ((continue s k w).0 ≡ r))
  continue_at (ok a) w = (rest a).at w
  continue_at (err e) w = inl refl
  continue_at (panic p) w = inl refl

  -- Nothing is called before the rest.
  bind-StopsAt : StopsAt (m >>= k) r
  bind-StopsAt = record { at = λ w. rw (silent w) at (continue_at (m w).0 (m w).1) }

module _ (c : Db) (rows : Rows) (t : GoType) (ptrs : Bool) (size : ℕ) (f : Callback)
    (r : Result (Unit {0})) (stops : (vs : List Value) (w : World) → f.call vs w ≡ (r, w))
    (refuses : r ≢ ok tt) where
  -- What follows the call of ForEachChunk, where it stops at `false`.
  pub after_call :
      {A : Type 0} (end : A) (k : Bool → Action World A) (w : World)
      → k false w ≡ (ok end, w)
      → continue (go_on r) k w ≡ (result_of end r, w)
  after_call end k w h = rw (go_on-refused r refuses) (continue-result_of false end k r w h)

  after_scan-StopsAt :
      (idx : ℕ) (items : List Value) (next restart : List Value → Action World LoopEnd)
      → StopsAt (next items) (result_of aborted r)
      → StopsAt (after_scan size f idx items next restart) (result_of aborted r)
  unfolding after_scan deliver
  after_scan-StopsAt idx items next restart goes = elim (Bool-cases (ltb (suc idx) size)) [
    | inl room ↦ rw room goes
    | inr full ↦ record {
      at = λ w.
          rw
            (
              full,
              stops items (emit (chunk items) w),
              after_call aborted (λ continues. if continues then restart items else pure aborted)
                  (emit (chunk items) w) refl,
            )
            (inr (refl, refl));
    }
  ]

  chunk_loop-StopsAt :
      (idx : ℕ) (rs : List (List Value)) (items : List Value)
      → StopsAt (chunk_loop c rows t ptrs size f idx rs items) (result_of aborted r)
  unfolding chunk_loop
  chunk_loop-StopsAt idx [] items = pure-StopsAt _ _
  chunk_loop-StopsAt idx (row ∷ rs) items =
      bind-StopsAt (scan_rows c rows row _) _ _
        (λ w. ap calls ((scan_rows-IsQuiet c rows row _).at w))
        (λ v. after_scan-StopsAt idx _ _ _ (chunk_loop-StopsAt (suc idx) rs _))

  last-StopsAt :
      (idx : ℕ) (items : List Value)
      → StopsAt
          (if ltb 0 idx then (deliver f (take idx items) >>= λ _. pure tt) else pure tt)
          (result_of tt r)
  unfolding deliver
  last-StopsAt idx items = elim (Bool-cases (ltb 0 idx)) [
    | inl left ↦ rw left (record {
      at = λ w.
          rw
            (
              stops (take idx items) (emit (chunk (take idx items)) w),
              after_call tt (λ continues. pure tt) (emit (chunk (take idx items)) w) refl,
            )
            (inr (refl, refl));
    })
    | inr none_left ↦ rw none_left (pure-StopsAt _ _)
  ]

  finish-StopsAt : (end : LoopEnd) → StopsAt (finish rows f end) (result_of tt r)
  unfolding finish close
  finish-StopsAt aborted = pure-StopsAt _ _
  finish-StopsAt (finished idx items) =
      bind-StopsAt (close rows) _ _ (λ w. refl)
        (λ _.
          bind-StopsAt (lift (or_fail rows.failure)) _ _ (λ w. refl) (λ _. last-StopsAt idx items))

  finish_after :
      (s : Result LoopEnd) (w : World)
      → (calls (continue s (finish rows f) w).1.log ≡ calls w.log)
        ⊎ ((calls (continue s (finish rows f) w).1.log ≡ suc (calls w.log))
            × ((continue s (finish rows f) w).0 ≡ result_of tt r))
  finish_after (ok end) w = (finish-StopsAt end).at w
  finish_after (err e) w = inl refl
  finish_after (panic p) w = inl refl

  read_chunks-StopsAt : StopsAt (read_chunks c rows t ptrs size f) (result_of tt r)
  unfolding read_chunks finish
  read_chunks-StopsAt = record {
    at = λ w.
        let (s, w') = chunk_loop c rows t ptrs size f 0 rows.rows [] w in
        elim ((chunk_loop-StopsAt 0 rows.rows []).at w) [
          | inl none_yet ↦ rw none_yet at (finish_after s w')
          | inr (once, e) ↦
              rw (e, continue-result_of aborted tt (finish rows f) r w' refl) (inr (once, refl))
        ];
  }

-- The call of QueryChunks with this callback.
abbrev pub call : Db → String → List Value → Int64 → Callback → Action World (Unit {0})
call c sql params size f =
    query_chunks c
      (record { query = sql; params = params; chunk_size = size; for_each_chunk = some f })

module _ (c : Db) (sql : String) (params : List Value) (size : Int64) (f : Callback)
    (r : Result (Unit {0})) (stops : (vs : List Value) (w : World) → f.call vs w ≡ (r, w))
    (refuses : r ≢ ok tt) where
  quietly :
      {A : Type 0} (m : Action World A) (k : A → Action World (Unit {0}))
      → IsQuiet m
      → ((a : A) → StopsAt (k a) (result_of tt r))
      → StopsAt (m >>= k) (result_of tt r)
  quietly m k quiet rest = bind-StopsAt m k _ (λ w. ap calls (quiet.at w)) rest

  reading :
      (rows : Rows) (t : GoType) (ptrs : Bool) (n : ℕ)
      → StopsAt (deferring_close (read_chunks c rows t ptrs n f)) (result_of tt r)
  unfolding deferring_close
  reading rows t ptrs n = record { at = (read_chunks-StopsAt c rows t ptrs n f r stops refuses).at }

  asking :
      (t : GoType) (ptrs : Bool) (n : ℕ) (complete : String)
      → StopsAt
          (query_context c complete params >>= λ rows.
            deferring_close (read_chunks c rows t ptrs n f))
          (result_of tt r)
  unfolding query_context
  asking t ptrs n complete =
      bind-StopsAt (query_context c complete params) _ _ (λ w. refl) (λ rows. reading rows t ptrs n)

  call-StopsAt : StopsAt (call c sql params size f) (result_of tt r)
  unfolding query_chunks run_callback
  call-StopsAt = quietly (lift (parse_input_func (some f.type))) _ (lift-IsQuiet _) λ chunk_type.
      quietly (lift (capacity size)) _ (lift-IsQuiet _) λ n.
        quietly (lift (decode_as_slice_of_structs chunk_type)) _ (lift-IsQuiet _)
          λ (decoded : GoType × Bool).
            quietly (get_tag_info decoded.0) _ (get_tag_info-IsQuiet decoded.0) λ info.
              quietly (complete_query c decoded.0 info sql) _
                (complete_query-IsQuiet c decoded.0 info sql) (asking decoded.0 decoded.1 n)

  -- For a callback that always returns one and the same error or panic and changes nothing else,
  -- QueryChunks, whatever the statement, the driver's answers and the scans, calls it not at all,
  -- or once: then it returns that error or panic, or no error if it is ErrAbortIteration.
  pub query_chunks-stops :
      (w : World)
      → (calls (call c sql params size f w).1.log ≡ calls w.log)
        ⊎ ((calls (call c sql params size f w).1.log ≡ suc (calls w.log))
            × ((call c sql params size f w).0 ≡ result_of tt r))
  query_chunks-stops = call-StopsAt.at
