-- ===== src/Db/Chunks/Ending.antt =====
-- QueryChunks does not read on after the chunk that its callback refuses.
use ksql.Prelude.{
  ℕ, suc, ◌+◌, max, ◌≤◌, ◌<◌, ◌≡◌, ◌≢◌, refl, ap, ◌∙◌, Bool, true, List, [], ◌∷◌, length,
  Bool-cases, inl, inr, if◌then◌else◌, ltb, arith,
}
use ksql.Prelude.Result.{Result, ok, err, panic, abort_iteration}
use ksql.Prelude.Action.{Action, pure, ◌>>=◌, continue}
use ksql.Reflect.{GoType, Value, ref, object}
use ksql.World.{World, chunk, emit}
use ksql.Db.{Db, Rows}
use ksql.Db.Scanning.{scan_args, scan_struct, scan_rows}
use ksql.Db.Chunks.{
  Callback, LoopEnd, finished, aborted, go_on, deliver, after_scan, chunk_loop, finish, read_chunks,
}
use ksql.Db.Chunks.Stopping.{result_of, after_call}
use mathlib.Core.List.{◌++◌}

-- Two loops that end in one way, and that way is not the last row.
record EndsAs (m n : Action World LoopEnd) : Type 0 where
  at : (w : World) → (m w ≡ n w) × ((i : ℕ) (items : List Value) → (m w).0 ≢ ok (finished i items))

module _ {A : Type 0} (k l : A → Action World LoopEnd) (rest : (a : A) → EndsAs (k a) (l a)) where
  continue-EndsAs :
      (r : Result A) (w : World)
      → (continue r k w ≡ continue r l w)
        × ((i : ℕ) (items : List Value) → (continue r k w).0 ≢ ok (finished i items))
  continue-EndsAs (ok a) w = (rest a).at w
  continue-EndsAs (err e) w = (refl, λ i items h. absurd (cc h))
  continue-EndsAs (panic p) w = (refl, λ i items h. absurd (cc h))

  bind-EndsAs : (m : Action World A) → EndsAs (m >>= k) (m >>= l)
  bind-EndsAs m = record { at = λ w. continue-EndsAs (m w).0 (m w).1 }

result_of-aborted :
    (r : Result (Unit {0})) (i : ℕ) (items : List Value)
    → result_of aborted r ≢ ok (finished i items)
result_of-aborted (ok u) i items h = absurd (cc h)
result_of-aborted (err abort_iteration) i items h = absurd (cc h)
result_of-aborted (err e) i items h = absurd (cc h)
result_of-aborted (panic p) i items h = absurd (cc h)

-- What a scan makes of a row does not depend on the others.
scan_rows-columns :
    (c : Db) (rows : Rows) (rs : List (List Value)) (row : List Value) (v : Value)
    → scan_rows c (record rows { rows = rs }) row v ≡ scan_rows c rows row v
unfolding scan_rows scan_struct scan_args
scan_rows-columns c rows rs row (ref (object n fs vs)) = refl
scan_rows-columns c rows rs row (ref v) = refl
scan_rows-columns c rows rs row v = refl

module _ (c : Db) (rows : Rows) (t : GoType) (ptrs : Bool) (size : ℕ) (f : Callback)
    (r : Result (Unit {0})) (stops : (vs : List Value) (w : World) → f.call vs w ≡ (r, w))
    (refuses : r ≢ ok tt) where
  refused :
      (k : List Value → Action World LoopEnd) (items : List Value) (w : World)
      → continue (go_on r) (λ continues. if continues then k items else pure aborted) w
        ≡ (result_of aborted r, w)
  refused k items w =
      after_call c rows t ptrs size f r stops refuses aborted
        (λ continues. if continues then k items else pure aborted) w refl

  after_scan-EndsAs :
      (idx : ℕ) (items : List Value)
      (next restart next' restart' : List Value → Action World LoopEnd)
      → (ltb (suc idx) size ≡ true → EndsAs (next items) (next' items))
      → EndsAs
          (after_scan size f idx items next restart)
          (after_scan size f idx items next' restart')
  unfolding after_scan deliver
  after_scan-EndsAs idx items next restart next' restart' goes =
      elim (Bool-cases (ltb (suc idx) size)) [
        | inl room ↦ rw room (goes room)
        | inr full ↦ record {
          at = λ w.
              rw
                (
                  full,
                  stops items (emit (chunk items) w),
                  refused restart items _,
                  refused restart' items _,
                )
                (refl, result_of-aborted r);
        }
      ]

  -- The loop over enough rows to fill a chunk ends with it, whatever rows follow.
  chunk_loop-EndsAs :
      (idx : ℕ) (rs more : List (List Value)) (items : List Value)
      (first second : List (List Value))
      → idx < max 1 size
      → max 1 size ≤ idx + length rs
      → EndsAs
          (chunk_loop c (record rows { rows = first }) t ptrs size f idx (rs ++ more) items)
          (chunk_loop c (record rows { rows = second }) t ptrs size f idx rs items)
  unfolding chunk_loop
  chunk_loop-EndsAs idx [] more items first second small enough = absurd (omega arith)
  chunk_loop-EndsAs idx (row ∷ rs) more items first second small enough =
      rw (scan_rows-columns c rows first row _, scan_rows-columns c rows second row _)
        (bind-EndsAs _ _
          (λ v. after_scan-EndsAs idx _ _ _ _ _ (λ room.
            chunk_loop-EndsAs (suc idx) rs more _ first second (ground arith) (omega arith)))
          (scan_rows c rows row _))

  -- The rows have no part in what follows such an end.
  after_loop :
      (first second : List (List Value)) (s : Result LoopEnd) (w : World)
      → ((i : ℕ) (items : List Value) → s ≢ ok (finished i items))
      → continue s (finish (record rows { rows = first }) f) w
        ≡ continue s (finish (record rows { rows = second }) f) w
  unfolding finish
  after_loop first second (ok (finished i items)) w h = absurd (h i items refl)
  after_loop first second (ok aborted) w h = refl
  after_loop first second (err e) w h = refl
  after_loop first second (panic p) w h = refl

  -- For a callback that always returns one and the same error or panic and changes nothing else,
  -- the reading of QueryChunks over rows that are enough for one chunk does and returns the same
  -- whatever rows follow them, so it ends where the rows have no end.
  pub read_chunks-ends :
      (rs more : List (List Value)) (w : World)
      → max 1 size ≤ length rs
      → read_chunks c (record rows { rows = rs ++ more }) t ptrs size f w
        ≡ read_chunks c (record rows { rows = rs }) t ptrs size f w
  unfolding read_chunks
  read_chunks-ends rs more w enough =
      let (same, early) =
        (chunk_loop-EndsAs 0 rs more [] (rs ++ more) rs (omega arith) (omega arith)).at w in
      after_loop (rs ++ more) rs
        (chunk_loop c (record rows { rows = rs ++ more }) t ptrs size f 0 (rs ++ more) [] w).0 _
        early
      ∙ ap (λ (x : Result LoopEnd × World). continue x.0 (finish (record rows { rows = rs }) f) x.1)
          same
