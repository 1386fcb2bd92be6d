-- ===== src/Db/Chunks/Laws.antt =====
-- The chunks that QueryChunks hands to its callback.
use ksql.Prelude.{
  ℕ, suc, ◌+◌, max, ◌≤◌, ◌<◌, ◌≡◌, refl, ap, sym, ◌∙◌, true, false, none, List, [], ◌∷◌, map,
  length, take, ltb, All, arith, Bool-cases, inl, inr, length-append, set-append,
}
use mathlib.Core.Path.{subst}
use native.Mathlib.Numerals.{add-one}
use ksql.Prelude.Result.{Result, ok}
use ksql.Prelude.Action.{bind-ok}
use ksql.Reflect.{GoType, Value, ref}
use ksql.Structs.Cache.{IsFaithful}
use ksql.World.{World, Log, chunk, emit}
use ksql.Db.{Db, Rows, close}
use ksql.Db.Scanning.{scan_rows}
use ksql.Db.Scanning.Laws.{decode, Does-scan_rows}
use ksql.Db.Query.{grown, new_element}
use ksql.Db.Query.Laws.{element_at-append, grown-nil, grown-cons}
use ksql.Db.Chunks.{
  Callback, deliver, go_on, LoopEnd, finished, after_scan, chunk_loop, finish, read_chunks,
}
use mathlib.Core.List.{◌++◌, append_assoc, append-nil, flatten}
use ksql.Db.Chunks.Pieces.{
  delivered, pieces, last_piece, last_piece-append, flatten-pieces, Sized, pieces-Sized,
}

-- A run of the loop that ends after the last row: what it delivered, and what it left.
record Ran (run : Result LoopEnd × World) (before : Log) (all : List (List Value)) : Type 0 where
  idx : ℕ
  items : List Value
  sent : List (List Value)
  ended : run.0 ≡ ok (finished idx items)
  faithful : IsFaithful run.1.tags
  logged : delivered run.1.log ≡ delivered before ++ sent
  split : all ≡ sent ++ last_piece idx items

relog :
    {run : Result LoopEnd × World} {all : List (List Value)} {a b : Log}
    → a ≡ b
    → Ran run a all
    → Ran run b all
relog {run} {all} e r = subst (λ l. Ran run l all) e r

module _ (c : Db) (rows : Rows) (t : GoType) (size : ℕ) (f : Callback) (value : List Value → Value)
    (IsRecord : Value → Type 0) (new-IsRecord : IsRecord (new_element t false))
    (value-IsRecord : (row : List Value) → IsRecord (value row))
    (reads : (row : List Value) (u : Value) → IsRecord u → decode c rows row u ≡ ok (value row))
    (continues : (vs : List Value) (w : World) → f.call vs w ≡ (ok tt, w)) where
  loop : ℕ → List (List Value) → List Value → World → Result LoopEnd × World
  loop idx rs items = chunk_loop c rows t false size f idx rs items

  deliver_ok : (vs : List Value) (w : World) → deliver f vs w ≡ (ok true, emit (chunk vs) w)
  unfolding deliver go_on
  deliver_ok vs w = rw (continues vs (emit (chunk vs) w))

  -- One row goes into the chunk, and a full chunk is delivered.
  module _ (idx : ℕ) (row : List Value) (more : List (List Value)) (pre us : List Value) (u : Value)
      (items : List Value) (w : World) (fw : IsFaithful w.tags)
      (g : grown t false idx items ≡ pre ++ (u ∷ us)) (h : length pre ≡ idx) (is : IsRecord u) where
    scanned : World
    scanned = (scan_rows c rows row (ref u) w).1

    scan_ok : (scan_rows c rows row (ref u) w).0 ≡ ok (value row)
    scan_ok = (Does-scan_rows c rows row u w fw).returns ∙ reads row u is

    row_scanned :
        loop idx (row ∷ more) items w
        ≡ after_scan size f idx
            (pre ++ (value row ∷ us))
            (loop (suc idx) more)
            (loop 0 more)
            scanned
    unfolding loop chunk_loop scanned
    row_scanned =
        rw (g, element_at-append c rows pre u us idx h)
          (rw scan_ok (rw (set-append pre u us idx (value row) h)))

    row_kept :
        ltb (suc idx) size ≡ true
        → loop idx (row ∷ more) items w ≡ loop (suc idx) more (pre ++ (value row ∷ us)) scanned
    unfolding after_scan
    row_kept room = row_scanned ∙ rw (room, after_scan)

    row_sent :
        ltb (suc idx) size ≡ false
        → loop idx (row ∷ more) items w
          ≡ loop 0 more (pre ++ (value row ∷ us)) (emit (chunk (pre ++ (value row ∷ us))) scanned)
    unfolding after_scan
    row_sent full = row_scanned ∙ rw (full, after_scan) (rw (deliver_ok (pre ++ (value row ∷ us))))

  ran_nil :
      (pre rest : List Value) (w : World)
      → IsFaithful w.tags
      → Ran (loop (length pre) [] (pre ++ rest) w) w.log (pieces size pre [])
  unfolding loop chunk_loop
  ran_nil pre rest w fw = record {
    idx = length pre;
    items = pre ++ rest;
    sent = [];
    ended = refl;
    faithful = fw;
    logged = sym (append-nil _);
    split = last_piece-append size pre rest;
  }

  -- A chunk that was delivered stands before what the rest of the run delivers.
  ran_after :
      (vs : List Value) (r : Result LoopEnd × World) (w : World) (all : List (List Value))
      → Ran r (emit (chunk vs) w).log all
      → Ran r w.log (vs ∷ all)
  ran_after vs r w all ran = record {
    idx = ran.idx;
    items = ran.items;
    sent = vs ∷ ran.sent;
    ended = ran.ended;
    faithful = ran.faithful;
    logged = ran.logged ∙ append_assoc _ (vs ∷ []) ran.sent;
    split = ap (λ l. vs ∷ l) ran.split;
  }

  Fits : List Value → List Value → Type 0
  Fits pre rest =
      (length pre + length rest ≤ max 1 size)
      × (length pre < max 1 size)
      × All IsRecord pre
      × All IsRecord rest

  All-append :
      (pre : List Value)
      → All IsRecord pre
      → (row : List Value) → All IsRecord (pre ++ (value row ∷ []))
  All-append [] h row = (value-IsRecord row, tt)
  All-append (v ∷ pre) (h, hs) row = (h, All-append pre hs row)

  -- One round keeps the description of the run.
  module _ (idx : ℕ) (row : List Value) (more : List (List Value)) (pre : List Value)
      (items : List Value) (w : World) (fw : IsFaithful w.tags) (h : length pre ≡ idx)
      (ih : (pre' rest : List Value) (w' : World)
        → IsFaithful w'.tags
        → Fits pre' rest
        → Ran
            (loop (length pre') more (pre' ++ rest) w')
            w'.log
            (pieces size pre' (map value more))) where
    round_kept :
        (us : List Value) (u : Value)
        → grown t false idx items ≡ pre ++ (u ∷ us)
        → Fits pre (u ∷ us)
        → ltb (suc idx) size ≡ true
        → Ran (loop idx (row ∷ more) items w) w.log (pieces size pre (map value (row ∷ more)))
    unfolding Fits scanned
    round_kept us u g fits room =
        let d = Does-scan_rows c rows row u w fw in
        let v = value row in
        let longer = length-append pre (v ∷ []) in
        rw (row_kept idx row more pre us u items w fw g h fits.3.0 room, h, room)
          (relog d.only_tags.log (
            rw (append_assoc pre (v ∷ []) us, longer, h, add-one) at
              (ih (pre ++ (v ∷ [])) us (scan_rows c rows row (ref u) w).1 d.only_tags.faithful (
                ground (arith, longer, room, fits.0),
                ground (arith, longer, room, fits.0),
                All-append pre fits.2 row,
                fits.3.1,
              ))))

    round_sent :
        (us : List Value) (u : Value)
        → grown t false idx items ≡ pre ++ (u ∷ us)
        → Fits pre (u ∷ us)
        → ltb (suc idx) size ≡ false
        → Ran (loop idx (row ∷ more) items w) w.log (pieces size pre (map value (row ∷ more)))
    unfolding Fits scanned
    round_sent (x ∷ us) u g fits full = absurd (ground arith)
    round_sent [] u g fits full =
        let d = Does-scan_rows c rows row u w fw in
        let vs = pre ++ (value row ∷ []) in
        rw (row_sent idx row more pre [] u items w fw g h fits.3.0 full, h, full)
          (ran_after vs _ w _ (
            relog (ap (λ l. chunk vs ∷ l) d.only_tags.log) (
              ih [] vs (emit (chunk vs) (scan_rows c rows row (ref u) w).1) d.only_tags.faithful (
                ground (arith, length-append pre (value row ∷ []), fits.0),
                ground arith,
                tt,
                All-append pre fits.2 row,
              ))))

  run :
      (rs : List (List Value)) (pre rest : List Value) (w : World)
      → IsFaithful w.tags
      → Fits pre rest
      → Ran (loop (length pre) rs (pre ++ rest) w) w.log (pieces size pre (map value rs))
  unfolding Fits
  run [] pre rest w fw fits = ran_nil pre rest w fw
  run (row ∷ rs) pre [] w fw fits =
      let g = grown-nil c rows t false pre (length pre) refl in
      elim (Bool-cases (ltb (suc (length pre)) size)) [
        | inl room ↦
            round_kept (length pre) row rs pre _ w fw refl (run rs) [] _ g
              (ground arith, fits.1, fits.2, (new-IsRecord, tt)) room
        | inr full ↦
            round_sent (length pre) row rs pre _ w fw refl (run rs) [] _ g
              (ground arith, fits.1, fits.2, (new-IsRecord, tt)) full
      ]
  run (row ∷ rs) pre (u ∷ us) w fw fits =
      let g = grown-cons c rows t false pre u us (length pre) refl in
      elim (Bool-cases (ltb (suc (length pre)) size)) [
        | inl room ↦ round_kept (length pre) row rs pre _ w fw refl (run rs) us u g fits room
        | inr full ↦ round_sent (length pre) row rs pre _ w fw refl (run rs) us u g fits full
      ]

  module _ (whole : rows.failure ≡ none) (closes : rows.close_failure ≡ none) where
    last_call :
        (idx : ℕ) (items : List Value) (w : World)
        → ((finish rows f (finished idx items) w).0 ≡ ok tt)
          × (delivered (finish rows f (finished idx items) w).1.log
              ≡ delivered w.log ++ last_piece idx items)
    unfolding finish close
    last_call idx items w = elim (Bool-cases (ltb 0 idx)) [
      | inl left ↦
          rw (closes, finish) (rw (whole, left) (rw (deliver_ok (take idx items)) (refl, refl)))
      | inr none_left ↦ rw (closes, finish) (rw (whole, none_left) (refl, sym (append-nil _)))
    ]

    -- Over a faithful cache of tags, for a callback that never fails, a scan that turns every
    -- record into the value of its row and rows that end and close with no error, the reading of
    -- QueryChunks returns no error, and the chunks that it delivers, put together, are the values
    -- of all the rows in order; each chunk but the last has `max 1 size` elements, and the last is
    -- not empty and has no more.
    pub read_chunks-delivers :
        (w : World)
        → IsFaithful w.tags
        → (sent : List (List Value)) × ((read_chunks c rows t false size f w).0 ≡ ok tt)
          × (delivered (read_chunks c rows t false size f w).1.log ≡ delivered w.log ++ sent)
          × (flatten sent ≡ map value rows.rows)
          × Sized (max 1 size) sent
    unfolding read_chunks loop Fits
    read_chunks-delivers w fw =
        let ran = run rows.rows [] [] w fw (omega arith, omega arith, tt, tt) in
        let all = pieces size [] (map value rows.rows) in
        let end = last_call ran.idx ran.items (loop 0 rows.rows [] w).1 in
        let e =
          bind-ok (chunk_loop c rows t false size f 0 rows.rows []) (finish rows f) w ran.ended in
        (
          all,
          rw e end.0,
          rw e (
              end.1
              ∙ ap (λ l. l ++ last_piece ran.idx ran.items) ran.logged
              ∙ append_assoc _ ran.sent _
              ∙ ap (λ l. delivered w.log ++ l) (sym ran.split)),
          flatten-pieces size [] (map value rows.rows),
          pieces-Sized size [] (map value rows.rows) (omega arith),
        )
