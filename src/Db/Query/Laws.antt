-- ===== src/Db/Query/Laws.antt =====
-- What Query hands back for the rows of the driver.
use ksql.Prelude.{
  ℕ, suc, ◌≡◌, refl, ap, ◌∙◌, Bool, true, false, List, [], ◌∷◌, length, arith, length-append,
  set-append, get_elem?-append,
}
use ksql.Prelude.Result.{and_then, Result, ok, err, panic, msg}
use ksql.Prelude.Action.{lift, bind-returns}
use ksql.Reflect.{GoType, Value, ref}
use ksql.Structs.Cache.{IsFaithful}
use ksql.World.{World}
use ksql.World.Laws.{Does, Does-bind, Does-pure, Does-eq}
use ksql.Db.{Db, Rows, or_fail, close}
use ksql.Db.Scanning.{scan_rows}
use ksql.Db.Scanning.Laws.{decode, Does-scan_rows}
use ksql.Db.Query.{new_element, grown, scan_element, element_at, fill, read_rows}
use mathlib.Core.List.{◌++◌, append_assoc, append-nil}

-- What the scan makes of one element of the slice.
abbrev pub decode_element : Db → Rows → List Value → Bool → Value → Result Value
decode_element c rows row true (ref v) = and_then (decode c rows row v) (λ v'. ok (ref v'))
decode_element c rows row true v = err (msg "ksql: expected record to be a pointer to struct")
decode_element c rows row false v = decode c rows row v

-- The rows laid over the elements that the slice has: row by row, each into the element that stands
-- there or into a new one; the elements after the last row stay.
abbrev pub overlay :
    Db → Rows → GoType → Bool → List (List Value) → List Value → Result (List Value)
overlay c rows t ptrs [] vs = ok vs
overlay c rows t ptrs (row ∷ more) [] =
    and_then (decode_element c rows row ptrs (new_element t ptrs))
      λ v. and_then (overlay c rows t ptrs more []) λ rest. ok (v ∷ rest)
overlay c rows t ptrs (row ∷ more) (u ∷ us) =
    and_then (decode_element c rows row ptrs u)
      λ v. and_then (overlay c rows t ptrs more us) λ rest. ok (v ∷ rest)

module _ (c : Db) (rows : Rows) where
  Does-scan_element :
      (row : List Value) (ptrs : Bool) (v : Value) (w : World)
      → IsFaithful w.tags
      → Does (scan_element c rows row ptrs v) w (decode_element c rows row ptrs v)
  unfolding scan_element scan_rows
  Does-scan_element row false v w f = Does-scan_rows c rows row v w f
  Does-scan_element row true (ref v) w f =
      let first = Does-scan_rows c rows row v w f in
      Does-bind {f = λ v'. ok (ref v')} first (λ a _. Does-pure _ _ first.only_tags.faithful)
  Does-scan_element row true _ w f = Does-pure _ w f

  pub element_at-append :
      (pre : List Value) (v : Value) (vs : List Value) (i : ℕ)
      → length pre ≡ i
      → element_at (pre ++ (v ∷ vs)) i ≡ v
  unfolding element_at
  element_at-append pre v vs i h = rw (get_elem?-append pre v vs i h, element_at)

  pub grown-nil :
      (t : GoType) (ptrs : Bool) (pre : List Value) (i : ℕ)
      → length pre ≡ i
      → grown t ptrs i (pre ++ []) ≡ pre ++ (new_element t ptrs ∷ [])
  unfolding grown
  grown-nil t ptrs pre i h = rw (append-nil pre) (ground arith)

  pub grown-cons :
      (t : GoType) (ptrs : Bool) (pre : List Value) (v : Value) (vs : List Value) (i : ℕ)
      → length pre ≡ i
      → grown t ptrs i (pre ++ (v ∷ vs)) ≡ pre ++ (v ∷ vs)
  unfolding grown
  grown-cons t ptrs pre v vs i h = ground (arith, length-append pre (v ∷ vs))

  module _ (t : GoType) (ptrs : Bool) where
    abbrev after : List Value → Result (List Value) → Result (List Value)
    after pre r = and_then r (λ rest. ok (pre ++ rest))

    regroup :
        (pre : List Value) (r : Result Value) (o : Result (List Value))
        → and_then r (λ v. after (pre ++ (v ∷ [])) o)
          ≡ after pre (and_then r λ v. and_then o λ rest. ok (v ∷ rest))
    regroup pre (ok v) (ok rest) = ap ok (append_assoc pre (v ∷ []) rest)
    regroup pre (ok v) (err e) = refl
    regroup pre (ok v) (panic p) = refl
    regroup pre (err e) o = refl
    regroup pre (panic p) o = refl

    -- One round of the loop, where the slice has grown to `pre ++ u ∷ us`.
    module _ (i : ℕ) (row : List Value) (rs : List (List Value)) (pre us : List Value)
        (u : Value) where
      round :
          (items : List Value) (w : World)
          → IsFaithful w.tags
          → grown t ptrs i items ≡ pre ++ (u ∷ us)
          → length pre ≡ i
          → ((v : Value) (w' : World)
              → IsFaithful w'.tags
              → Does
                  (fill c rows t ptrs (suc i) rs ((pre ++ (v ∷ [])) ++ us))
                  w'
                  (after (pre ++ (v ∷ [])) (overlay c rows t ptrs rs us)))
          → Does (fill c rows t ptrs i (row ∷ rs) items) w (
              after pre (
                and_then
                  (decode_element c rows row ptrs u)
                  λ v. and_then (overlay c rows t ptrs rs us) λ rest. ok (v ∷ rest)))
      unfolding fill
      round items w f g h ih =
          let first = Does-scan_element row ptrs u w f in
          rw (g, element_at-append pre u us i h)
            (Does-eq (regroup pre (decode_element c rows row ptrs u) _) (
              Does-bind {f = λ v. after (pre ++ (v ∷ [])) (overlay c rows t ptrs rs us)} first
                (λ v _.
                  rw (set-append pre u us i v h)
                    (rw (← append_assoc pre (v ∷ []) us) (ih v _ first.only_tags.faithful)))))

    fill-overlay :
        (i : ℕ) (rs : List (List Value)) (pre vs : List Value) (w : World)
        → IsFaithful w.tags
        → length pre ≡ i
        → Does (fill c rows t ptrs i rs (pre ++ vs)) w (after pre (overlay c rows t ptrs rs vs))
    unfolding fill
    fill-overlay i [] pre vs w f h = Does-pure _ w f
    fill-overlay i (row ∷ rs) pre [] w f h =
        round i row rs pre [] (new_element t ptrs) (pre ++ []) w f (grown-nil t ptrs pre i h) h
          (λ v w' f'.
            fill-overlay (suc i) rs (pre ++ (v ∷ [])) [] w' f'
              (length-append pre (v ∷ []) ∙ omega arith))
    fill-overlay i (row ∷ rs) pre (u ∷ us) w f h =
        round i row rs pre us u (pre ++ (u ∷ us)) w f (grown-cons t ptrs pre u us i h) h (λ v w' f'.
          fill-overlay (suc i) rs (pre ++ (v ∷ [])) us w' f'
            (length-append pre (v ∷ []) ∙ omega arith))

    after-nil : (r : Result (List Value)) → after [] r ≡ r
    after-nil (ok vs) = refl
    after-nil (err e) = refl
    after-nil (panic p) = refl

    -- Over a faithful cache of tags, the reading of Query returns what the rows make when each is
    -- laid over the element of the slice with its index, or over a new element after the last, the
    -- elements after the last row kept; the error of the rows or of Close comes after a scan's.
    pub read_rows-returns :
        (items : List Value) (w : World)
        → IsFaithful w.tags
        → (read_rows c rows t ptrs items w).0 ≡ (
            and_then (overlay c rows t ptrs rows.rows items) λ final.
              and_then
                (or_fail rows.failure)
                λ _. and_then (or_fail rows.close_failure) λ _. ok final)
    unfolding read_rows close
    read_rows-returns items w f =
        bind-returns (fill c rows t ptrs 0 rows.rows items) _ w
          (overlay c rows t ptrs rows.rows items)
          (λ final.
            and_then (or_fail rows.failure)
              λ _. and_then (or_fail rows.close_failure) λ _. ok final)
          ((fill-overlay 0 rows.rows [] items w f refl).returns ∙ after-nil _)
          (λ final s.
            bind-returns (lift (or_fail rows.failure)) _ s (or_fail rows.failure)
              (λ _. and_then (or_fail rows.close_failure) λ _. ok final) refl
              (λ _ s'.
                bind-returns (close rows) _ s' (or_fail rows.close_failure) (λ _. ok final) refl
                  (λ _ _. refl)))
