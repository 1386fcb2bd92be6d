-- ===== src/Structs/Goroutines/Laws.antt =====
-- Every schedule of the calls gives every call its own answer.
use ksql.Prelude.{
  ℕ, suc, ◌-◌, ◌≤◌, ◌≡◌, refl, ap, sym, Option, none, some, List, [], ◌∷◌, eqb, if◌then◌else◌,
  Bool-cases, inl, inr, arith,
}
use ksql.Prelude.Result.{Result, ok, err, panic}
use ksql.Reflect.{GoType}
use ksql.Structs.Info.{StructInfo}
use ksql.Structs.Tags.{get_tag_names}
use ksql.Structs.Cache.{TagCache, CacheEntry, info, other, load, IsFaithful, store_ok-IsFaithful}
use ksql.Structs.Goroutines.{
  Stage, starting, missed, holding, returned, after_load, after_read, advance, Shared, update, turn,
  run, begin,
}

-- What a call for the type may hold.
abbrev IsRight : GoType → Stage → Type 0
IsRight key starting = Unit
IsRight key missed = Unit
IsRight key (holding i) = get_tag_names key ≡ ok i
IsRight key (returned r) = r ≡ get_tag_names key

module _ (key : GoType) (cache : TagCache) (faithful : IsFaithful cache) where
  after_load-IsRight : (o : Option CacheEntry) → load key cache ≡ o → IsRight key (after_load o)
  unfolding after_load
  after_load-IsRight none e = tt
  after_load-IsRight (some (info i)) e =
      let (j, same, read) = faithful.at key (info i) e in cc (same, read)
  after_load-IsRight (some other) e =
      let (j, same, read) = faithful.at key other e in absurd (cc same)

  after_read-IsRight : (r : Result StructInfo) → get_tag_names key ≡ r → IsRight key (after_read r)
  unfolding after_read
  after_read-IsRight (ok i) e = e
  after_read-IsRight (err x) e = sym e
  after_read-IsRight (panic p) e = sym e

  advance-IsRight :
      (s : Stage)
      → IsRight key s
      → IsRight key (advance key s cache).0 × IsFaithful (advance key s cache).1
  unfolding advance
  advance-IsRight starting h = (after_load-IsRight (load key cache) refl, faithful)
  advance-IsRight missed h = (after_read-IsRight (get_tag_names key) refl, faithful)
  advance-IsRight (holding i) h = (sym h, store_ok-IsFaithful key cache faithful (ok i) h)
  advance-IsRight (returned r) h = (h, faithful)

-- What holds of the shared state between two steps.
pub record IsSound (key : ℕ → GoType) (s : Shared) : Type 0 where
  pub faithful : IsFaithful s.cache
  pub right : (i : ℕ) → IsRight (key i) (s.stages i)

module _ (key : ℕ → GoType) where
  update-IsRight :
      (stages : ℕ → Stage) (i : ℕ) (s : Stage)
      → IsRight (key i) s
      → ((j : ℕ) → IsRight (key j) (stages j))
      → (j : ℕ) → IsRight (key j) (update stages i s j)
  update-IsRight stages i s h hs j = elim (Bool-cases (eqb j i)) [
    | inl same ↦ let e : j ≡ i = ground arith in rw (same, e) h
    | inr apart ↦ rw apart (hs j)
  ]

  turn-IsSound : (s : Shared) (i : ℕ) → IsSound key s → IsSound key (turn key s i)
  unfolding turn
  turn-IsSound s i sound =
      let keeps = advance-IsRight (key i) s.cache sound.faithful (s.stages i) (sound.right i) in
      record {
        faithful = keeps.1;
        right =
            update-IsRight s.stages i (advance (key i) (s.stages i) s.cache).0 keeps.0 sound.right;
      }

  pub run-IsSound :
      (s : Shared) (schedule : List ℕ) → IsSound key s → IsSound key (run key s schedule)
  unfolding run
  run-IsSound s [] sound = sound
  run-IsSound s (i ∷ schedule) sound = run-IsSound (turn key s i) schedule (turn-IsSound s i sound)

-- How often it is the call's turn.
abbrev pub turns : ℕ → List ℕ → ℕ
turns i [] = 0
turns i (j ∷ schedule) = let rest = turns i schedule in if eqb i j then suc rest else rest

-- The steps that a call has left at most.
abbrev left : Stage → ℕ
left starting = 3
left missed = 2
left (holding i) = 1
left (returned r) = 0

left-after_load : (o : Option CacheEntry) → left (after_load o) ≤ 2
unfolding after_load
left-after_load none = omega arith
left-after_load (some (info i)) = omega arith
left-after_load (some other) = omega arith

left-after_read : (r : Result StructInfo) → left (after_read r) ≤ 1
unfolding after_read
left-after_read (ok i) = omega arith
left-after_read (err e) = omega arith
left-after_read (panic p) = omega arith

left-advance :
    (key : GoType) (s : Stage) (cache : TagCache) → left (advance key s cache).0 ≤ left s - 1
unfolding advance
left-advance key starting cache = omega (arith, left-after_load (load key cache))
left-advance key missed cache = omega (arith, left-after_read (get_tag_names key))
left-advance key (holding i) cache = omega arith
left-advance key (returned r) cache = omega arith

module _ (key : ℕ → GoType) (i : ℕ) where
  left-turn :
      (s : Shared) (j : ℕ)
      → left ((turn key s j).stages i) ≤ left (s.stages i) - (if eqb i j then 1 else 0)
  unfolding turn
  left-turn s j = elim (Bool-cases (eqb i j)) [
    | inl same ↦
        let e : j ≡ i = ground arith in rw (same, e) (left-advance (key i) (s.stages i) s.cache)
    | inr apart ↦ rw apart (omega arith)
  ]

  left-run :
      (s : Shared) (schedule : List ℕ)
      → left ((run key s schedule).stages i) ≤ left (s.stages i) - turns i schedule
  unfolding run
  left-run s [] = omega arith
  left-run s (j ∷ schedule) = ground (arith, left-run (turn key s j) schedule, left-turn s j)

  returned_if : (s : Stage) → left s ≤ 0 → IsRight (key i) s → s ≡ returned (get_tag_names (key i))
  returned_if starting h right = absurd (omega arith)
  returned_if missed h right = absurd (omega arith)
  returned_if (holding j) h right = absurd (omega arith)
  returned_if (returned r) h right = ap returned right

  module _ (cache : TagCache) (faithful : IsFaithful cache) (schedule : List ℕ) where
    begin-IsSound : IsSound key (begin cache)
    begin-IsSound = record { faithful = faithful; right = λ j. tt }

    -- Over a faithful cache, however the steps of any number of calls of GetTagInfo, for any
    -- types, alternate on the shared map, a call that has had three turns has returned what
    -- getTagNames returns for its type, and the cache is faithful.
    pub run-answers :
        3 ≤ turns i schedule
        → ((run key (begin cache) schedule).stages i ≡ returned (get_tag_names (key i)))
          × IsFaithful (run key (begin cache) schedule).cache
    run-answers enough =
        let sound = run-IsSound key (begin cache) schedule begin-IsSound in
        (
          returned_if ((run key (begin cache) schedule).stages i)
              (omega (arith, left-run (begin cache) schedule)) (sound.right i),
          sound.faithful,
        )
