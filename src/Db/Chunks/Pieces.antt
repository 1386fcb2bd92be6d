-- ===== src/Db/Chunks/Pieces.antt =====
-- A list of records cut into chunks, and the chunks in a log.
use ksql.Prelude.{
  ℕ, suc, max, ◌≤◌, ◌<◌, ◌≡◌, refl, ap, ◌∙◌, List, [], ◌∷◌, length, take, ltb, if◌then◌else◌, arith,
  Bool-cases, inl, inr, length-append,
}
use ksql.Reflect.{Value}
use ksql.World.{Log, chunk}
use mathlib.Core.List.{◌++◌, append_assoc, flatten}

-- The chunks in a log, oldest first.
abbrev pub delivered : Log → List (List Value)
delivered [] = []
delivered (chunk vs ∷ l) = delivered l ++ (vs ∷ [])
delivered (_ ∷ l) = delivered l

-- A list cut into pieces of `size`, the first of them begun by `pre`.
abbrev pub pieces : ℕ → List Value → List Value → List (List Value)
pieces size [] [] = []
pieces size (p ∷ pre) [] = (p ∷ pre) ∷ []
pieces size pre (v ∷ vs) =
    let longer = pieces size (pre ++ (v ∷ [])) vs in
    let full = (pre ++ (v ∷ [])) ∷ pieces size [] vs in
    if ltb (suc (length pre)) size then longer else full

abbrev pub last_piece : ℕ → List Value → List (List Value)
last_piece idx items = if ltb 0 idx then take idx items ∷ [] else []

take-append : (pre rest : List Value) → take (length pre) (pre ++ rest) ≡ pre
take-append [] rest = refl
take-append (v ∷ pre) rest = ap (λ l. v ∷ l) (take-append pre rest)

pub last_piece-append :
    (size : ℕ) (pre rest : List Value) → pieces size pre [] ≡ last_piece (length pre) (pre ++ rest)
last_piece-append size [] rest = refl
last_piece-append size (p ∷ pre) rest = ground (arith, take-append pre rest)

pub flatten-pieces : (size : ℕ) (pre vs : List Value) → flatten (pieces size pre vs) ≡ pre ++ vs
unfolding flatten
flatten-pieces size [] [] = refl
flatten-pieces size (p ∷ pre) [] = refl
flatten-pieces size pre (v ∷ vs) = elim (Bool-cases (ltb (suc (length pre)) size)) [
  | inl room ↦ rw room (flatten-pieces size (pre ++ (v ∷ [])) vs ∙ append_assoc pre (v ∷ []) vs)
  | inr full ↦
      rw full (
        ap (λ l. (pre ++ (v ∷ [])) ++ l) (flatten-pieces size [] vs) ∙ append_assoc pre (v ∷ []) vs)
]

-- Chunks of `n` elements each, the last of which may be smaller and is not empty.
abbrev pub Sized : ℕ → List (List Value) → Type 0
Sized n [] = Unit
Sized n (p ∷ []) = (0 < length p) × (length p ≤ n)
Sized n (p ∷ (q ∷ ps)) = (length p ≡ n) × Sized n (q ∷ ps)

Sized-cons :
    (n : ℕ) (p : List Value) (ps : List (List Value))
    → 0 < length p
    → length p ≡ n
    → Sized n ps
    → Sized n (p ∷ ps)
Sized-cons n p [] h e s = (h, omega arith)
Sized-cons n p (q ∷ ps) h e s = (e, s)

pub pieces-Sized :
    (size : ℕ) (pre vs : List Value)
    → length pre < max 1 size
    → Sized (max 1 size) (pieces size pre vs)
pieces-Sized size [] [] h = tt
pieces-Sized size (p ∷ pre) [] h = (omega arith, omega arith)
pieces-Sized size pre (v ∷ vs) h =
    let longer = length-append pre (v ∷ []) in
    elim (Bool-cases (ltb (suc (length pre)) size)) [
      | inl room ↦ rw room (pieces-Sized size (pre ++ (v ∷ [])) vs (ground (arith, longer, room)))
      | inr full ↦ rw full (
          Sized-cons (max 1 size) (pre ++ (v ∷ [])) (pieces size [] vs) (omega (arith, longer))
            (ground (arith, longer, full)) (pieces-Sized size [] vs (omega arith)))
    ]
