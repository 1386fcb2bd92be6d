-- ===== src/Prelude/Lists.antt =====
-- Lists measured by native numbers, and a predicate on every element.
use Prim.Native.Nat.{ℕ, zero, suc, ◌+◌}
use mathlib.Core.Path.{◌≡◌, refl, ap, ap₂, ◌∙◌}
use mathlib.Core.Option.{Option, none, some}
use mathlib.Core.List.{List, [], ◌∷◌, ◌++◌, map, Permᴰ}
use native.Mathlib.Omega.{arith}

module _ {ℓ} {A : Type ℓ} where
  abbrev pub length : List A → ℕ
  length [] = 0
  length (x ∷ xs) = suc (length xs)

  abbrev pub get_elem? : List A → ℕ → Option A
  get_elem? [] i = none
  get_elem? (x ∷ xs) zero = some x
  get_elem? (x ∷ xs) (suc i) = get_elem? xs i

  -- A write out of bounds changes nothing.
  abbrev pub set : List A → ℕ → A → List A
  set [] i v = []
  set (x ∷ xs) zero v = v ∷ xs
  set (x ∷ xs) (suc i) v = x ∷ set xs i v

  abbrev pub take : ℕ → List A → List A
  take zero xs = []
  take (suc n) [] = []
  take (suc n) (x ∷ xs) = x ∷ take n xs

  abbrev pub drop : ℕ → List A → List A
  drop zero xs = xs
  drop (suc n) [] = []
  drop (suc n) (x ∷ xs) = drop n xs

  abbrev pub replicate : ℕ → A → List A
  replicate zero a = []
  replicate (suc n) a = a ∷ replicate n a

  pub length-append : (xs ys : List A) → length (xs ++ ys) ≡ length xs + length ys
  length-append [] ys = omega arith
  length-append (x ∷ xs) ys = omega (arith, length-append xs ys)

pub length-map {ℓ κ} :
    {A : Type ℓ} {B : Type κ} (f : A → B) (xs : List A) → length (map f xs) ≡ length xs
length-map f [] = refl
length-map f (x ∷ xs) = ap suc (length-map f xs)

-- `Holds` of every element, as a tuple.
abbrev pub All {κ ℓ} : {A : Type ℓ} (Holds : A → Type κ) → List A → Type κ
All Holds [] = Unit
All Holds (first ∷ others) = Holds first × All Holds others

module _ {ℓ} {A : Type ℓ} where
  pub replicate-append : (m n : ℕ) (a : A) → replicate (m + n) a ≡ replicate m a ++ replicate n a
  replicate-append zero n a = ap (λ k. replicate k a) (omega arith)
  replicate-append (suc m) n a =
      let e : suc m + n ≡ suc (m + n) = omega arith in
      rw e (ap (λ l. a ∷ l) (replicate-append m n a))

  pub length-replicate : (n : ℕ) (a : A) → length (replicate n a) ≡ n
  length-replicate zero a = refl
  length-replicate (suc n) a = ap suc (length-replicate n a)

  -- A rearrangement has as many elements, and they have what the elements had.
  pub length-Permᴰ : {xs ys : List A} → Permᴰ xs ys → length xs ≡ length ys
  length-Permᴰ Permᴰ.nil = refl
  length-Permᴰ (Permᴰ.cons e p) = ap suc (length-Permᴰ p)
  length-Permᴰ (Permᴰ.swap e f) = refl
  length-Permᴰ (Permᴰ.trans p q) = length-Permᴰ p ∙ length-Permᴰ q

  pub All-Permᴰ {κ} : (P : A → Type κ) {xs ys : List A} → Permᴰ xs ys → All P ys → All P xs
  All-Permᴰ P Permᴰ.nil h = tt
  All-Permᴰ P (Permᴰ.cons e p) (h, hs) = (rw e h, All-Permᴰ P p hs)
  All-Permᴰ P (Permᴰ.swap e f) (h, (k, hs)) = (rw e k, (rw f h, hs))
  All-Permᴰ P (Permᴰ.trans p q) h = All-Permᴰ P p (All-Permᴰ P q h)

  pub All-map {κ μ} :
      (P : A → Type κ) (Q : A → Type μ) (xs : List A) → ((x : A) → P x → Q x) → All P xs → All Q xs
  All-map P Q [] f h = tt
  All-map P Q (x ∷ xs) f (h, hs) = (f x h, All-map P Q xs f hs)

  pub map-All {κ μ} :
      {B : Type κ} (P : A → Type μ) (f g : A → B) (xs : List A)
      → ((x : A) → P x → f x ≡ g x)
      → All P xs
      → map f xs ≡ map g xs
  map-All P f g [] e h = refl
  map-All P f g (x ∷ xs) e (h, hs) = ap₂ (λ y ys. y ∷ ys) (e x h) (map-All P f g xs e hs)

  pub set-append :
      (pre : List A) (x : A) (post : List A) (i : ℕ) (v : A)
      → length pre ≡ i
      → set (pre ++ (x ∷ post)) i v ≡ pre ++ (v ∷ post)
  set-append [] x post zero v h = refl
  set-append [] x post (suc i) v h = absurd (omega arith)
  set-append (y ∷ pre) x post zero v h = absurd (omega arith)
  set-append (y ∷ pre) x post (suc i) v h =
      ap (λ l. y ∷ l) (set-append pre x post i v (omega arith))

  pub get_elem?-append :
      (pre : List A) (x : A) (post : List A) (i : ℕ)
      → length pre ≡ i
      → get_elem? (pre ++ (x ∷ post)) i ≡ some x
  get_elem?-append [] x post zero h = refl
  get_elem?-append [] x post (suc i) h = absurd (omega arith)
  get_elem?-append (y ∷ pre) x post zero h = absurd (omega arith)
  get_elem?-append (y ∷ pre) x post (suc i) h = get_elem?-append pre x post i (omega arith)
