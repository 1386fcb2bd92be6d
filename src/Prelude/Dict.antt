-- ===== src/Prelude/Dict.antt =====
-- Go's `map[string]T`: an association list in which a key stands once. What iterates over a map
-- takes the order of the keys from elsewhere.
use Prim.Native.String.{String}
use mathlib.Core.Path.{◌≡◌, refl, ap, sym, ◌∙◌}
use mathlib.Core.Logic.{◌≢◌, inl, inr}
use mathlib.Core.Bool.{false≢true}
use mathlib.Core.Option.{Option, none, some}
use mathlib.Core.List.{List, [], ◌∷◌}
use native.Mathlib.Omega.{arith}
use text.Mathlib.Text.{◌==◌}
use text.Mathlib.TextEquality.{eq_iff}
use ksql.Prelude.Tests.{if◌then◌else◌, Bool-cases}
use ksql.Prelude.Lists.{length, All}
use Prim.Native.Nat.{suc, ◌+◌}

abbrev pub Dict {ℓ} : Type ℓ → Type ℓ
Dict V = List (String × V)

module _ {ℓ} {V : Type ℓ} where
  -- m[key], and whether it is found
  unfoldable pub lookup : String → Dict V → Option V
  lookup key [] = none
  lookup key ((name, entry) ∷ rest) =
      let further = lookup key rest in if name == key then some entry else further

  -- m[key] = entry
  unfoldable pub insert : String → V → Dict V → Dict V
  insert key entry [] = (key, entry) ∷ []
  insert key entry ((name, old) ∷ rest) =
      let further = insert key entry rest in
      if name == key then (key, entry) ∷ rest else (name, old) ∷ further

  -- delete(m, k)
  unfoldable pub delete : String → Dict V → Dict V
  delete k [] = []
  delete k ((j, w) ∷ m) = let rest = delete k m in if j == k then rest else (j, w) ∷ rest

  unfoldable pub keys : Dict V → List String
  keys [] = []
  keys ((k, v) ∷ m) = k ∷ keys m

  pub lookup-insert :
      (key sought : String) (entry : V) (m : Dict V)
      → lookup sought (insert key entry m) ≡ (if key == sought then some entry else lookup sought m)
  unfolding lookup insert
  lookup-insert key sought entry [] = refl
  lookup-insert key sought entry ((name, old) ∷ rest) = ground (
    arith,
    lookup-insert key sought entry rest,
    eq_iff name key,
    eq_iff key sought,
    eq_iff name sought,
  )

  pub lookup-delete :
      (k j : String) (m : Dict V) → lookup j (delete k m) ≡ (if k == j then none else lookup j m)
  unfolding lookup delete
  lookup-delete k j [] = ground arith
  lookup-delete k j ((i, v) ∷ m) =
      ground (arith, lookup-delete k j m, eq_iff i k, eq_iff i j, eq_iff k j)

-- The keys of a map are distinct; so are the columns that an operation names.
abbrev pub Distinct : List String → Type 0
Distinct [] = Unit
Distinct (k ∷ ks) = All (λ j. j ≢ k) ks × Distinct ks

module _ {ℓ} {V : Type ℓ} where
  abbrev pub Has : Dict V → String → Type ℓ
  Has m k = (v : V) × (lookup k m ≡ some v)

  lookup-none : (k : String) (m : Dict V) → All (λ j. j ≢ k) (keys m) → lookup k m ≡ none
  unfolding lookup keys
  lookup-none k [] h = refl
  lookup-none k ((j, v) ∷ m) (h, hs) = ground (arith, eq_iff j k, lookup-none k m hs)

  delete_missing : (k : String) (m : Dict V) → All (λ j. j ≢ k) (keys m) → delete k m ≡ m
  unfolding delete keys
  delete_missing k [] h = refl
  delete_missing k ((j, v) ∷ m) (h, hs) = ground (arith, eq_iff j k, delete_missing k m hs)

  pub length-delete :
      (k : String) (m : Dict V) → Distinct (keys m) → Has m k → length (delete k m) + 1 ≡ length m
  unfolding lookup delete keys
  length-delete k [] d (v, h) = absurd (cc h)
  length-delete k ((j, w) ∷ m) d (v, h) = elim (Bool-cases (j == k)) [
    | inl same ↦
        let e : j ≡ k = (eq_iff j k).0 same in
        rw same (rw (delete_missing k m (rw (← e) d.0)) (omega arith))
    | inr other ↦ rw other (omega (arith, length-delete k m d.1 (v, rw other at h)))
  ]

  pub All-keys-delete {κ} :
      (P : String → Type κ) (k : String) (m : Dict V) → All P (keys m) → All P (keys (delete k m))
  unfolding keys delete
  All-keys-delete P k [] h = tt
  All-keys-delete P k ((j, w) ∷ m) (h, hs) = elim (Bool-cases (j == k)) [
    | inl same ↦ rw same (All-keys-delete P k m hs)
    | inr other ↦ rw other (h, All-keys-delete P k m hs)
  ]

  pub Distinct-delete : (k : String) (m : Dict V) → Distinct (keys m) → Distinct (keys (delete k m))
  unfolding keys delete
  Distinct-delete k [] d = tt
  Distinct-delete k ((j, w) ∷ m) (h, hs) = elim (Bool-cases (j == k)) [
    | inl same ↦ rw same (Distinct-delete k m hs)
    | inr other ↦ rw other (All-keys-delete (λ i. i ≢ j) k m h, Distinct-delete k m hs)
  ]

  pub length-keys : (m : Dict V) → length (keys m) ≡ length m
  unfolding keys
  length-keys [] = refl
  length-keys (x ∷ m) = ap suc (length-keys m)

module _ {ℓ} {V : Type ℓ} where
  pub keys-delete-ne : (k : String) (m : Dict V) → All (λ j. j ≢ k) (keys (delete k m))
  unfolding keys delete
  keys-delete-ne k [] = tt
  keys-delete-ne k ((j, w) ∷ m) = elim (Bool-cases (j == k)) [
    | inl same ↦ rw same (keys-delete-ne k m)
    | inr other ↦ rw other ((λ e. false≢true (sym other ∙ (eq_iff j k).1 e)), keys-delete-ne k m)
  ]
