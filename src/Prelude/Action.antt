-- ===== src/Prelude/Action.antt =====
-- A call that reads and writes a state. The state comes back beside an error or a panic too, since
-- what was written stays written.
use Prim.Native.String.{String}
use mathlib.Core.Path.{◌≡◌, ap, ◌∙◌}
use ksql.Prelude.Result.{Result, ok, err, panic, Error, and_then}

abbrev pub Action {ℓ} : Type ℓ → Type ℓ → Type ℓ
Action S A = S → Result A × S

module _ {ℓ} {S A : Type ℓ} where
  abbrev pub pure : A → Action S A
  pure a s = (ok a, s)

  abbrev pub raise : Error → Action S A
  raise e s = (err e, s)

  abbrev pub lift : Result A → Action S A
  lift r s = (r, s)

module _ {ℓ} {S A B : Type ℓ} where
  abbrev pub continue : Result A → (A → Action S B) → Action S B
  continue (ok a) f s = f a s
  continue (err e) f s = (err e, s)
  continue (panic p) f s = (panic p, s)

  infixl 5 ◌>>=◌ ◌>>◌
  abbrev pub ◌>>=◌ : Action S A → (A → Action S B) → Action S B
  ◌>>=◌ m f s = let (r, s') = m s in continue r f s'

  abbrev pub ◌>>◌ : Action S A → Action S B → Action S B
  m >> k = m >>= λ _. k

module _ {ℓ} {S A B : Type ℓ} (m : Action S A) (f : A → Action S B) (s : S) where
  -- What follows a call, by its outcome.
  pub bind-ok : {a : A} → (m s).0 ≡ ok a → (m >>= f) s ≡ f a (m s).1
  bind-ok h = rw h

  pub bind-err : {e : Error} → (m s).0 ≡ err e → (m >>= f) s ≡ (err e, (m s).1)
  bind-err h = rw h

  pub bind-panic : {p : String} → (m s).0 ≡ panic p → (m >>= f) s ≡ (panic p, (m s).1)
  bind-panic h = rw h

  -- What a bind returns, where what follows returns the same in every state.
  pub bind-returns :
      (r : Result A) (g : A → Result B)
      → (m s).0 ≡ r
      → ((a : A) (s' : S) → (f a s').0 ≡ g a)
      → ((m >>= f) s).0 ≡ and_then r g
  bind-returns (ok a) g h next = ap (λ (x : Result B × S). x.0) (bind-ok h) ∙ next a (m s).1
  bind-returns (err e) g h next = ap (λ (x : Result B × S). x.0) (bind-err h)
  bind-returns (panic p) g h next = ap (λ (x : Result B × S). x.0) (bind-panic h)
