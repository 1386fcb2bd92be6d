-- ===== src/Prelude/Text/Decimal.antt =====
-- The decimal text of a number tells which number it is.
use ksql.Prelude.Text.{itoa, itoa_fuel, digit}
use ksql.Prelude.Tests.{Bool-cases, ltb}
use Prim.Native.Nat.{ℕ, zero, suc, ◌+◌, ◌-◌, ◌*◌, ◌/◌, ◌%◌, ◌<◌, ◌≤◌}
use Prim.Native.Char.{code}
use Prim.Native.String.{String, [], ◌∷◌, ◌++◌}
use mathlib.Core.Path.{◌≡◌, refl, ap, sym, ◌∙◌}
use mathlib.Core.Logic.{inl, inr}
use native.Mathlib.Omega.{arith}
use text.Mathlib.TextLemmas.{nil-append, cons-append}

-- The number whose decimal digits stand after those of `n`.
read : ℕ → String → ℕ
read n [] = n
read n (c ∷ s) = read (n * 10 + (code c - 48)) s

read-append : (n : ℕ) (s t : String) → read n (s ++ t) ≡ read (read n s) t
unfolding read
read-append n [] t = rw nil-append refl
read-append n (c ∷ s) t = rw cons-append (read-append (n * 10 + (code c - 48)) s t)

read-digit : (n d : ℕ) → d < 10 → read n (digit d) ≡ n * 10 + d
unfolding read digit
read-digit n zero h = refl
read-digit n (suc zero) h = refl
read-digit n (suc (suc zero)) h = refl
read-digit n (suc (suc (suc zero))) h = refl
read-digit n (suc (suc (suc (suc zero)))) h = refl
read-digit n (suc (suc (suc (suc (suc zero))))) h = refl
read-digit n (suc (suc (suc (suc (suc (suc zero)))))) h = refl
read-digit n (suc (suc (suc (suc (suc (suc (suc zero))))))) h = refl
read-digit n (suc (suc (suc (suc (suc (suc (suc (suc zero)))))))) h = refl
read-digit n (suc (suc (suc (suc (suc (suc (suc (suc (suc d))))))))) h = omega arith

-- Enough fuel is `n` itself.
read-itoa_fuel : (f n : ℕ) → n ≤ f → read 0 (itoa_fuel f n) ≡ n
unfolding itoa_fuel
read-itoa_fuel zero n h = read-digit 0 (n % 10) (omega arith) ∙ omega arith
read-itoa_fuel (suc f) n h = elim (Bool-cases (ltb n 10)) [
  | inl small ↦ rw small (read-digit 0 n (ground arith) ∙ omega arith)
  | inr large ↦ rw large (
      read-append 0 (itoa_fuel f (n / 10)) (digit (n % 10))
      ∙ ap (λ m. read m (digit (n % 10))) (read-itoa_fuel f (n / 10) (ground arith))
      ∙ read-digit (n / 10) (n % 10) (omega arith)
      ∙ omega arith)
]

pub itoa_inj : (m n : ℕ) → itoa m ≡ itoa n → m ≡ n
unfolding itoa
itoa_inj m n e =
    sym (read-itoa_fuel m m (omega arith)) ∙ ap (read 0) e ∙ read-itoa_fuel n n (omega arith)
