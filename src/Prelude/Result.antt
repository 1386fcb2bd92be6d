-- ===== src/Prelude/Result.antt =====
-- What a Go function returns: a value, an error value, or a panic.
use mathlib.Core.Path.{◌≡◌, refl}
use Prim.Native.String.{String}
use Prim.Native.Nat.{ℕ}

-- Errors by where they are made. `external` is an error value of the driver, of a transaction or
-- of a callback; `wrap` is an error whose text begins with the given words and holds another.
pub data Error : Type 0 where
  -- made by ksql
  msg : String → Error
  record_not_found abort_iteration : Error
  -- made outside
  external : ℕ → Error
  wrap : String → Error → Error

-- A panic has a text.
pub data Result {ℓ} (A : Type ℓ) : Type ℓ where
  panic : String → Result A
  err : Error → Result A
  ok : A → Result A

-- `if err != nil { return err }`, and on with the value.
abbrev pub and_then {κ ℓ} :
    {B : Type κ} {A : Type ℓ} (first : Result A) (next : A → Result B) → Result B
and_then (panic s) next = panic s
and_then (err e) next = err e
and_then (ok value) next = next value

-- The value between two calls that both succeed.
pub and_then-ok {κ ℓ} :
    {B : Type κ} {A : Type ℓ} {end : B} (first : Result A) (next : A → Result B)
    → and_then first next ≡ ok end
    → (value : A) × (first ≡ ok value) × (next value ≡ ok end)
and_then-ok (panic s) next done = absurd (cc done)
and_then-ok (err e) next done = absurd (cc done)
and_then-ok (ok value) next done = (value, refl, done)
