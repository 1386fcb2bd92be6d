-- ===== src/World/Preserves.antt =====
-- Actions after which an invariant holds, if it held before, however they end.
use ksql.Prelude.{◌≡◌, refl, Bool, true, false, if◌then◌else◌}
use ksql.Prelude.Result.{Result, ok, err, panic}
use ksql.Prelude.Action.{Action, lift, continue, ◌>>=◌}
use ksql.World.{World}

pub record Preserves (I : World → Type 0) {A : Type 0} (m : Action World A) : Type 0 where
  pub at : (w : World) → I w → I (m w).1

module _ {I : World → Type 0} {A : Type 0} where
  pub lift-Preserves : (r : Result A) → Preserves I (lift r)
  lift-Preserves r = record { at = λ w h. h }

  pub if-Preserves :
      (b : Bool) (m n : Action World A)
      → Preserves I m
      → Preserves I n
      → Preserves I (if b then m else n)
  if-Preserves true m n p q = p
  if-Preserves false m n p q = q

module _ {I : World → Type 0} {A B : Type 0} where
  continue_holds :
      (r : Result A) (k : A → Action World B) (w : World)
      → ((a : A) → r ≡ ok a → Preserves I (k a))
      → I w
      → I (continue r k w).1
  continue_holds (ok a) k w p h = (p a refl).at w h
  continue_holds (err e) k w p h = h
  continue_holds (panic s) k w p h = h

  -- What follows may rely on what the first call returned.
  pub bind-knowing-Preserves :
      (m : Action World A) (k : A → Action World B)
      → Preserves I m
      → ((w : World) (a : A) → I w → (m w).0 ≡ ok a → Preserves I (k a))
      → Preserves I (m >>= k)
  bind-knowing-Preserves m k pm pk = record {
    at = λ w h. continue_holds (m w).0 k (m w).1 (λ a e. pk w a h e) (pm.at w h);
  }

  pub bind-Preserves :
      (m : Action World A) (k : A → Action World B)
      → Preserves I m
      → ((a : A) → Preserves I (k a))
      → Preserves I (m >>= k)
  bind-Preserves m k pm pk = bind-knowing-Preserves m k pm (λ w a h e. pk a)

pub ruleset preserving_rules = (lift-Preserves, if-Preserves, bind-Preserves)
