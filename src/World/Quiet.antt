-- ===== src/World/Quiet.antt =====
-- Actions that reach neither the driver nor a callback: they leave the log as it was.
use ksql.Prelude.{◌≡◌, refl, ◌∙◌, Bool, true, false, if◌then◌else◌}
use ksql.Prelude.Result.{Result, ok, err, panic, Error}
use ksql.Prelude.Action.{Action, pure, raise, lift, ◌>>=◌, continue}
use ksql.Reflect.{GoType}
use ksql.Structs.Cache.{TagCache}
use ksql.World.{World, on_tags, get_tag_info}

pub record IsQuiet {A : Type 0} (m : Action World A) : Type 0 where
  pub at : (w : World) → (m w).1.log ≡ w.log

module _ {A : Type 0} where
  pub pure-IsQuiet : (a : A) → IsQuiet (pure a)
  pure-IsQuiet a = record { at = λ w. refl }

  pub raise-IsQuiet : (e : Error) → IsQuiet (raise {A = A} e)
  raise-IsQuiet e = record { at = λ w. refl }

  pub lift-IsQuiet : (r : Result A) → IsQuiet (lift r)
  lift-IsQuiet r = record { at = λ w. refl }

  pub on_tags-IsQuiet : (m : Action TagCache A) → IsQuiet (on_tags m)
  on_tags-IsQuiet m = record { at = λ w. refl }

  pub if-IsQuiet :
      (b : Bool) (m n : Action World A) → IsQuiet m → IsQuiet n → IsQuiet (if b then m else n)
  if-IsQuiet true m n qm qn = qm
  if-IsQuiet false m n qm qn = qn

pub get_tag_info-IsQuiet : (t : GoType) → IsQuiet (get_tag_info t)
unfolding get_tag_info
get_tag_info-IsQuiet t = record { at = λ w. refl }

module _ {A B : Type 0} where
  continue-log :
      (r : Result A) (k : A → Action World B) (w : World)
      → ((a : A) → IsQuiet (k a))
      → (continue r k w).1.log ≡ w.log
  continue-log (ok a) k w q = (q a).at w
  continue-log (err e) k w q = refl
  continue-log (panic p) k w q = refl

  pub bind-IsQuiet :
      (m : Action World A) (k : A → Action World B)
      → IsQuiet m
      → ((a : A) → IsQuiet (k a))
      → IsQuiet (m >>= k)
  bind-IsQuiet m k qm qk = record {
    at = λ w. let (r, w') = m w in continue-log r k w' qk ∙ qm.at w;
  }

pub ruleset quiet_rules = (
  pure-IsQuiet, raise-IsQuiet, lift-IsQuiet, on_tags-IsQuiet, if-IsQuiet, get_tag_info-IsQuiet,
  bind-IsQuiet,
)
