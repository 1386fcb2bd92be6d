-- ===== src/Examples/Service/Laws.antt =====
-- How StreamAllUsers sends the users of a chunk.
use ksql.Prelude.{ℕ, false, ◌≡◌, refl, ap, List, [], ◌∷◌}
use ksql.Prelude.Result.{Result, ok, err, panic, Error}
use ksql.Prelude.Action.{Action, continue}
use ksql.Reflect.{Value}
use ksql.World.{World}
use ksql.Examples.Service.{send_all, Service, Page, no_users, listed, list_page, list_users}
use mathlib.Core.List.{◌++◌}

module _ (send : Value → Action World (Unit {0})) where
  -- If the users before one are sent without an error and that one is refused, the callback of
  -- StreamAllUsers returns the error and sends none of the others.
  pub send_all_stops :
      (before : List Value) (user : Value) (others : List Value) (w w' final : World) (e : Error)
      → send_all send before w ≡ (ok tt, w')
      → send user w' ≡ (err e, final)
      → send_all send (before ++ (user ∷ others)) w ≡ (err e, final)
  unfolding send_all
  send_all_stops [] user others w w' final e sent fails =
      let here : w ≡ w' = ap (λ (p : Result (Unit {0}) × World). p.1) sent in
      rw here (rw fails refl)
  send_all_stops (u ∷ before) user others w w' final e sent fails =
      after (send u w).0 (send u w).1 sent
        (λ s h. send_all_stops before user others s w' final e h fails)
    where
      after :
          (r : Result (Unit {0})) (s : World)
          → continue r (λ _. send_all send before) s ≡ (ok tt, w')
          → ((t : World)
              → send_all send before t ≡ (ok tt, w')
              → send_all send (before ++ (user ∷ others)) t ≡ (err e, final))
          → continue r (λ _. send_all send (before ++ (user ∷ others))) s ≡ (err e, final)
      after (ok _) s h next = next s h
      after (err x) s h next = absurd (cc (ap (λ (p : Result (Unit {0}) × World). p.0) h))
      after (panic p) s h next = absurd (cc (ap (λ (p : Result (Unit {0}) × World). p.0) h))

listed-none :
    (total : ℕ) (r : Result Value) (page : Page)
    → listed false total r ≡ ok page
    → page.users ≡ no_users
unfolding listed
listed-none total (ok filled) page e = cc e
listed-none total (err x) page e = cc e
listed-none total (panic p) page e = absurd (cc e)

module _ {P : Type 0} (s : Service P) (offset limit : ℕ) where
  list_page-none :
      (r : Result Value) (w : World) (page : Page)
      → (list_page false s offset limit r w).0 ≡ ok page
      → page.users ≡ no_users
  unfolding list_page
  list_page-none (ok row) w page e = listed-none _ _ page e
  list_page-none (err x) w page e = cc e
  list_page-none (panic p) w page e = absurd (cc e)

  pub list_users-lists_none :
      (w : World) (page : Page)
      → (list_users false s offset limit w).0 ≡ ok page
      → page.users ≡ no_users
  unfolding list_users
  list_users-lists_none w page e = list_page-none _ _ page e
