-- ===== src/Examples/Users/Laws.antt =====
-- What ChangeUserEmail does not do.
use ksql.Prelude.{String, ◌≡◌, refl, ap, ◌==◌, eq_iff, Bool-cases, inl, inr}
use ksql.Prelude.Result.{Result, ok, err, panic, record_not_found}
use ksql.Prelude.Action.{continue}
use ksql.Reflect.{Value}
use ksql.World.{World}
use ksql.Mock.{Provider, Writing}
use ksql.Examples.Users.{
  get_user, get_user_by_email, email_of, change_if_nil, change_if_unused, change_email, change_in,
  change_user_email,
}

-- A provider with another Patch.
abbrev pub patching : {P : Type 0} → Writing → Provider P → Provider P
patching write db = record db { patch = write }

module _ {P : Type 0} (write : Writing) where
  unused_same :
      (db : Provider P) (user : Value) (new_email : String) (r : Result Value) (w : World)
      → change_if_unused (patching write db) user new_email r w
        ≡ change_if_unused db user new_email r w
  unfolding change_if_unused change_if_nil
  unused_same db user new_email (ok v) w = refl
  unused_same db user new_email (panic p) w = refl
  unused_same db user new_email (err record_not_found) w = refl
  unused_same db user new_email (err _) w = refl

  email_same :
      (db : Provider P) (new_email : String) (user : Value) (w : World)
      → change_email (patching write db) new_email user w ≡ change_email db new_email user w
  unfolding change_email get_user_by_email
  email_same db new_email user w = elim (Bool-cases (email_of user == new_email)) [
    | inl same ↦ rw same refl
    | inr other ↦
        rw other
          (let (r, w') = get_user_by_email db new_email w in unused_same db user new_email r w')
  ]

  in_same :
      (db : Provider P) (user_id : Value) (new_email : String) (w : World)
      → change_in (patching write db) user_id new_email w ≡ change_in db user_id new_email w
  unfolding change_in get_user
  in_same db user_id new_email w = after (get_user db user_id w).0 (get_user db user_id w).1
    where
      after :
          (r : Result Value) (w' : World)
          → continue r (change_email (patching write db) new_email) w'
            ≡ continue r (change_email db new_email) w'
      after (ok user) w' = email_same db new_email user w'
      after (err e) w' = refl
      after (panic p) w' = refl

  -- ChangeUserEmail never patches: with any other Patch in its provider and in those of its
  -- transactions it does and returns the same.
  pub change_user_email-patching :
      (as_provider : P → Provider P) (db : Provider P) (user_id : Value) (new_email : String)
      → change_user_email
          (λ tx. patching write (as_provider tx))
          (patching write db)
          user_id
          new_email
        ≡ change_user_email as_provider db user_id new_email
  unfolding change_user_email
  change_user_email-patching as_provider db user_id new_email =
      ap db.transaction (λ i tx w. in_same (as_provider tx) user_id new_email w i)

module _ {P : Type 0} (db : Provider P) where
  -- If the callback of ChangeUserEmail returns no error, then the user was read and has the new
  -- email already, and nothing was done after the user was read.
  pub change_in_changes_nothing :
      (user_id : Value) (new_email : String) (w : World)
      → (change_in db user_id new_email w).0 ≡ ok tt
      → (user : Value) × ((get_user db user_id w).0 ≡ ok user)
        × (email_of user ≡ new_email)
        × ((change_in db user_id new_email w).1 ≡ (get_user db user_id w).1)
  unfolding change_in change_email change_if_unused change_if_nil
  change_in_changes_nothing user_id new_email w h =
      after (get_user db user_id w).0 (get_user db user_id w).1 h
    where
      unused_fails :
          (user : Value) (r : Result Value) (w' : World)
          → (change_if_unused db user new_email r w').0 ≡ ok tt
          → ⊥
      unused_fails user (ok v) w' h = cc h
      unused_fails user (panic p) w' h = cc h
      unused_fails user (err record_not_found) w' h = cc h
      unused_fails user (err _) w' h = cc h

      after :
          (r : Result Value) (w' : World)
          → (continue r (change_email db new_email) w').0 ≡ ok tt
          → (user : Value) × (r ≡ ok user)
            × (email_of user ≡ new_email)
            × ((continue r (change_email db new_email) w').1 ≡ w')
      after (ok user) w' h = elim (Bool-cases (email_of user == new_email)) [
        | inl same ↦ (user, refl, (eq_iff (email_of user) new_email).0 same, rw same refl)
        | inr other ↦ absurd (unused_fails user _ _ (rw other at h))
      ]
      after (err e) w' h = absurd (cc h)
      after (panic p) w' h = absurd (cc h)
