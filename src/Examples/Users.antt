-- ===== src/Examples/Users.antt =====
-- examples/repo_with_transactions/users.go, over any Provider. The type of the providers that a
-- transaction hands on is `P`, and `as_provider` shows one as a Provider.
pub mod Laws
use ksql.Prelude.{
  ℕ, String, Option, none, some, Bool, true, false, List, [], ◌∷◌, ◌==◌, not, get_elem?,
  if◌then◌else◌,
}
use ksql.Prelude.Result.{Result, ok, err, panic, Error, msg, record_not_found}
use ksql.Prelude.Action.{Action, pure, raise, lift, ◌>>=◌}
use ksql.Reflect.{
  GoType, Fields, FieldHeader, end, field, basic, struct, Value, Values, null, scalar, text,
  nil_ptr, ref, dict, list, object, json, values, set_field,
}
use ksql.World.{World}
use ksql.Table.{Table, new_table}
use ksql.Db.Scanning.{zero_value}
use ksql.Mock.{Provider}
use Prim.Native.String.{◌++◌}

abbrev tagged : String → FieldHeader
tagged column = record { pkg_path = ""; ksql = column; tablename = "" }

-- `type User struct` of models.go
abbrev pub user_type : GoType
user_type = struct "User" (
    field (tagged "id") (basic "int") (
      field (tagged "name") (basic "string") (
        field (tagged "email") (basic "string")
          (field (tagged "created_at") (basic "time.Time") end))))

users_table : Table
users_table = new_table "users" ("id" ∷ [])

abbrev text_or_empty : Option Value → String
text_or_empty (some (text s)) = s
text_or_empty _ = ""

-- `user.Email`
abbrev pub email_of : Value → String
email_of (object n fs vs) = text_or_empty (get_elem? (values vs) 2)
email_of _ = ""

-- An assignment to a field of the struct.
abbrev with_field : ℕ → Value → Value → Value
with_field i x (object n fs vs) = object n fs (set_field vs i x)
with_field i x v = v

-- `err != ksql.ErrRecordNotFound`, of the error that a call returned or of nil
abbrev pub is_not_found : Result Value → Bool
is_not_found (err record_not_found) = true
is_not_found _ = false

already_used : String → Error
already_used new_email =
    msg (
      "can't change user email to '"
      ++ (new_email ++ "': this email is already used by other user"))

module _ {P : Type 0} where
  unfoldable pub get_user : Provider P → Value → Action World Value
  get_user db user_id =
      db.query_one (ref (zero_value user_type)) "SELECT * FROM users WHERE id = ?" (user_id ∷ [])

  unfoldable pub get_user_by_email : Provider P → String → Action World Value
  get_user_by_email db email =
      db.query_one (ref (zero_value user_type)) "SELECT * FROM users WHERE email = ?"
        (text email ∷ [])

  -- What Insert leaves in the copy is dropped; `now` is what time.Now() returns.
  pub create_user : Value → Provider P → Value → Action World (Unit {0})
  unfolding users_table
  create_user now db user = do _ ← db.insert users_table (ref (with_field 3 now user)); pure tt

  pub update_user : Provider P → Value → Action World (Unit {0})
  unfolding users_table
  update_user db user = db.patch users_table (ref user)

  -- The second test, `err != nil`, and what follows.
  change_if_nil : Provider P → Value → String → Result Value → Action World (Unit {0})
  unfolding update_user
  change_if_nil db user new_email (ok _) = update_user db (with_field 2 (text new_email) user)
  change_if_nil db user new_email (err e) = raise e
  change_if_nil db user new_email (panic p) = lift (panic p)

  -- What follows GetUserByEmail, but a panic of it.
  change_if_unused : Provider P → Value → String → Result Value → Action World (Unit {0})
  unfolding already_used change_if_nil
  change_if_unused db user new_email (panic p) = lift (panic p)
  change_if_unused db user new_email r =
      if not (is_not_found r)
      then raise (already_used new_email)
      else change_if_nil db user new_email r

  -- What follows GetUser.
  change_email : Provider P → String → Value → Action World (Unit {0})
  unfolding change_if_unused
  change_email db new_email user = if email_of user == new_email then pure tt else (λ w.
      let (r, w') = get_user_by_email db new_email w in change_if_unused db user new_email r w')

  -- The callback of the transaction.
  unfoldable pub change_in : Provider P → Value → String → Action World (Unit {0})
  unfolding change_email
  change_in db user_id new_email = get_user db user_id >>= change_email db new_email

  pub change_user_email : (P → Provider P) → Provider P → Value → String → Action World (Unit {0})
  change_user_email as_provider db user_id new_email =
      db.transaction (λ tx. change_in (as_provider tx) user_id new_email)
