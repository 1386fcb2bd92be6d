-- ===== src/Examples/Crud.antt =====
-- examples/crud/crud.go: the program that its `main` runs on the client, over sqlite3. The text of
-- an error, `err.Error()`, is a parameter.
pub mod Laws
use ksql.Prelude.{ℕ, String, Option, none, some, List, [], ◌∷◌, get_elem?}
use ksql.Prelude.Result.{Result, ok, err, panic, Error}
use ksql.Prelude.Action.{Action, lift}
use ksql.Reflect.{
  GoType, Fields, FieldHeader, end, field, basic, struct, ptr, Value, Values, done, more, null,
  scalar, text, nil_ptr, ref, list, object, values, set_field,
}
use ksql.World.{World}
use ksql.Table.{Table, new_table}
use ksql.Db.{Db, pos}
use ksql.Db.Scanning.{zero_value}
use ksql.Db.Write.{Runtime}
use ksql.Db.Transaction.{close_client}
use ksql.Db.Program.{
  Program, stop, querying, querying_one, inserting, patching, deleting, executing, transacting, run,
}
use ksql.Nullable.{int}
use ksql.Adapters.Std.{DatabaseSql}
use ksql.Adapters.Sqlite3.{new}

abbrev tagged : String → FieldHeader
tagged column = record { pkg_path = ""; ksql = column; tablename = "" }

-- `type Address struct`, whose fields have only tags of JSON
abbrev pub address_type : GoType
address_type =
    struct "Address" (field (tagged "") (basic "string") (field (tagged "") (basic "string") end))

abbrev pub user_fields : Fields
user_fields = field (tagged "id") (basic "int") (
    field (tagged "name") (basic "string")
      (field (tagged "age") (basic "int") (field (tagged "address,json") address_type end)))

-- `type User struct`
abbrev pub user_type : GoType
user_type = struct "User" user_fields

-- `type PartialUpdateUser struct`
abbrev partial_fields : Fields
partial_fields = field (tagged "id") (basic "int") (
    field (tagged "name") (ptr (basic "string")) (
      field (tagged "age") (ptr (basic "int"))
        (field (tagged "address,json") (ptr address_type) end)))

abbrev pub users_table : Table
users_table = new_table "users" []

-- `&User{Name: …, Age: …, Address: Address{State: …}}`
abbrev pub new_user : String → ℕ → String → Value
new_user name age state = object "User" user_fields (
    more (scalar (basic "int") 0) (
      more (text name) (
        more (scalar (basic "int") age) (
          more
            (object "Address"
              (field (tagged "") (basic "string") (field (tagged "") (basic "string") end))
              (more (text state) (more (text "") done)))
            done))))

abbrev or_null : Option Value → Value
or_null none = null
or_null (some v) = v

-- `user.ID`
abbrev id_of : Value → Value
id_of (object n fs vs) = or_null (get_elem? (values vs) 0)
id_of v = null

-- `cris.Name = "Cris"`
abbrev renamed : Value → Value
renamed (object n fs vs) = object n fs (set_field vs 1 (text "Cris"))
renamed v = v

-- `struct { ID int; Age int }{ID: cris.ID, Age: 28}`
abbrev aged : Value → Value
aged cris =
    object "" (field (tagged "id") (basic "int") (field (tagged "age") (basic "int") end))
      (more (id_of cris) (more (scalar (basic "int") 28) done))

-- `PartialUpdateUser{ID: cris.ID, Age: nullable.Int(…)}`
partial_update : Value → ℕ → Value
unfolding int
partial_update cris age = object "PartialUpdateUser" partial_fields (
    more (id_of cris)
      (more (nil_ptr (basic "string")) (more (int age) (more (nil_ptr address_type) done))))

module _ (error_text : Error → String) where
  -- `if err != nil { panic(err.Error()) }`
  or_panic : {A : Type 0} → (A → Program) → Result A → Program
  or_panic next (ok a) = next a
  or_panic next (err e) = stop (panic (error_text e))
  or_panic next (panic p) = stop (panic p)

  -- `if err != nil { return err }`
  or_return : {A : Type 0} → (A → Program) → Result A → Program
  or_return next (ok a) = next a
  or_return next (err e) = stop (err e)
  or_return next (panic p) = stop (panic p)

  -- The error is assigned to `err` and not read.
  whatever_error : {A : Type 0} → Program → Result A → Program
  whatever_error next (ok a) = next
  whatever_error next (err e) = next
  whatever_error next (panic p) = stop (panic p)

  -- The callback of the transaction.
  in_transaction : Value → Program
  unfolding or_panic or_return partial_update
  in_transaction cris =
      querying_one (ref (zero_value user_type)) "FROM users WHERE id = ?" (id_of cris ∷ []) (
        or_return
          λ cris2. patching users_table (partial_update cris2 29) (or_panic λ _. stop (ok tt)))

  -- From `var users []User` on.
  list_users : Value → Program
  unfolding or_panic in_transaction
  list_users cris =
      querying (ref (list user_type done)) "FROM users LIMIT 10" []
        (or_panic λ users. transacting (in_transaction cris) (or_panic λ _. stop (ok tt)))

  -- From the assignment to `cris.Name` on.
  update_cris : Value → Program
  unfolding or_panic whatever_error partial_update list_users
  update_cris cris = patching users_table (renamed cris) (
      whatever_error (
        patching users_table (aged cris) (
          or_panic λ _.
            patching users_table (partial_update cris 28)
              (or_panic λ _. list_users (renamed cris)))))

  -- From the call of Delete on.
  delete_alison : Value → Program
  unfolding or_panic update_cris
  delete_alison alison = deleting users_table (id_of alison) (
      or_panic λ _.
        querying_one (ref (zero_value user_type)) "FROM users WHERE name = ? ORDER BY id"
          (text "Cristina" ∷ []) (or_panic update_cris))

  -- What main does with the open client.
  use_client : Program
  unfolding or_panic delete_alison
  use_client =
      executing
        "CREATE TABLE IF NOT EXISTS users (\n\t  id INTEGER PRIMARY KEY,\n\t\tage INTEGER,\n\t\tname TEXT,\n\t\taddress BLOB\n\t)"
        []
        (or_panic λ _. inserting users_table (ref (new_user "Alison" 22 "MG")) (
          or_panic λ alison.
            inserting users_table (ref (new_user "Cristina" 27 "SP"))
              (or_panic λ _. delete_alison alison)))

  -- `defer db.Close()`, which runs after panics too, and the rest of main
  serve : Runtime → Db → Action World (Unit {0})
  unfolding use_client
  serve rt db w = let (r, w') = run rt use_client db w in (r, (close_client db w').1)

  after_new : Runtime → Result Db → Action World (Unit {0})
  unfolding serve
  after_new rt (ok db) = serve rt db
  after_new rt (err e) = lift (panic (error_text e))
  after_new rt (panic p) = lift (panic p)

  pub main : DatabaseSql → Runtime → Action World (Unit {0})
  unfolding after_new
  main sql rt = after_new rt (new sql "/tmp/hello.sqlite" (record { max_open_conns = pos 1 }))
