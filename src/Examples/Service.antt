-- ===== src/Examples/Service.antt =====
-- examples/example_service/example_service.go, over any Provider.
pub mod Laws
use ksql.Prelude.{
  ℕ, ◌+◌, ◌%◌, ◌^◌, String, Option, none, some, Bool, true, false, List, [], ◌∷◌, get_elem?,
  if◌then◌else◌,
}
use ksql.Prelude.Result.{Result, ok, err, panic, Error}
use ksql.Prelude.Action.{Action, pure, lift, ◌>>=◌}
use ksql.Reflect.{
  GoType, Fields, FieldHeader, Types, nil, cons, end, field, basic, ptr, slice, func, struct,
  error_type, Value, Values, null, scalar, text, nil_ptr, ref, dict, list, object, json, values,
  more, done, set_field,
}
use ksql.World.{World}
use ksql.Table.{Table, new_table}
use ksql.Db.{Int64, pos}
use ksql.Db.Scanning.{zero_value, zero_values}
use ksql.Db.Chunks.{ChunkParser}
use ksql.Mock.{Provider}

abbrev tagged : String → FieldHeader
tagged column = record { pkg_path = ""; ksql = column; tablename = "" }

-- `type Address struct`, whose fields have no `ksql` tags
abbrev pub address_type : GoType
address_type = struct "Address" (
    field (tagged "") (slice (basic "string")) (
      field (tagged "") (basic "string")
        (field (tagged "") (basic "string") (field (tagged "") (basic "string") end))))

-- `type UserEntity struct`
abbrev pub entity_fields : Fields
entity_fields = field (tagged "id") (basic "int") (
    field (tagged "name") (ptr (basic "string")) (
      field (tagged "age") (ptr (basic "int")) (
        field (tagged "score") (ptr (basic "int")) (
          field (tagged "last_payment") (basic "time.Time")
            (field (tagged "address,json") (ptr address_type) end)))))

abbrev pub entity_type : GoType
entity_type = struct "UserEntity" entity_fields

users_table : Table
users_table = new_table "users" ("id" ∷ [])

pub record Service (P : Type 0) : Type 0 where
  pub db : Provider P
  pub stream_chunk_size : ℕ

-- An `int`, by its 64 bits.
abbrev pub int : ℕ → Value
int n = scalar (basic "int") n

abbrev code_or_zero : Option Value → ℕ
code_or_zero (some (scalar t n)) = n
code_or_zero _ = 0

-- `row.Score` or `row.Count`, of a struct with one field
abbrev only_int : Value → ℕ
only_int (object n fs vs) = code_or_zero (get_elem? (values vs) 0)
only_int _ = 0

-- The sum of two ints
abbrev pub add_int : ℕ → ℕ → ℕ
add_int a b = (a + b) % 2 ^ 64

-- `struct { … int }`, without a name
abbrev row_type : String → GoType
row_type column = struct "" (field (tagged column) (basic "int") end)

-- `&UserEntity{ID: …, Score: nullable.Int(…)}`
abbrev pub scored : ℕ → ℕ → Value
scored id score = ref (
    object "UserEntity" entity_fields
      (set_field (set_field (zero_values entity_fields) 0 (int id)) 3 (ref (int score))))

-- The loop of the callback.
unfoldable pub send_all : (Value → Action World (Unit {0})) → List Value → Action World (Unit {0})
send_all send [] = pure tt
send_all send (user ∷ users) = do _ ← send user; send_all send users

-- The three values that ListUsers returns.
pub record Page : Type 0 where
  pub total : ℕ
  pub users : Value
  pub failure : Option Error

-- `var users []UserEntity`
abbrev no_users : Value
no_users = list entity_type done

-- The values of the last `return`, by what Query does. A Query that fails leaves `users` as it was;
-- Go leaves open whether the operand `users` is read before the call of Query or after it, which
-- `reads_after` decides.
listed : Bool → ℕ → Result Value → Result Page
listed reads_after total (ok filled) =
    ok (record { total = total; users = if reads_after then filled else no_users; failure = none })
listed reads_after total (err e) = ok (record { total = total; users = no_users; failure = some e })
listed reads_after total (panic p) = panic p

module _ {P : Type 0} where
  pub new_user_service : Provider P → Service P
  new_user_service db = record { db = db; stream_chunk_size = 100 }

  pub create_user : Service P → Value → Action World (Unit {0})
  unfolding users_table
  create_user s u = do _ ← s.db.insert users_table (ref u); pure tt

  pub update_user_score : Service P → ℕ → ℕ → Action World (Unit {0})
  unfolding users_table
  update_user_score s id change = do
    row ←
        s.db.query_one (ref (zero_value (row_type "score"))) "SELECT score FROM users WHERE id = ?"
          (int id ∷ [])
    s.db.patch users_table (scored id (add_int (only_int row) change))

  -- What follows the count.
  list_page : Bool → Service P → ℕ → ℕ → Result Value → Action World Page
  unfolding listed
  list_page reads_after s offset limit (err e) =
      pure (record { total = 0; users = no_users; failure = some e })
  list_page reads_after s offset limit (panic p) = lift (panic p)
  list_page reads_after s offset limit (ok row) = λ w.
      let (r, w') =
        s.db.query (ref no_users) "SELECT * FROM users OFFSET ? LIMIT ?"
          (int offset ∷ int limit ∷ []) w in
      (listed reads_after (only_int row) r, w')

  pub list_users : Bool → Service P → ℕ → ℕ → Action World Page
  unfolding list_page
  list_users reads_after s offset limit w =
      let (r, w') =
        s.db.query_one (ref (zero_value (row_type "count"))) "SELECT count(*) as count FROM users"
          [] w in
      list_page reads_after s offset limit r w'

  pub stream_all_users : Service P → (Value → Action World (Unit {0})) → Action World (Unit {0})
  stream_all_users s send = s.db.query_chunks (record {
    query = "SELECT * FROM users";
    params = [];
    chunk_size = pos s.stream_chunk_size;
    for_each_chunk = some (record {
      type = func (cons (slice entity_type) nil) (cons error_type nil);
      call = send_all send;
    });
  })

  pub delete_user : Service P → ℕ → Action World (Unit {0})
  unfolding users_table
  delete_user s id = s.db.delete users_table (int id)
