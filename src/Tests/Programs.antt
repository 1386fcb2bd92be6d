-- ===== src/Tests/Programs.antt =====
-- Runs of whole programs, and of the caches and dialects below them.
use ksql.Prelude.Result.{Result}
use ksql.Prelude.{◌≢◌, ◌⊎◌}
use ksql.Db.{pos}
use ksql.Db.Chunks.{Callback}
use ksql.Db.Chunks.Stopping.{calls, call, query_chunks-stops}
use ksql.Prelude.Text.{to_upper, join, is_space, trim_left}
use ksql.Sql.Token.{get_first_token}
use ksql.Sql.Select.{build_select_query_for_plain_structs, plain_fields, select_clause}
use ksql.Structs.Info.{by_index, find_index}
use ksql.Structs.Tags.{tablename_tags}
use ksql.Dialect.{escape}
use ksql.Prelude.{List, map, max}
use ksql.Reflect.{Value, Values, object, from_values, more, scalar, basic, text}
use ksql.Structs.Info.{add, insert_new, set_index}
use ksql.Structs.Tags.{get_tag_names, ksql_tags, nested_tags, parse_tag}
use ksql.Structs.Func.{parse_input_func}
use ksql.Structs.Func.Laws.{parse_input_func_iff}
use ksql.Prelude.Dict.{insert}
use ksql.Prelude.Text.{split, to_lower}
use ksql.Db.Scanning.{scan_into, zero_value}
use ksql.Db.Scanning.Laws.{decode}
use ksql.Db.Query.{new_element}
use ksql.Db.Query.Meaning.{statement_for}
use ksql.Db.Chunks.{query_chunks}
use ksql.Db.Chunks.Pieces.{delivered, Sized}
use ksql.Db.Chunks.Whole.{parser, query_chunks-delivers}
use ksql.Tests.{accepting}
use mathlib.Core.List.{flatten}
use ksql.Prelude.{ℕ, some, ◌≡◌, refl, false, []}
use ksql.Prelude.Result.{ok, and_then, err, msg}
use ksql.Prelude.Dict.{lookup}
use ksql.Reflect.{slice, list, done, ref}
use ksql.World.{World}
use ksql.Dialect.{sqlite3}
use ksql.Sql.Select.{initialize_query_cache, build_select_query}
use ksql.Sql.Select.Sound.{IsSound, clause_for, initial-IsSound, build_select_query-refines}
use ksql.Structs.Tags.{decode_as_slice_of_structs}
use ksql.Db.{Db}
use ksql.Db.Query.{query, query_one, static_type}
use ksql.Db.Query.Meaning.{slice_read, answer, first_read, query-returns, query_one-returns}
use ksql.Db.Closing.{open_rows}
use ksql.Db.Invariant.{open_transactions}
use ksql.Reflect.{func, cons, nil, slice, error_type}
use ksql.Db.Program.{chunking, Program, stop, querying_one, transacting, run}
use ksql.Db.Program.Laws.{run-IsSound, run-open_transactions}
use ksql.Db.Program.Closing.{run-open_rows}
use ksql.Tests.{two_rows, user_values, client, user, user_type, user_fields, user_info, read_user}
use ksql.Tests.Writes.{go}

abbrev initial : World
initial = record { tags = []; selects = initialize_query_cache; log = [] }

build_select_query-refines_example :
    ((build_select_query sqlite3 user_type user_info initial).0 ≡ clause_for sqlite3 user_type)
    × IsSound (build_select_query sqlite3 user_type user_info initial).1
build_select_query-refines_example =
    build_select_query-refines sqlite3 user_type user_info read_user initial initial-IsSound

-- A transaction whose callback reads a user and fails.
abbrev failing : Program
failing =
    transacting (querying_one (ref user) "FROM users" [] (λ r. stop (err (msg "no")))) (λ r. stop r)

run-IsSound_example : IsSound (run go failing client initial).1
run-IsSound_example = run-IsSound go failing client initial initial-IsSound

run-open_transactions_example :
    open_transactions client.db.begin_tx (run go failing client initial).1.log ≡ some 0
run-open_transactions_example = run-open_transactions go failing client initial initial-IsSound

-- A client whose driver answers every query with two rows.
abbrev reading : Db
reading = record client { db = record client.db { query_context = λ log sql params. ok two_rows } }

-- A callback that reads a user for each chunk.
abbrev nesting : Program
nesting =
    chunking "SELECT * FROM users" [] (pos 1)
      (func (cons (slice user_type) nil) (cons error_type nil))
      (λ items. querying_one (ref user) "FROM users" [] (λ r. stop (ok tt))) (λ r. stop r)

run-open_rows_example : open_rows reading (run go nesting reading initial).1.log ≡ some 0
run-open_rows_example = run-open_rows go nesting reading initial

abbrev third : ℕ
third = 3

query-returns_example :
    (query reading (ref (list user_type done)) "FROM users" [] initial).0
    ≡ and_then
        (decode_as_slice_of_structs (static_type (some (slice user_type))))
        (slice_read reading "FROM users" [] [] (list user_type done))
query-returns_example =
    query-returns reading "FROM users" [] (list user_type done) initial initial-IsSound

query_one-returns_example :
    (query_one reading (ref user) "FROM users" [] initial).0
    ≡ and_then
        (answer reading user_type "FROM users" [] [])
        (λ rows. first_read reading user rows rows.rows)
query_one-returns_example =
    query_one-returns reading "FROM users" [] "User" user_fields user_values initial initial-IsSound

abbrev with_row : List Value → Value
with_row row = object "User" user_fields (from_values row)

abbrev IsUser : Value → Type 0
IsUser u = (vs : Values) × (u ≡ object "User" user_fields vs)

decode_user :
    (row : List Value) (u : Value) → IsUser u → decode reading two_rows row u ≡ ok (with_row row)
unfolding get_tag_names add ksql_tags nested_tags parse_tag insert_new set_index split to_lower
    insert lookup scan_into
decode_user row u (vs, e) = rw e refl

new_element-IsUser : IsUser (new_element user_type false)
unfolding new_element zero_value
new_element-IsUser = (more (scalar (basic "int") 0) (more (text "") done), refl)

accepting_takes_users : parse_input_func (some accepting.type) ≡ ok (slice user_type)
accepting_takes_users =
    (parse_input_func_iff (some accepting.type) (slice user_type)).1 (user_type, refl, refl, refl)

user_statement :
    statement_for reading user_type user_info "FROM users" ≡ ok "SELECT `id`, `name` FROM users"
unfolding to_upper get_first_token get_tag_names ksql_tags lookup add insert parse_tag split
    to_lower nested_tags set_index build_select_query_for_plain_structs join by_index find_index
    escape is_space trim_left plain_fields select_clause insert_new tablename_tags
user_statement = refl

query_chunks-delivers_example :
    (sent : List (List Value)) × ((query_chunks reading
        (parser reading "User" user_fields "FROM users" [] 1 accepting accepting_takes_users)
        initial).0
      ≡ ok tt)
    × (delivered
          (query_chunks reading
            (parser reading "User" user_fields "FROM users" [] 1 accepting accepting_takes_users)
            initial).1.log
        ≡ sent)
    × (flatten sent ≡ map with_row two_rows.rows)
    × Sized (max 1 1) sent
query_chunks-delivers_example =
    query_chunks-delivers reading "User" user_fields "FROM users" [] 1 accepting
      accepting_takes_users user_info read_user "SELECT `id`, `name` FROM users" user_statement
      two_rows initial initial-IsSound refl with_row IsUser new_element-IsUser
      (λ row. (from_values row, refl)) decode_user (λ vs w. refl) refl refl

-- A callback that takes no chunk.
abbrev refusing : Callback
refusing = record { type = accepting.type; call = λ vs w. (err (msg "stop"), w) }

abbrev stopped : Result (Unit {0})
stopped = err (msg "stop")

an_error : stopped ≢ ok tt
an_error h = absurd (cc h)

query_chunks-stops_example :
    (calls (call reading "FROM users" [] (pos 1) refusing initial).1.log ≡ 0)
    ⊎ ((calls (call reading "FROM users" [] (pos 1) refusing initial).1.log ≡ 1)
        × ((call reading "FROM users" [] (pos 1) refusing initial).0 ≡ err (msg "stop")))
query_chunks-stops_example =
    query_chunks-stops reading "FROM users" [] (pos 1) refusing stopped (λ vs w. refl) an_error
      initial
