-- ===== src/Tests/Reading.antt =====
-- Runs of the readings: the types of what they give, and where QueryChunks ends.
use ksql.Prelude.Text.{to_upper, is_space, trim_left, split, to_lower}
use ksql.Prelude.Dict.{insert, lookup}
use ksql.Structs.Info.{add, insert_new, set_index}
use ksql.Structs.Tags.{get_tag_names, ksql_tags, nested_tags, parse_tag, decode_as_slice_of_structs}
use ksql.Sql.Token.{get_first_token}
use ksql.Sql.Select.{initialize_query_cache}
use ksql.Sql.Select.Sound.{initial-IsSound}
use ksql.Db.Scanning.{scan_into, zero_value}
use ksql.Db.Query.{filled_slice, new_element, static_type}
use ksql.Db.Query.Meaning.{query-returns, query_one-returns}
use ksql.Prelude.{◌≡◌, ◌≢◌, refl, none, false, [], ◌∷◌, inr, arith}
use ksql.Prelude.Result.{Result, ok, err, msg}
use ksql.Reflect.{Value, basic, slice, ref, list, object, done, more, scalar, text}
use ksql.Reflect.Typing.{HasType}
use ksql.World.{World}
use ksql.Db.{Db, wrapping}
use ksql.Db.Query.{query, query_one}
use ksql.Db.Query.Typing.{KeepsTypes}
use ksql.Db.Query.Typing.Calls.{query-HasType, query_one-HasType}
use ksql.Db.Chunks.{Callback, read_chunks}
use ksql.Db.Chunks.Ending.{read_chunks-ends}
use ksql.Tests.{client, start, two_rows, user_type, user_fields, user_values, user, accepting}
use mathlib.Core.Path.{subst}

-- A driver that answers every query with two rows, whose scan leaves the record as it was.
abbrev idle : Db
idle = record client {
  db = record client.db {
    query_context = λ log sql params. ok two_rows;
    scan = λ row args v. (none, v);
  };
}

abbrev initial : World
initial = record { tags = []; selects = initialize_query_cache; log = [] }

idle-KeepsTypes : KeepsTypes idle
idle-KeepsTypes row args v v' t h e = subst (λ x. HasType x t) (cc e) h

user-HasType : HasType user user_type
unfolding HasType
user-HasType = inr (refl, (inr refl, (inr refl, tt)))

one_user-HasType : HasType (list user_type (more user done)) (slice user_type)
unfolding HasType
one_user-HasType = inr (refl, (user-HasType, tt))

-- The user that was there, and a new one.
abbrev filled : Value
filled = list user_type (
    more user
      (more (object "User" user_fields (more (scalar (basic "int") 0) (more (text "") done))) done))

filled_by_query :
    (query idle (ref (list user_type (more user done))) "SELECT 1" [] initial).0 ≡ ok filled
unfolding decode_as_slice_of_structs static_type get_tag_names add ksql_tags nested_tags parse_tag
    insert_new set_index split to_lower insert lookup scan_into get_first_token to_upper trim_left
    is_space new_element zero_value wrapping filled_slice
filled_by_query =
    query-returns idle "SELECT 1" [] (list user_type (more user done)) initial initial-IsSound

query-HasType_example : HasType filled (slice user_type)
query-HasType_example =
    query-HasType idle idle-KeepsTypes "SELECT 1" [] user_type (more user done) initial filled
      one_user-HasType filled_by_query

found_by_query : (query_one idle (ref user) "SELECT 1" [] initial).0 ≡ ok user
unfolding decode_as_slice_of_structs static_type get_tag_names add ksql_tags nested_tags parse_tag
    insert_new set_index split to_lower insert lookup scan_into get_first_token to_upper trim_left
    is_space wrapping
found_by_query =
    query_one-returns idle "SELECT 1" [] "User" user_fields user_values initial initial-IsSound

query_one-HasType_example : HasType user user_type
query_one-HasType_example =
    query_one-HasType idle idle-KeepsTypes "User" user_fields user_values "SELECT 1" [] initial user
      user-HasType found_by_query

abbrev refusing : Callback
refusing = record { type = accepting.type; call = λ vs w. (err (msg "stop"), w) }

abbrev stopped : Result (Unit {0})
stopped = err (msg "stop")

an_error : stopped ≢ ok tt
an_error h = absurd (cc h)

read_chunks-ends_example :
    read_chunks idle (record two_rows { rows = two_rows.rows }) user_type false 1 refusing start
    ≡ read_chunks idle
        (record two_rows { rows = (text "4" ∷ text "Ada" ∷ []) ∷ [] })
        user_type
        false
        1
        refusing
        start
read_chunks-ends_example =
    read_chunks-ends idle two_rows user_type false 1 refusing stopped (λ vs w. refl) an_error
      ((text "4" ∷ text "Ada" ∷ []) ∷ []) ((text "5" ∷ text "Bob" ∷ []) ∷ []) start (omega arith)
