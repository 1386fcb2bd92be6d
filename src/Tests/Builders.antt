-- ===== src/Tests/Builders.antt =====
-- Runs of the query builders, of a Mock and of the two small parsers.
use ksql.Reflect.{Value}
use ksql.Prelude.{◌≡◌, refl, ◌↔◌, none, some, true, List, [], ◌∷◌, map}
use ksql.Prelude.Result.{ok}
use ksql.Prelude.Action.{pure}
use ksql.Prelude.Sprintf.{Other}
use ksql.Prelude.Text.{itoa, join, trim_space}
use ksql.Reflect.{GoType, scalar, text, basic, slice, func, cons, nil, error_type}
use ksql.Structs.Func.{parse_input_func}
use ksql.Structs.Func.Laws.{IsChunkFunc, parse_input_func_iff}
use ksql.Dialect.{postgres, mysql, placeholder}
use ksql.Db.{pos}
use ksql.Mock.{Mock, Provider}
use ksql.Kbuilder.Where.{placeholders}
use ksql.Structs.Cache.{get_cached_tag_info, load}
use ksql.Structs.Info.{num_fields, by_index, find_index}
use ksql.Structs.Info.{add, insert_new, set_index}
use ksql.Structs.Tags.{get_tag_names, ksql_tags, nested_tags, parse_tag}
use ksql.Prelude.Text.{split, to_lower}
use ksql.Prelude.Dict.{insert, lookup}
use mathlib.Core.List.{flatten}
use ksql.Dialect.{escape}
use ksql.Kbuilder.Insert.{elements}
use ksql.Kbuilder.Where.Laws.{Condition, query_of}
use ksql.Kbuilder.Query.Clauses.{clauses, build_query-clauses}
use ksql.Kbuilder.Query.{Caches, cached}
use ksql.Kbuilder.Query as Select
use ksql.Kbuilder.Query.Laws.{build_select_query-build_select_query}
use ksql.Kbuilder.Insert.{Insert, build_query}
use ksql.Kbuilder.Insert.{element_type, fields_of, insert_text}
use ksql.Kbuilder.Insert.Written.{build_query-writes}
use ksql.Reflect.{object, list, more, done}
use ksql.Tests.{user_fields, user_info, user_values, user, user_type}

-- Texts with other directives, which the conditions below have not.
abbrev untouched : Other
untouched s args = s

abbrev by_name_and_age : List Condition
by_name_and_age =
    record {
      head = "name = ";
      tail = "" ∷ [];
      params = text "Ada" ∷ [];
      one_each = refl;
      plain = ((refl, (refl, (refl, (refl, (refl, (refl, (refl, tt))))))), (tt, tt));
    }
    ∷ record {
      head = "age = ";
      tail = "" ∷ [];
      params = text "36" ∷ [];
      one_each = refl;
      plain = ((refl, (refl, (refl, (refl, (refl, (refl, tt)))))), (tt, tt));
    }
    ∷ []

abbrev a_page : Select.Query
a_page = record {
  select = text "id, name";
  from = "users";
  where_ = map query_of by_name_and_age;
  limit = pos 10;
  offset = pos 100;
  order_by = record { fields = "id"; desc = true };
}

abbrev known : Caches
known = record { tags = []; selects = [] }

build_query-clauses_example :
    (Select.build_query untouched a_page postgres known).0
    ≡ ok (
      "SELECT id, name FROM users WHERE name = $1 AND age = $2 ORDER BY id DESC LIMIT 10 OFFSET 100",
      text "Ada" ∷ text "36" ∷ [],
    )
unfolding Select.build_query clauses placeholders placeholder itoa join trim_space flatten
build_query-clauses_example =
    build_query-clauses untouched postgres a_page by_name_and_age "id, name" known refl refl refl

build_select_query-build_select_query_example :
    (Select.build_select_query user mysql (Select.build_select_query user postgres known).1).0
    ≡ ok "\"id\", \"name\""
unfolding Select.build_select_query Select.load Select.escaped_names get_cached_tag_info load
    num_fields by_index find_index escape join get_tag_names add ksql_tags nested_tags parse_tag
    insert_new set_index split to_lower insert lookup
build_select_query-build_select_query_example =
    build_select_query-build_select_query user postgres mysql known "\"id\", \"name\"" refl

abbrev grace : Value
grace = object "User" user_fields (more (scalar (basic "int") 5) (more (text "Grace") done))

abbrev two_users : Insert
two_users = record { into = "users"; data_ = list user_type (more user (more grace done)) }

abbrev no_more : List Value
no_more = []

build_query-writes_example :
    (build_query two_users postgres known).0
    ≡ ok (
      "INSERT INTO \"users\" (\"id\", \"name\") VALUES ($1, $2), ($3, $4)",
      scalar (basic "int") 4 ∷ text "Ada" ∷ scalar (basic "int") 5 ∷ text "Grace" ∷ [],
    )
unfolding build_query elements element_type fields_of insert_text Select.escaped_names
    get_cached_tag_info load num_fields by_index find_index escape placeholder itoa join
    get_tag_names add ksql_tags nested_tags parse_tag insert_new set_index split to_lower insert
    lookup flatten
build_query-writes_example =
    build_query-writes postgres "User" user_fields user_info
      (user, scalar (basic "int") 4 ∷ text "Ada" ∷ [])
      ((grace, scalar (basic "int") 5 ∷ text "Grace" ∷ []) ∷ []) two_users known refl refl refl refl
      (
        (user_values, no_more, refl, refl, refl),
        ((more (scalar (basic "int") 5) (more (text "Grace") done), no_more, refl, refl, refl), tt),
      )

abbrev of_users : GoType
of_users = func (cons (slice user_type) nil) (cons error_type nil)

parse_input_func_iff_example :
    (parse_input_func (some of_users) ≡ ok (slice user_type))
    ↔ IsChunkFunc (some of_users) (slice user_type)
parse_input_func_iff_example = parse_input_func_iff (some of_users) (slice user_type)

abbrev unset : Mock (Unit {0})
unset = record {
  insert_fn = none;
  patch_fn = none;
  delete_fn = none;
  update_fn = none;
  query_fn = none;
  query_one_fn = none;
  query_chunks_fn = none;
  exec_fn = none;
  transaction_fn = none;
}

abbrev pub fallback : Provider (Unit {0})
fallback = record {
  insert = λ table v. pure v;
  patch = λ table v. pure tt;
  delete = λ table v. pure tt;
  update = λ table v. pure tt;
  query = λ v sql params. pure v;
  query_one = λ v sql params. pure v;
  query_chunks = λ parser. pure tt;
  exec = λ sql params. pure (record { last_insert_id = ok (pos 1); rows_affected = ok (pos 1) });
  transaction = λ fn. fn tt;
}

abbrev four : Value
four = scalar (basic "int") 4
