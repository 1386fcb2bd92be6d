-- ===== src/Tests.antt =====
-- Concrete data: a table of users, and a driver that answers from a script.
pub mod Tags
pub mod Statements
pub mod Client
pub mod Assertions
pub mod Builders
pub mod Writes
pub mod Programs
pub mod Helpers
pub mod Mains
pub mod Reading
pub mod Inserts
use ksql.Prelude.{
  ℕ, zero, suc, String, ◌≡◌, ◌≢◌, refl, ◌↔◌, Bool, true, false, Option, none, some, List, [], ◌∷◌,
  map, length, replicate, All, get_elem?,
}
use ksql.Prelude.Dict.{Dict, Distinct, Has, keys, insert, lookup}
use ksql.Prelude.Text.{split, to_lower}
use ksql.Prelude.Result.{Result, ok, err, panic, Error, msg}
use ksql.Prelude.Action.{Action}
use ksql.Reflect.{func, cons, nil, slice, error_type}
use ksql.Reflect.{
  GoType, Fields, FieldHeader, field, end, basic, struct, ptr, Value, Values, scalar, text, ref,
  object, done, more, nil_ptr, from_values,
}
use ksql.Structs.Info.{
  StructInfo, FieldInfo, by_index, by_name, empty_info, add, insert_new, set_index,
}
use ksql.Structs.Tags.{get_tag_names, ksql_tags, nested_tags, parse_tag, tablename_tags}
use ksql.Structs.Cache.{
  TagCache, IsFaithful, get_cached_tag_info, empty-IsFaithful, get_cached_tag_info-eq-get_tag_names,
}
use ksql.World.{World, Event, exec, query, commit, rollback, begin}
use ksql.Dialect.{Dialect, postgres, sqlite3, mysql, sqlserver}
use ksql.Sql.Scan.{ScanArg}
use ksql.Db.{Db, Adapter, AdapterKind, tx, tx_beginner, plain, Rows, ExecResult, Int64, pos, negsuc}
use ksql.Prelude.Result.{and_then}
use ksql.Prelude.Dict.{delete}
use ksql.Prelude.Text.{is_space, itoa, join}
use ksql.Structs.Info.{or_invalid, find_index}
use ksql.Structs.Tags.Laws.{declared, by_index-get_tag_names, by_name-by_index, declared_inj}
use ksql.Structs.ToMap.{struct_to_map}
use ksql.Structs.ToMap.Laws.{Mirrors, struct_to_map-Mirrors}
use ksql.Dialect.{get_driver_dialect, driver_name, placeholder, escape}
use ksql.Dialect.Laws.{get_driver_dialect_iff}
use ksql.Table.{Table, validate, validate_iff}
use ksql.Sql.Token.{get_first_token, get_first_token-append}
use ksql.Sql.Ids.{validate_if_all_ids_are_present}
use ksql.Sql.Ids.Laws.{IsGiven, validate_if_all_ids_are_present_iff}
use ksql.Sql.Select.{build_select_query_for_nested_structs, select_clause}
use ksql.Sql.Scan.{get_scan_args_for_nested_structs}
use ksql.Sql.Slots.{Slot, written, target, slots-align}
use ksql.Sql.Update.{write_update}
use ksql.Sql.Update.Laws.{write_update-lays_out}
use ksql.Db.{or_fail}
use ksql.Db.Query.{read_rows}
use ksql.Db.Query.Laws.{overlay, read_rows-returns}
use ksql.Db.Transaction.{transaction}
use ksql.Db.Transaction.Laws.{
  inner, transaction-logs, transaction-eq-ok_iff, transaction-transaction,
}
use mathlib.Core.List.Permᴰ
use ksql.Db.Scanning.{scan_into, zero_value}
use ksql.Db.Scanning.Laws.{decode}
use ksql.Db.Chunks.{Callback, read_chunks}
use ksql.Db.Query.{new_element}
use mathlib.Core.List.{flatten}
use ksql.Prelude.{max}

abbrev pub tagged : String → FieldHeader
tagged name = record { pkg_path = ""; ksql = name; tablename = "" }

abbrev pub aliased : String → FieldHeader
aliased name = record { pkg_path = ""; ksql = ""; tablename = name }

abbrev pub user_fields : Fields
user_fields = field (tagged "id") (basic "int") (field (tagged "name") (basic "string") end)

abbrev pub user_type : GoType
user_type = struct "User" user_fields

abbrev pub user_values : Values
user_values = more (scalar (basic "int") 4) (more (text "Ada") done)

abbrev pub user : Value
user = object "User" user_fields user_values

abbrev pub joined_fields : Fields
joined_fields = field (aliased "u") user_type (field (aliased "p") user_type end)

abbrev pub id_field : FieldInfo
id_field = record { name = "id"; index = 0; valid = true; serialize_as_json = false }

abbrev pub name_field : FieldInfo
name_field = record { name = "name"; index = 1; valid = true; serialize_as_json = false }

abbrev pub user_info : StructInfo
user_info = record {
  is_nested_struct = false;
  by_index_map = (0, id_field) ∷ (1, name_field) ∷ [];
  by_name_map = ("id", id_field) ∷ ("name", name_field) ∷ [];
}

abbrev pub start : World
start = record { tags = []; selects = []; log = [] }

-- A driver whose rows are copied into the fields and whose statements change one row.
abbrev pub scripted : AdapterKind → Adapter
scripted kind = record {
  kind = kind;
  exec_context =
      λ log text params. ok (record { last_insert_id = ok (pos 7); rows_affected = ok (pos 1) });
  query_context = λ log text params. err (msg "no rows in the script");
  scan = λ row args v. (none, object "User" user_fields (from_values row));
  begin_tx = λ log. none;
  commit_tx = λ log. none;
  rollback_tx = λ log. none;
  closer = none;
}

abbrev pub client : Db
client = record { driver = "sqlite3"; dialect = sqlite3; db = scripted tx_beginner }

abbrev pub two_rows : Rows
two_rows = record {
  columns = ok ("id" ∷ "name" ∷ []);
  rows = (text "4" ∷ text "Ada" ∷ []) ∷ (text "5" ∷ text "Bob" ∷ []) ∷ [];
  failure = none;
  close_failure = none;
}

abbrev pub users : Table
users = record { name = "users"; id_columns = "id" ∷ [] }

abbrev pub user_map : Dict Value
user_map = ("id", text "4") ∷ ("name", text "Ada") ∷ []

abbrev pub alias : String → ℕ → FieldInfo
alias name i = record { name = name; index = i; valid = true; serialize_as_json = false }

abbrev pub joined_info : StructInfo
joined_info = record {
  is_nested_struct = true;
  by_index_map = (0, alias "u" 0) ∷ (1, alias "p" 1) ∷ [];
  by_name_map = ("u", alias "u" 0) ∷ ("p", alias "p" 1) ∷ [];
}

abbrev pub joined_slots : List Slot
joined_slots =
    record { table = "u"; index = 0; column = id_field }
    ∷ record { table = "u"; index = 0; column = name_field }
    ∷ record { table = "p"; index = 1; column = id_field }
    ∷ record { table = "p"; index = 1; column = name_field }
    ∷ []

pub read_user : get_tag_names user_type ≡ ok user_info
unfolding get_tag_names add ksql_tags nested_tags parse_tag insert_new set_index split to_lower
    insert lookup
read_user = refl

-- A callback that accepts every chunk.
abbrev pub accepting : Callback
accepting = record {
  type = func (cons (slice user_type) nil) (cons error_type nil);
  call = λ vs w. (ok tt, w);
}
