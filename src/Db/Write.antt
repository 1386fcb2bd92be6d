-- ===== src/Db/Write.antt =====
-- Insert, Delete, Update and Patch of ksql.go.
pub mod Closing
pub mod Keeping
pub mod Counts
pub mod Laws
pub mod Updates
pub mod Returning
pub mod Refused
pub mod Inserts
pub mod Reading
use ksql.Prelude.{
  ℕ, zero, suc, String, Option, none, some, Bool, true, false, List, [], ◌∷◌, if◌then◌else◌,
}
use ksql.Prelude.Result.{Result, ok, err, panic, Error, msg, record_not_found, wrap}
use ksql.Prelude.Action.{Action, pure, raise, lift, ◌>>=◌}
use ksql.Reflect.{
  GoType, Fields, FieldHeader, end, field, field_at, basic, interface, ptr, map_of, func, struct,
  any_type, type_of, set_field, Value, Values, null, nil_ptr, ref, dict, list, object, json, done,
  more,
}
use ksql.Structs.Info.{StructInfo, by_name}
use ksql.World.{World, get_tag_info}
use ksql.Dialect.{
  InsertMethod, insert_with_returning, insert_with_output, insert_with_last_insert_id,
  insert_with_no_id_retrieval,
}
use ksql.Table.{Table, validate, insert_method_for}
use ksql.Sql.Scan.{ScanArg}
use ksql.Sql.Ids.{normalize_ids_as_map}
use ksql.Sql.Insert.{Insertion, build_insert_query}
use ksql.Sql.Update.{build_update_query}
use ksql.Sql.Delete.{build_delete_query}
use ksql.Db.{
  Db, Rows, ExecResult, Int64, pos, negsuc, exec_context, query_context, close, deferring_close,
  wrapping, or_fail,
}
use ksql.Db.Scanning.{scan_into}

-- What Go's runtime decides: the order in which a map's keys are visited, and the conversion of an
-- int64 to a type, where there is one.
pub record Runtime : Type 0 where
  pub order : List String → List String
  pub convert_int64 : GoType → Int64 → Option Value

-- What insertReturningIDs does with the rows.
read_ids : Db → Rows → List (List Value) → List ScanArg → Value → Action World Value
read_ids c rows [] args v = elim rows.failure [
  | none ↦ raise (msg "unexpected error when retrieving the id columns from the database")
  | some e ↦ raise e
]
read_ids c rows (row ∷ rest) args v = do
  v' ← lift (scan_into c.db row args v)
  _ ← close rows
  pure v'

pub insert_returning_ids : Db → Insertion → Value → Action World Value
unfolding read_ids
insert_returning_ids c ins v = do
  rows ← query_context c ins.query ins.params
  deferring_close (read_ids c rows rows.rows ins.scan_values v)

-- The id, converted to the type of the field that takes it.
pub store_id :
    Runtime → String → Fields → Values → ℕ → Option (FieldHeader × GoType) → Int64 → Result Value
store_id rt n fs vs i none id = panic "reflect: Field index out of range"
store_id rt n fs vs i (some (h, t)) id = elim (rt.convert_int64 t id) [
  | none ↦ err (msg "can't convert last insert id of type int64 into field")
  | some x ↦ ok (object n fs (set_field vs i x))
]

pub insert_with_last_insert_id_of :
    Db → Runtime → String → Fields → Values → StructInfo → Insertion → String → Action World Value
unfolding store_id
insert_with_last_insert_id_of c rt n fs vs info ins id_name = do
  result ← exec_context c ins.query ins.params
  id ← lift result.last_insert_id
  let i = (by_name info id_name).index
  lift (store_id rt n fs vs i (field_at fs i) id)

pub insert_with_no_ids : Db → Insertion → Value → Action World Value
insert_with_no_ids c ins v = do _ ← exec_context c ins.query ins.params; pure v

pub first_id : List String → String
first_id [] = ""
first_id (id ∷ ids) = id

-- The `switch` on the method; its default is for a method that no dialect has.
pub run_insert :
    InsertMethod
    → Db
    → Runtime
    → Table
    → String
    → Fields
    → Values
    → StructInfo
    → Insertion
    → Action World Value
unfolding insert_returning_ids insert_with_last_insert_id_of insert_with_no_ids first_id
run_insert insert_with_returning c rt table n fs vs info ins =
    insert_returning_ids c ins (object n fs vs)
run_insert insert_with_output c rt table n fs vs info ins =
    insert_returning_ids c ins (object n fs vs)
run_insert insert_with_last_insert_id c rt table n fs vs info ins =
    insert_with_last_insert_id_of c rt n fs vs info ins (first_id table.id_columns)
run_insert insert_with_no_id_retrieval c rt table n fs vs info ins =
    insert_with_no_ids c ins (object n fs vs)

not_a_struct_pointer : Action World Value
not_a_struct_pointer = raise (msg "ksql: expected record to be a pointer to struct")

nil_pointer : {A : Type 0} → Action World A
nil_pointer =
    raise (msg "ksql: expected a valid pointer to struct as argument but received a nil pointer")

-- The record is a pointer to a struct, and the result is what it holds at the end.
pub insert : Db → Runtime → Table → Value → Action World Value
unfolding run_insert not_a_struct_pointer nil_pointer
insert c rt table null = lift (panic "reflect: call of reflect.Value.Type on zero Value")
insert c rt table (nil_ptr (struct n fs)) = nil_pointer
insert c rt table (ref (object n fs vs)) = do
  _ ← lift (wrapping "can't insert in ksql.Table" (validate table))
  info ← get_tag_info (struct n fs)
  ins ← build_insert_query rt.order c.dialect table info (ref (object n fs vs))
  run_insert (insert_method_for table c.dialect) c rt table n fs vs info ins
insert c rt table _ = not_a_struct_pointer

-- No row was changed: of a count, the test of Delete and that of Patch.
abbrev none_deleted : Int64 → Bool
none_deleted (pos zero) = true
none_deleted _ = false

abbrev none_updated : Int64 → Bool
none_updated (pos zero) = true
none_updated (pos (suc n)) = false
none_updated (negsuc n) = true

abbrev found : Bool → Result (Unit {0})
found missing = if missing then err record_not_found else ok tt

pub delete : Db → Table → Value → Action World (Unit {0})
delete c table id_or_record = do
  _ ← lift (wrapping "can't delete from ksql.Table" (validate table))
  id_map ← normalize_ids_as_map table.id_columns id_or_record
  let statement = build_delete_query c.dialect table id_map
  result ← exec_context c statement.0 statement.1
  n ← lift (wrapping "unable to check if the record was succesfully deleted" result.rows_affected)
  lift (found (none_deleted n))

patch_typed : Db → Runtime → Table → GoType → Value → Action World (Unit {0})
patch_typed c rt table t record_ = do
  info ← get_tag_info t
  statement ← build_update_query rt.order c.dialect table.name info record_ table.id_columns
  result ← exec_context c statement.0 statement.1
  n ← lift (
      wrapping "unexpected error: unable to fetch how many rows were affected by the update"
        result.rows_affected)
  lift (found (none_updated n))

static_type : Option GoType → GoType
static_type none = any_type
static_type (some t) = t

pub patch : Db → Runtime → Table → Value → Action World (Unit {0})
unfolding patch_typed nil_pointer static_type
patch c rt table null = lift (panic "reflect: call of reflect.Value.Type on zero Value")
patch c rt table (nil_ptr t) = nil_pointer
patch c rt table (ref v) = patch_typed c rt table (static_type (type_of v)) (ref v)
patch c rt table v = patch_typed c rt table (static_type (type_of v)) v

-- Deprecated by the source
pub update : Db → Runtime → Table → Value → Action World (Unit {0})
update c rt table record_ = patch c rt table record_
