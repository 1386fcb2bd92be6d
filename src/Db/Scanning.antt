-- ===== src/Db/Scanning.antt =====
-- scanRows and scanRowsFromType of ksql.go, and the zero values that rows are scanned into.
pub mod Keeping
pub mod Quiet
pub mod Laws
use ksql.Prelude.{
  ℕ, String, Option, none, some, Bool, true, false, List, [], ◌∷◌, ◌==◌, if◌then◌else◌,
}
use ksql.Prelude.Result.{Result, ok, err, panic, Error, msg}
use ksql.Prelude.Action.{Action, pure, raise, lift, ◌>>=◌}
use ksql.Reflect.{
  GoType, Fields, Types, end, field, basic, interface, ptr, slice, map_of, func, struct, Value,
  Values, null, scalar, text, nil_ptr, ref, dict, list, object, json, done, more,
}
use ksql.Structs.Info.{StructInfo}
use ksql.World.{World, get_tag_info}
use ksql.Dialect.{Dialect}
use ksql.Sql.Scan.{ScanArg, get_scan_args_for_nested_structs, get_scan_args_from_names}
use ksql.Db.{Db, Rows, Adapter}

unfoldable mutual
  -- reflect.New(t).Elem()
  pub zero_value : GoType → Value
  zero_value (basic n) = if n == "string" then text "" else scalar (basic n) 0
  zero_value (interface n) = null
  zero_value (ptr t) = nil_ptr t
  zero_value (slice t) = scalar (slice t) 0
  zero_value (map_of k v) = scalar (map_of k v) 0
  zero_value (func is os) = scalar (func is os) 0
  zero_value (struct n fs) = object n fs (zero_values fs)

  pub zero_values : Fields → Values
  zero_values end = done
  zero_values (field h t fs) = more (zero_value t) (zero_values fs)

-- `rows.Scan(scanArgs...)` into a record
unfoldable pub scan_into : Adapter → List Value → List ScanArg → Value → Result Value
scan_into a row args v =
    let (failure, v') = a.scan row args v in elim failure [ none ↦ ok v' | some e ↦ err e ]

-- The arguments of `Scan` for a struct.
unfoldable pub scan_args : Db → Rows → Fields → StructInfo → Action World (List ScanArg)
scan_args c rows fs info =
    if info.is_nested_struct
    then get_scan_args_for_nested_structs c.dialect info 0 fs []
    else (do names ← lift rows.columns; pure (get_scan_args_from_names c.dialect names info))

abbrev not_a_record : Action World Value
not_a_record = raise (msg "ksql: expected record to be a pointer to struct")

-- The record that a pointer leads to, after the scan.
unfoldable pub scan_struct : Db → Rows → List Value → Value → Action World Value
unfolding scan_args
scan_struct c rows row (object n fs vs) = do
  info ← get_tag_info (struct n fs)
  args ← scan_args c rows fs info
  lift (scan_into c.db row args (object n fs vs))
scan_struct c rows row _ = not_a_record

unfoldable pub scan_rows : Db → Rows → List Value → Value → Action World Value
scan_rows c rows row (ref v) = scan_struct c rows row v
scan_rows c rows row _ = not_a_record
