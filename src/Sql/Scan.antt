-- ===== src/Sql/Scan.antt =====
-- Where the columns of a row go: getScanArgsForNestedStructs and getScanArgsFromNames of ksql.go.
pub mod Laws
use ksql.Prelude.{
  ℕ, zero, suc, String, Option, none, some, Bool, true, false, List, [], ◌∷◌, if◌then◌else◌,
}
use ksql.Prelude.Result.{Result, ok, err, panic, msg}
use ksql.Prelude.Action.{Action, pure, raise, lift, ◌>>=◌}
use ksql.Reflect.{GoType, Fields, end, field, basic, interface, ptr, slice, map_of, func, struct}
use ksql.Structs.Info.{StructInfo, FieldInfo, by_index, by_name}
use ksql.World.{World, get_tag_info}
use ksql.Dialect.{Dialect, driver_name}
use mathlib.Core.List.{◌++◌}

-- An argument of `Scan`: the address of a field by the indices that lead to it, wrapped for JSON
-- by the driver named, or the scanner that drops its column.
pub data ScanArg : Type 0 where
  nop_scanner : ScanArg
  address : List ℕ → ScanArg
  json_address : String → List ℕ → ScanArg

unfoldable pub scan_arg : Dialect → FieldInfo → List ℕ → ScanArg
scan_arg d f path = if f.serialize_as_json then json_address (driver_name d) path else address path

-- The inner loop over the fields of the nested struct at index `i`.
unfoldable pub nested_scan_args : Dialect → ℕ → StructInfo → ℕ → Fields → List ScanArg
nested_scan_args d i info j end = []
nested_scan_args d i info j (field h t fs) =
    let rest = nested_scan_args d i info (suc j) fs in
    if (by_index info j).valid
    then scan_arg d (by_index info j) (i ∷ (by_index info j).index ∷ []) ∷ rest
    else rest

-- The arguments for the field `i` of type `t`. getTagNames panics where that is no struct.
unfoldable pub scan_args_of : Dialect → ℕ → GoType → Action World (List ScanArg)
scan_args_of d i (struct n fs) = do
  info ← get_tag_info (struct n fs)
  pure (nested_scan_args d i info 0 fs)
scan_args_of d i t = do _ ← get_tag_info t; lift (panic "reflect: NumField of non-struct value")

unfoldable pub get_scan_args_for_nested_structs :
    Dialect → StructInfo → ℕ → Fields → List ScanArg → Action World (List ScanArg)
get_scan_args_for_nested_structs d info i end args = pure args
get_scan_args_for_nested_structs d info i (field h t fs) args =
    if (by_index info i).valid
    then (do
      more ← scan_args_of d i t
      get_scan_args_for_nested_structs d info (suc i) fs (args ++ more))
    else get_scan_args_for_nested_structs d info (suc i) fs args

-- One round of the loop over the names of the columns.
unfoldable pub named_scan_arg : Dialect → FieldInfo → ScanArg
named_scan_arg d f = if f.valid then scan_arg d f (f.index ∷ []) else nop_scanner

unfoldable pub get_scan_args_from_names : Dialect → List String → StructInfo → List ScanArg
get_scan_args_from_names d [] info = []
get_scan_args_from_names d (name ∷ names) info =
    named_scan_arg d (by_name info name) ∷ get_scan_args_from_names d names info
