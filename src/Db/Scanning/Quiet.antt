-- ===== src/Db/Scanning/Quiet.antt =====
-- A scan reaches neither the driver nor a callback: the rows are there.
use ksql.Prelude.{ℕ, suc, List}
use ksql.Reflect.{GoType, Fields, end, field, struct, Value, ref, object}
use ksql.Structs.Info.{StructInfo}
use ksql.World.Quiet.{IsQuiet, quiet_rules}
use ksql.Dialect.{Dialect}
use ksql.Sql.Scan.{ScanArg, scan_args_of, get_scan_args_for_nested_structs}
use ksql.Db.{Db, Rows}
use ksql.Db.Scanning.{scan_args, scan_struct, scan_rows}

scan_args_of-IsQuiet : (d : Dialect) (i : ℕ) (t : GoType) → IsQuiet (scan_args_of d i t)
unfolding scan_args_of
scan_args_of-IsQuiet d i (struct s fs) = search quiet_rules
scan_args_of-IsQuiet d i _ = search quiet_rules

nested-IsQuiet :
    (d : Dialect) (info : StructInfo) (i : ℕ) (fs : Fields) (args : List ScanArg)
    → IsQuiet (get_scan_args_for_nested_structs d info i fs args)
unfolding get_scan_args_for_nested_structs
nested-IsQuiet d info i end args = search quiet_rules
nested-IsQuiet d info i (field h t fs) args =
    search
      (quiet_rules, scan_args_of-IsQuiet, λ (x : List ScanArg). nested-IsQuiet d info (suc i) fs x)

module _ (c : Db) (rows : Rows) (row : List Value) where
  scan_struct-IsQuiet : (v : Value) → IsQuiet (scan_struct c rows row v)
  unfolding scan_struct scan_args
  scan_struct-IsQuiet (object s fs vs) = search (quiet_rules, nested-IsQuiet)
  scan_struct-IsQuiet _ = search quiet_rules

  pub scan_rows-IsQuiet : (v : Value) → IsQuiet (scan_rows c rows row v)
  unfolding scan_rows
  scan_rows-IsQuiet (ref v) = scan_struct-IsQuiet v
  scan_rows-IsQuiet _ = search quiet_rules
