-- ===== src/Db/Scanning/Keeping.antt =====
-- A scan keeps the invariant.
use ksql.Prelude.{ℕ, suc, List}
use ksql.Reflect.{GoType, Fields, end, field, struct, Value, ref, object}
use ksql.Structs.Info.{StructInfo}
use ksql.World.Preserves.{Preserves}
use ksql.Dialect.{Dialect}
use ksql.Sql.Scan.{ScanArg, scan_args_of, get_scan_args_for_nested_structs}
use ksql.Db.{Db, Rows}
use ksql.World.{Log}
use ksql.Prelude.{Option}
use ksql.Prelude.Result.{Error}
use ksql.Db.Invariant.{Holds, holding_rules}
use ksql.Db.Scanning.{scan_args, scan_struct, scan_rows}

module _ (begins : Log → Option Error) (n : Option ℕ) where
  scan_args_of-Preserves :
      (d : Dialect) (i : ℕ) (t : GoType) → Preserves (Holds begins n) (scan_args_of d i t)
  unfolding scan_args_of
  scan_args_of-Preserves d i (struct s fs) = search holding_rules
  scan_args_of-Preserves d i _ = search holding_rules

  nested-Preserves :
      (d : Dialect) (info : StructInfo) (i : ℕ) (fs : Fields) (args : List ScanArg)
      → Preserves (Holds begins n) (get_scan_args_for_nested_structs d info i fs args)
  unfolding get_scan_args_for_nested_structs
  nested-Preserves d info i end args = search holding_rules
  nested-Preserves d info i (field h t fs) args = search (
    holding_rules,
    scan_args_of-Preserves,
    λ (x : List ScanArg). nested-Preserves d info (suc i) fs x,
  )

  module _ (c : Db) (rows : Rows) (row : List Value) where
    scan_struct-Preserves : (v : Value) → Preserves (Holds begins n) (scan_struct c rows row v)
    unfolding scan_struct scan_args
    scan_struct-Preserves (object s fs vs) = search (holding_rules, nested-Preserves)
    scan_struct-Preserves _ = search holding_rules

    pub scan_rows-Preserves : (v : Value) → Preserves (Holds begins n) (scan_rows c rows row v)
    unfolding scan_rows
    scan_rows-Preserves (ref v) = scan_struct-Preserves v
    scan_rows-Preserves _ = search holding_rules
