-- ===== src/Db/Scanning/Laws.antt =====
-- A row's scan as a function of the row, the columns and the record, with no cache.
use ksql.Prelude.{List, [], if◌then◌else◌, Bool-cases, inl, inr}
use ksql.Prelude.Result.{and_then, Result, ok, err, msg}
use ksql.Reflect.{Fields, struct, Value, ref, object}
use ksql.Structs.Info.{StructInfo}
use ksql.Structs.Tags.{get_tag_names}
use ksql.Structs.Cache.{IsFaithful}
use ksql.World.{World, get_tag_info}
use ksql.World.Laws.{Does, Does-bind, Does-pure, Does-get_tag_info}
use ksql.Sql.Scan.{ScanArg, get_scan_args_from_names}
use ksql.Sql.Scan.Laws.{nested_args, Does-nested_args}
use ksql.Db.{Db, Rows}
use ksql.Db.Scanning.{scan_into, scan_args, scan_struct, scan_rows}

abbrev pub args_for : Db → Rows → Fields → StructInfo → Result (List ScanArg)
args_for c rows fs info =
    if info.is_nested_struct
    then nested_args c.dialect info 0 fs []
    else and_then rows.columns (λ names. ok (get_scan_args_from_names c.dialect names info))

-- The record after one row was scanned into it.
abbrev pub decode : Db → Rows → List Value → Value → Result Value
decode c rows row (object n fs vs) =
    and_then (get_tag_names (struct n fs))
      λ info. and_then (args_for c rows fs info) λ args. scan_into c.db row args (object n fs vs)
decode c rows row _ = err (msg "ksql: expected record to be a pointer to struct")

module _ (c : Db) (rows : Rows) where
  Does-scan_args :
      (fs : Fields) (info : StructInfo) (w : World)
      → IsFaithful w.tags
      → Does (scan_args c rows fs info) w (args_for c rows fs info)
  unfolding scan_args
  Does-scan_args fs info w f = elim (Bool-cases info.is_nested_struct) [
    | inl nested ↦ simp nested (Does-nested_args c.dialect info 0 fs [] w f)
    | inr plain ↦ simp plain (
        Does-bind {f = λ names. ok (get_scan_args_from_names c.dialect names info)}
          (Does-pure rows.columns w f) (λ a _. Does-pure _ _ f))
  ]

  -- Over faithful caches a scan answers as `decode` does.
  pub Does-scan_rows :
      (row : List Value) (v : Value) (w : World)
      → IsFaithful w.tags
      → Does (scan_rows c rows row (ref v)) w (decode c rows row v)
  unfolding scan_rows scan_struct
  Does-scan_rows row (object n fs vs) w f =
      let first = Does-get_tag_info (struct n fs) w f in
      Does-bind
        {f = λ info.
          and_then (args_for c rows fs info) λ args. scan_into c.db row args (object n fs vs)}
        first
        (λ info _.
          let second =
            Does-scan_args fs info (get_tag_info (struct n fs) w).1 first.only_tags.faithful in
          Does-bind {f = λ args. scan_into c.db row args (object n fs vs)} second
            (λ args _. Does-pure _ _ second.only_tags.faithful))
  Does-scan_rows row _ w f = Does-pure _ w f
