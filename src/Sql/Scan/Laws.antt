-- ===== src/Sql/Scan/Laws.antt =====
-- The arguments of `Scan` as a function of the struct's tags, with no cache.
use ksql.Prelude.{ℕ, suc, List, if◌then◌else◌, Bool-cases, inl, inr}
use ksql.Prelude.Result.{and_then, Result, ok, panic}
use ksql.Reflect.{GoType, Fields, end, field, struct}
use ksql.Structs.Info.{StructInfo, by_index}
use ksql.Structs.Tags.{get_tag_names}
use ksql.Structs.Cache.{IsFaithful}
use ksql.World.{World}
use ksql.World.Laws.{Does, Does-bind, Does-pure, Does-get_tag_info, get_tag_info-OnlyTags}
use ksql.Dialect.{Dialect}
use ksql.Sql.Scan.{ScanArg, nested_scan_args, scan_args_of, get_scan_args_for_nested_structs}
use mathlib.Core.List.{◌++◌}

abbrev args_of : Dialect → ℕ → GoType → Result (List ScanArg)
args_of d i (struct n fs) =
    and_then (get_tag_names (struct n fs)) (λ info. ok (nested_scan_args d i info 0 fs))
args_of d i t = and_then (get_tag_names t) (λ _. panic "reflect: NumField of non-struct value")

abbrev pub nested_args : Dialect → StructInfo → ℕ → Fields → List ScanArg → Result (List ScanArg)
nested_args d info i end args = ok args
nested_args d info i (field h t fs) args =
    if (by_index info i).valid
    then and_then (args_of d i t) (λ more. nested_args d info (suc i) fs (args ++ more))
    else nested_args d info (suc i) fs args

Does-scan_args_of :
    (d : Dialect) (i : ℕ) (t : GoType) (w : World)
    → IsFaithful w.tags
    → Does (scan_args_of d i t) w (args_of d i t)
unfolding scan_args_of
Does-scan_args_of d i (struct n fs) w f =
    Does-bind {f = λ info. ok (nested_scan_args d i info 0 fs)}
      (Does-get_tag_info (struct n fs) w f)
      (λ a _. Does-pure _ _ (get_tag_info-OnlyTags (struct n fs) w f).faithful)
Does-scan_args_of d i t w f =
    Does-bind {f = λ _. panic "reflect: NumField of non-struct value"} (Does-get_tag_info _ w f)
      (λ a _. Does-pure _ _ (get_tag_info-OnlyTags _ w f).faithful)

pub Does-nested_args :
    (d : Dialect) (info : StructInfo) (i : ℕ) (fs : Fields) (args : List ScanArg) (w : World)
    → IsFaithful w.tags
    → Does (get_scan_args_for_nested_structs d info i fs args) w (nested_args d info i fs args)
unfolding get_scan_args_for_nested_structs
Does-nested_args d info i end args w f = Does-pure (ok args) w f
Does-nested_args d info i (field h t fs) args w f = elim (Bool-cases (by_index info i).valid) [
  | inr skip ↦ simp skip (Does-nested_args d info (suc i) fs args w f)
  | inl there ↦
      let first = Does-scan_args_of d i t w f in
      simp there (
        Does-bind {f = λ more. nested_args d info (suc i) fs (args ++ more)} first
          (λ a _. Does-nested_args d info (suc i) fs (args ++ a) _ first.only_tags.faithful))
]
