-- ===== src/Sql/Slots.antt =====
-- The columns of a nested struct as positions, which the SELECT clause and the arguments of `Scan`
-- of ksql.go both follow.
use ksql.Prelude.{
  ℕ, suc, String, ◌≡◌, refl, ap, sym, ◌∙◌, true, List, [], ◌∷◌, map, if◌then◌else◌, arith,
  Bool-cases, inl, inr,
}
use ksql.Prelude.Result.{and_then, and_then-ok, Result, ok, err, msg}
use ksql.Prelude.Action.{bind-ok}
use ksql.Reflect.{GoType, Fields, FieldHeader, end, field, struct}
use ksql.Structs.Info.{StructInfo, FieldInfo, by_index}
use ksql.Structs.Tags.{get_tag_names}
use ksql.Structs.Cache.{IsFaithful}
use ksql.World.{World, get_tag_info}
use ksql.World.Laws.{Does, Does-eq, Does-bind, Does-pure, Does-get_tag_info, get_tag_info-OnlyTags}
use ksql.Dialect.{Dialect, escape}
use ksql.Sql.Select.{
  nested_columns, columns_of, nested_fields, select_clause, build_select_query_for_nested_structs,
}
use ksql.Sql.Scan.{
  ScanArg, scan_arg, nested_scan_args, scan_args_of, get_scan_args_for_nested_structs,
}
use mathlib.Core.List.{◌++◌, append_assoc, append-nil, map-append}
use Prim.Native.String.{◌++◌ as concat}

-- Column `column` of the table at index `index`, which is called `table`.
pub record Slot : Type 0 where
  pub table : String
  pub index : ℕ
  pub column : FieldInfo

abbrev pub slots_in : String → ℕ → StructInfo → ℕ → Fields → List Slot
slots_in table i info j end = []
slots_in table i info j (field h t fs) =
    let rest = slots_in table i info (suc j) fs in
    if (by_index info j).valid
    then record { table = table; index = i; column = by_index info j } ∷ rest
    else rest

abbrev slots_of : String → ℕ → GoType → Result (List Slot)
slots_of table i (struct n fs) =
    and_then (get_tag_names (struct n fs)) (λ info. ok (slots_in table i info 0 fs))
slots_of table i _ = err (msg "not a struct")

-- The positions of a nested struct, table by table, from the field at index `i`.
abbrev pub slots : StructInfo → ℕ → Fields → Result (List Slot)
slots info i end = ok []
slots info i (field h t fs) =
    let rest = slots info (suc i) fs in
    if (by_index info i).valid
    then and_then (slots_of (by_index info i).name i t)
        (λ here. and_then rest (λ later. ok (here ++ later)))
    else rest

-- How a position is written in the SELECT clause, and where its value goes.
abbrev pub written : Dialect → Slot → String
written d s = concat (escape d s.table) (concat "." (escape d s.column.name))

abbrev pub target : Dialect → Slot → ScanArg
target d s = scan_arg d s.column (s.index ∷ s.column.index ∷ [])

nested_columns-slots_in :
    (d : Dialect) (table : String) (i : ℕ) (info : StructInfo) (j : ℕ) (fs : Fields)
    → nested_columns d table info j fs ≡ map (written d) (slots_in table i info j fs)
unfolding nested_columns
nested_columns-slots_in d table i info j end = refl
nested_columns-slots_in d table i info j (field h t fs) =
    ground (arith, nested_columns-slots_in d table i info (suc j) fs)

nested_scan_args-slots_in :
    (d : Dialect) (table : String) (i : ℕ) (info : StructInfo) (j : ℕ) (fs : Fields)
    → nested_scan_args d i info j fs ≡ map (target d) (slots_in table i info j fs)
unfolding nested_scan_args
nested_scan_args-slots_in d table i info j end = refl
nested_scan_args-slots_in d table i info j (field h t fs) =
    ground (arith, nested_scan_args-slots_in d table i info (suc j) fs)

ok-map :
    {B : Type 0} (g : Slot → B) {ss ts : List Slot} {bs : List B}
    → ok ss ≡ ok ts
    → bs ≡ map g ss
    → ok bs ≡ ok (map g ts)
ok-map g h e = cc

columns_of-slots :
    (d : Dialect) (table : String) (i : ℕ) (t : GoType) (w : World)
    → IsFaithful w.tags
    → (ss : List Slot) → slots_of table i t ≡ ok ss
    → Does (columns_of d table t) w (ok (map (written d) ss))
unfolding columns_of
columns_of-slots d table i (struct n fs) w f ss h =
    let (info, read, here) = and_then-ok (get_tag_names (struct n fs)) _ h in
    Does-eq (ok-map (written d) here (nested_columns-slots_in d table i info 0 fs)) (
      rw read at (
        Does-bind {m = get_tag_info (struct n fs)}
          {f = λ info'. ok (nested_columns d table info' 0 fs)}
          (Does-get_tag_info (struct n fs) w f)
          (λ a _. Does-pure _ _ (get_tag_info-OnlyTags (struct n fs) w f).faithful)))
columns_of-slots d table i _ w f ss h = absurd (cc h)

scan_args_of-slots :
    (d : Dialect) (table : String) (i : ℕ) (t : GoType) (w : World)
    → IsFaithful w.tags
    → (ss : List Slot) → slots_of table i t ≡ ok ss
    → Does (scan_args_of d i t) w (ok (map (target d) ss))
unfolding scan_args_of
scan_args_of-slots d table i (struct n fs) w f ss h =
    let (info, read, here) = and_then-ok (get_tag_names (struct n fs)) _ h in
    Does-eq (ok-map (target d) here (nested_scan_args-slots_in d table i info 0 fs)) (
      rw read at (
        Does-bind {m = get_tag_info (struct n fs)}
          {f = λ info'. ok (nested_scan_args d i info' 0 fs)} (Does-get_tag_info (struct n fs) w f)
          (λ a _. Does-pure _ _ (get_tag_info-OnlyTags (struct n fs) w f).faithful)))
scan_args_of-slots d table i _ w f ss h = absurd (cc h)

regroup :
    {B : Type 0} (g : Slot → B) (acc : List B) (here later : List Slot) {ss : List Slot}
    → ss ≡ here ++ later
    → ok ((acc ++ map g here) ++ map g later) ≡ ok (acc ++ map g ss)
regroup g acc here later split = rw split (simp (append_assoc, map-append))

-- What `slots` found at a valid field, and after it.
slots_step :
    (info : StructInfo) (i : ℕ) (h : FieldHeader) (t : GoType) (fs : Fields) (ss : List Slot)
    → (by_index info i).valid ≡ true
    → slots info i (field h t fs) ≡ ok ss
    → (here : List Slot) × (later : List Slot) × (slots_of (by_index info i).name i t ≡ ok here)
      × (slots info (suc i) fs ≡ ok later)
      × (ss ≡ here ++ later)
slots_step info i h t fs ss there found =
    let (here, e, f) = and_then-ok (slots_of (by_index info i).name i t) _ (simp there at found) in
    let (later, e', f') = and_then-ok (slots info (suc i) fs) _ f in (here, later, e, e', cc f')

module _ (d : Dialect) where
  nested_fields-slots :
      (info : StructInfo) (i : ℕ) (fs : Fields) (acc : List String) (w : World)
      → IsFaithful w.tags
      → (ss : List Slot) → slots info i fs ≡ ok ss
      → Does (nested_fields d info i fs acc) w (ok (acc ++ map (written d) ss))
  unfolding nested_fields
  nested_fields-slots info i end acc w f ss h =
      Does-eq (ap ok (sym (append-nil acc)) ∙ cc h) (Does-pure (ok acc) w f)
  nested_fields-slots info i (field h t fs) acc w f ss found =
      elim (Bool-cases (by_index info i).valid) [
        | inr skip ↦ simp skip (nested_fields-slots info (suc i) fs acc w f ss (simp skip at found))
        | inl there ↦
            let (here, later, e, e', split) = slots_step info i h t fs ss there found in
            let first = columns_of-slots d (by_index info i).name i t w f here e in
            simp there (
              Does-eq (regroup (written d) acc here later split) (
                Does-bind {f = λ more. ok ((acc ++ more) ++ map (written d) later)} first (λ a _.
                  nested_fields-slots info (suc i) fs (acc ++ a) _ first.only_tags.faithful later
                    e')))
      ]

  scan_args-slots :
      (info : StructInfo) (i : ℕ) (fs : Fields) (acc : List ScanArg) (w : World)
      → IsFaithful w.tags
      → (ss : List Slot) → slots info i fs ≡ ok ss
      → Does (get_scan_args_for_nested_structs d info i fs acc) w (ok (acc ++ map (target d) ss))
  unfolding get_scan_args_for_nested_structs
  scan_args-slots info i end acc w f ss h =
      Does-eq (ap ok (sym (append-nil acc)) ∙ cc h) (Does-pure (ok acc) w f)
  scan_args-slots info i (field h t fs) acc w f ss found =
      elim (Bool-cases (by_index info i).valid) [
        | inr skip ↦ simp skip (scan_args-slots info (suc i) fs acc w f ss (simp skip at found))
        | inl there ↦
            let (here, later, e, e', split) = slots_step info i h t fs ss there found in
            let first = scan_args_of-slots d (by_index info i).name i t w f here e in
            simp there (
              Does-eq (regroup (target d) acc here later split) (
                Does-bind {f = λ more. ok ((acc ++ more) ++ map (target d) later)} first (λ a _.
                  scan_args-slots info (suc i) fs (acc ++ a) _ first.only_tags.faithful later e')))
      ]

-- If the nested struct's tagged fields are structs whose tags can be read, then over faithful
-- caches the SELECT clause that is built names the columns of the list of positions, in order, and
-- the arguments of Scan are the addresses of the same list, in the same order.
pub slots-align :
    (d : Dialect) (info : StructInfo) (fs : Fields) (ss : List Slot) (w w' : World)
    → IsFaithful w.tags
    → IsFaithful w'.tags
    → slots info 0 fs ≡ ok ss
    → ((build_select_query_for_nested_structs d fs info w).0
        ≡ ok (select_clause (map (written d) ss)))
      × ((get_scan_args_for_nested_structs d info 0 fs [] w').0 ≡ ok (map (target d) ss))
unfolding build_select_query_for_nested_structs
slots-align d info fs ss w w' f f' h = (
  ap (λ (x : Result String × World). x.0)
      (bind-ok (nested_fields d info 0 fs []) _ w
        (nested_fields-slots d info 0 fs [] w f ss h).returns),
  (scan_args-slots d info 0 fs [] w' f' ss h).returns,
)
