-- ===== src/Sql/Select/Sound.antt =====
-- The SELECT clause as a function of the dialect and the type, with no cache, and the caches that
-- hold nothing else.
use ksql.Prelude.{
  ℕ, suc, String, ◌≡◌, refl, ap, sym, ◌∙◌, Option, none, some, List, [], ◌∷◌, ◌==◌, eq_iff,
  if◌then◌else◌, Bool-cases, inl, inr,
}
use ksql.Prelude.Dict.{lookup, insert, lookup-insert}
use ksql.Prelude.Result.{and_then, Result, ok, err, panic, msg}
use ksql.Prelude.Action.{continue}
use ksql.Reflect.{GoType, Fields, end, field, struct, same_type, same_type_iff}
use ksql.Structs.Info.{StructInfo, by_index}
use ksql.Structs.Tags.{get_tag_names}
use ksql.Structs.Cache.{IsFaithful, empty-IsFaithful}
use ksql.World.{World, SelectEntry, SelectCache, clause, other}
use ksql.World.Laws.{Does, Does-bind, Does-pure, Does-get_tag_info, get_tag_info-OnlyTags, OnlyTags}
use ksql.Dialect.{Dialect, postgres, sqlite3, mysql, sqlserver, driver_name}
use ksql.Dialect.Laws.{driver_name_inj}
use ksql.Sql.Select.{
  select_clause, nested_columns, columns_of, nested_fields, build_select_query_for_plain_structs,
  build_select_query_for_nested_structs, fresh_clause, initialize_query_cache, load, add_clause,
  store, select_found, select_from, build_select_query,
}
use mathlib.Core.Path.{subst}
use mathlib.Core.List.{◌++◌}

abbrev columns_in : Dialect → String → GoType → Result (List String)
columns_in d table (struct n fs) =
    and_then (get_tag_names (struct n fs)) (λ info. ok (nested_columns d table info 0 fs))
columns_in d table _ = err (msg "expected nested struct with `tablename` to be a kind of Struct")

abbrev fields_in : Dialect → StructInfo → ℕ → Fields → List String → Result (List String)
fields_in d info i end fields = ok fields
fields_in d info i (field h t fs) fields =
    if (by_index info i).valid
    then and_then (columns_in d (by_index info i).name t)
        (λ more. fields_in d info (suc i) fs (fields ++ more))
    else fields_in d info (suc i) fs fields

abbrev text_for : Dialect → GoType → StructInfo → Result String
text_for d (struct n fs) info =
    if info.is_nested_struct
    then and_then (fields_in d info 0 fs []) (λ fields. ok (select_clause fields))
    else ok (build_select_query_for_plain_structs d fs info)
text_for d _ info = panic "reflect: NumField of non-struct type"

-- The SELECT clause of a dialect for a type.
abbrev pub clause_for : Dialect → GoType → Result String
clause_for d t = and_then (get_tag_names t) (text_for d t)

module _ (d : Dialect) where
  Does-columns_of :
      (table : String) (t : GoType) (w : World)
      → IsFaithful w.tags
      → Does (columns_of d table t) w (columns_in d table t)
  unfolding columns_of
  Does-columns_of table (struct n fs) w f =
      Does-bind {f = λ info. ok (nested_columns d table info 0 fs)}
        (Does-get_tag_info (struct n fs) w f)
        (λ a _. Does-pure _ _ (get_tag_info-OnlyTags (struct n fs) w f).faithful)
  Does-columns_of table _ w f = Does-pure _ w f

  Does-nested_fields :
      (info : StructInfo) (i : ℕ) (fs : Fields) (fields : List String) (w : World)
      → IsFaithful w.tags
      → Does (nested_fields d info i fs fields) w (fields_in d info i fs fields)
  unfolding nested_fields
  Does-nested_fields info i end fields w f = Does-pure (ok fields) w f
  Does-nested_fields info i (field h t fs) fields w f = elim (Bool-cases (by_index info i).valid) [
    | inr skip ↦ simp skip (Does-nested_fields info (suc i) fs fields w f)
    | inl there ↦
        let first = Does-columns_of (by_index info i).name t w f in
        simp there (
          Does-bind {f = λ more. fields_in d info (suc i) fs (fields ++ more)} first
            (λ a _. Does-nested_fields info (suc i) fs (fields ++ a) _ first.only_tags.faithful))
  ]

  Does-fresh_clause :
      (t : GoType) (info : StructInfo) (w : World)
      → IsFaithful w.tags
      → Does (fresh_clause d t info) w (text_for d t info)
  unfolding fresh_clause build_select_query_for_nested_structs
  Does-fresh_clause (struct n fs) info w f = elim (Bool-cases info.is_nested_struct) [
    | inr plain ↦ simp plain (Does-pure _ w f)
    | inl nested ↦
        let first = Does-nested_fields info 0 fs [] w f in
        simp nested (
          Does-bind {f = λ fields. ok (select_clause fields)} first
            (λ a _. Does-pure _ _ first.only_tags.faithful))
  ]
  Does-fresh_clause _ info w f = Does-pure _ w f

-- Each entry is the clause of its type.
abbrev pub HasClauses : Dialect → SelectCache → Type 0
HasClauses d cache =
    (t : GoType) (e : SelectEntry)
    → load t cache ≡ some e
    → (s : String) × (e ≡ clause s) × (clause_for d t ≡ ok s)

-- The two caches hold what is true of the types, and every dialect has its cache.
pub record IsSound (w : World) : Type 0 where
  pub tags : IsFaithful w.tags
  pub selects :
      (d : Dialect)
      → (cache : SelectCache) × (lookup (driver_name d) w.selects ≡ some cache) × HasClauses d cache

add_clause-IsSound :
    (d : Dialect) (t : GoType) (s : String) (w : World)
    → clause_for d t ≡ ok s
    → IsSound w
    → IsSound (add_clause d t s w)
unfolding add_clause load
add_clause-IsSound d t s w is h =
    let (cache, here, has) = h.selects d in
    rw (here, add_clause) (record { tags = h.tags; selects = λ e. with_clause cache has e })
  where
    -- the cache of the dialect, with one entry more
    longer : (cache : SelectCache) → HasClauses d cache → HasClauses d ((t, clause s) ∷ cache)
    longer cache has k x found = elim (Bool-cases (same_type t k)) [
      | inl same ↦ (s, cc (rw same at found), rw (← (same_type_iff t k).0 same) is)
      | inr different ↦ has k x (rw different at found)
    ]

    with_clause :
        (cache : SelectCache)
        → HasClauses d cache
        → (e : Dialect)
        → (other_cache : SelectCache) × (lookup
              (driver_name e)
              (insert (driver_name d) ((t, clause s) ∷ cache) w.selects)
            ≡ some other_cache)
          × HasClauses e other_cache
    with_clause cache has e = elim (Bool-cases (driver_name d == driver_name e)) [
      | inl same ↦
          let same_dialect =
            driver_name_inj d e ((eq_iff (driver_name d) (driver_name e)).0 same) in
          (
            (t, clause s) ∷ cache,
            rw (lookup-insert, same) refl,
            subst (λ x. HasClauses x ((t, clause s) ∷ cache)) same_dialect (longer cache has),
          )
      | inr different ↦
          let (kept, there, has_kept) = h.selects e in
          (kept, rw (lookup-insert, different) there, has_kept)
    ]

pub initial-IsSound : IsSound (record { tags = []; selects = initialize_query_cache; log = [] })
unfolding initialize_query_cache load lookup driver_name
initial-IsSound = record {
  tags = empty-IsFaithful;
  selects = λ d. ([], there d, λ t e found. absurd (cc found));
}
  where
    there : (d : Dialect) → lookup (driver_name d) initialize_query_cache ≡ some []
    there postgres = refl
    there sqlite3 = refl
    there mysql = refl
    there sqlserver = refl

pub OnlyTags-IsSound : {w w' : World} → OnlyTags w w' → IsSound w → IsSound w'
OnlyTags-IsSound {w} {w'} o h = record {
  tags = o.faithful;
  selects = λ d.
      subst
        (λ m. (cache : SelectCache) × (lookup (driver_name d) m ≡ some cache) × HasClauses d cache)
        (sym o.selects) (h.selects d);
}

module _ (d : Dialect) (t : GoType) (info : StructInfo) (read : get_tag_names t ≡ ok info)
    (w : World) (h : IsSound w) where
  is_clause : {r : Result String} → text_for d t info ≡ r → clause_for d t ≡ r
  is_clause e = ap (λ r. and_then r (text_for d t)) read ∙ e

  fresh : Does (fresh_clause d t info) w (text_for d t info)
  fresh = Does-fresh_clause d t info w h.tags

  stored :
      (r : Result String)
      → text_for d t info ≡ r
      → ((continue r (store d t) (fresh_clause d t info w).1).0 ≡ clause_for d t)
        × IsSound (continue r (store d t) (fresh_clause d t info w).1).1
  unfolding store
  stored (ok s) e = (
    sym (is_clause e),
    add_clause-IsSound d t s _ (is_clause e) (OnlyTags-IsSound fresh.only_tags h),
  )
  stored (err x) e = (sym (is_clause e), OnlyTags-IsSound fresh.only_tags h)
  stored (panic p) e = (sym (is_clause e), OnlyTags-IsSound fresh.only_tags h)

  -- For a type whose tags are read, over caches that hold only what is true of the types,
  -- buildSelectQuery returns what it would write with no cache at all, an error included, and
  -- leaves such caches.
  pub build_select_query-refines :
      ((build_select_query d t info w).0 ≡ clause_for d t)
      × IsSound (build_select_query d t info w).1
  unfolding build_select_query select_from
  build_select_query-refines =
      let (cache, here, has) = h.selects d in rw here (by_entry (load t cache) (λ e. has t e))
    where
      by_entry :
          (o : Option SelectEntry)
          → ((e : SelectEntry)
              → o ≡ some e
              → (s : String) × (e ≡ clause s) × (clause_for d t ≡ ok s))
          → ((select_found o d t info w).0 ≡ clause_for d t) × IsSound (select_found o d t info w).1
      by_entry none has =
          subst
            (λ (r : Result String).
              ((continue r (store d t) (fresh_clause d t info w).1).0 ≡ clause_for d t)
              × IsSound (continue r (store d t) (fresh_clause d t info w).1).1)
            (sym fresh.returns) (stored (text_for d t info) refl)
      by_entry (some (clause query)) has =
          let (s, e, is) = has (clause query) refl in (cc (e, is), h)
      by_entry (some other) has = let (s, e, is) = has other refl in absurd (cc e)
