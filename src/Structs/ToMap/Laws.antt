-- ===== src/Structs/ToMap/Laws.antt =====
-- What StructToMap returns for a struct with `ksql` tags.
use ksql.Prelude.{
  ℕ, suc, ◌≤◌, String, ◌≡◌, ◌≢◌, refl, true, false, Option, none, some, [], eqb, eq_iff, arith, ap,
  sym, if◌then◌else◌, Option-cases, Bool-cases, inl, inr,
}
use mathlib.Core.Path.{◌∙◌}
use mathlib.Core.Bool.{false≢true}
use native.Mathlib.Decide.{ℕ_discrete}
use ksql.Prelude.Dict.{Dict, lookup, lookup-insert}
use ksql.Prelude.Result.{ok}
use ksql.Reflect.{
  GoType, Fields, FieldHeader, end, field, struct, Value, Values, ref, object, done, more,
}
use ksql.Structs.Info.{StructInfo, FieldInfo, by_index, or_invalid}
use ksql.Structs.Tags.{get_tag_names}
use ksql.Structs.Tags.Laws.{declared, declared_inj, by_index-get_tag_names}
use ksql.Structs.Cache.{TagCache, IsFaithful, get_cached_tag_info-eq-get_tag_names}
use ksql.Structs.ToMap.{present, put_field, collect, map_object, map_pointee, struct_to_map}

-- The field at index `j`, where fields and values are numbered from `i`.
abbrev pub attribute : Fields → Values → ℕ → ℕ → Option (GoType × Value)
attribute end vs i j = none
attribute (field h t fs) done i j = none
attribute (field h t fs) (more v vs) i j =
    if eqb i j then some (t, v) else attribute fs vs (suc i) j

abbrev Other : StructInfo → String → ℕ → Type 0
Other info k j = (by_index info j).valid ≡ true → (by_index info j).name ≢ k

lookup-put_field_ne :
    (info : StructInfo) (k : String) (i : ℕ) (t : GoType) (v : Value) (m : Dict Value)
    → Other info k i
    → lookup k (put_field (by_index info i) t v m) ≡ lookup k m
unfolding put_field
lookup-put_field_ne info k i t v m other = elim (Bool-cases (by_index info i).valid) [
  | inr skip ↦ rw skip
  | inl there ↦ elim (Option-cases (present t v)) [
    | inl absent ↦ rw (there, absent)
    | inr (w, found) ↦
        rw (there, found)
          (ground (
            arith,
            other there,
            lookup-insert (by_index info i).name k w m,
            eq_iff (by_index info i).name k,
          ))
  ]
]

lookup-collect_ne :
    (info : StructInfo) (k : String) (i : ℕ) (fs : Fields) (vs : Values) (m : Dict Value)
    → ((j : ℕ) → i ≤ j → Other info k j)
    → lookup k (collect info i fs vs m) ≡ lookup k m
unfolding collect
lookup-collect_ne info k i end vs m other = refl
lookup-collect_ne info k i (field h t fs) done m other = refl
lookup-collect_ne info k i (field h t fs) (more v vs) m other =
    lookup-collect_ne info k (suc i) fs vs _ (λ j p. other j (omega arith))
    ∙ lookup-put_field_ne info k i t v m (other i (omega arith))

lookup-put_field_self :
    (info : StructInfo) (i : ℕ) (t : GoType) (v : Value) (m : Dict Value)
    → (by_index info i).valid ≡ true
    → lookup (by_index info i).name m ≡ none
    → lookup (by_index info i).name (put_field (by_index info i) t v m) ≡ present t v
unfolding put_field
lookup-put_field_self info i t v m there fresh = rw there (elim (Option-cases (present t v)) [
  | inl absent ↦ rw absent fresh
  | inr (w, found) ↦ rw found (
      ground (
        arith,
        lookup-insert (by_index info i).name (by_index info i).name w m,
        eq_iff (by_index info i).name (by_index info i).name,
      ))
])

lookup-collect_head :
    (info : StructInfo) (i : ℕ) (h : FieldHeader) (t : GoType) (fs : Fields) (v : Value)
    (vs : Values) (m : Dict Value)
    → (by_index info i).valid ≡ true
    → ((l : ℕ) → l ≢ i → Other info (by_index info i).name l)
    → lookup (by_index info i).name m ≡ none
    → lookup (by_index info i).name (collect info i (field h t fs) (more v vs) m) ≡ present t v
unfolding collect
lookup-collect_head info i h t fs v vs m there other fresh =
    lookup-collect_ne info (by_index info i).name (suc i) fs vs _ (λ l p. other l (omega arith))
    ∙ lookup-put_field_self info i t v m there fresh

lookup-collect :
    (info : StructInfo) (i : ℕ) (fs : Fields) (vs : Values) (m : Dict Value) (j : ℕ) (t : GoType)
    (v : Value)
    → attribute fs vs i j ≡ some (t, v)
    → (by_index info j).valid ≡ true
    → ((l : ℕ) → l ≢ j → Other info (by_index info j).name l)
    → lookup (by_index info j).name m ≡ none
    → lookup (by_index info j).name (collect info i fs vs m) ≡ present t v
unfolding collect
lookup-collect info i end vs m j t v at there other fresh = absurd (cc at)
lookup-collect info i (field h u fs) done m j t v at there other fresh = absurd (cc at)
lookup-collect info i (field h u fs) (more w vs) m j t v at there other fresh =
    elim (ℕ_discrete i j) [
      | yes here ↦
          let head =
            lookup-collect_head info i h u fs w vs m (rw here there) (rw here other)
              (rw here fresh) in
          let values_eq : (u ≡ t) × (w ≡ v) = ground arith in
          cc (head, here, values_eq.0, values_eq.1)
      | no there' ↦
          lookup-collect info (suc i) fs vs _ j t v (ground arith) there other
            (lookup-put_field_ne info (by_index info j).name i u w m (other i there') ∙ fresh)
    ]

pub declared_valid :
    (fs : Fields) (i j : ℕ) (f : FieldInfo) → declared fs i j ≡ some f → f.valid ≡ true
declared_valid end i j f d = absurd (cc d)
declared_valid (field h t fs) i j f d = ground (arith, declared_valid fs (suc i) j f)

-- The entries of a map are the attributes of a struct under the names that its tags declare.
pub record Mirrors (fs : Fields) (vs : Values) (m : Dict Value) : Type 0 where
  pub declared_at :
      (j : ℕ) (f : FieldInfo) (t : GoType) (v : Value)
      → declared fs 0 j ≡ some f
      → attribute fs vs 0 j ≡ some (t, v)
      → lookup f.name m ≡ present t v
  pub nothing_else :
      (k : String)
      → ((j : ℕ) (f : FieldInfo) → declared fs 0 j ≡ some f → f.name ≢ k)
      → lookup k m ≡ none

module _ (n : String) (fs : Fields) (vs : Values) (info : StructInfo)
    (read : get_tag_names (struct n fs) ≡ ok info) (plain : info.is_nested_struct ≡ false) where
  pub by_index-declared : (j : ℕ) (f : FieldInfo) → declared fs 0 j ≡ some f → by_index info j ≡ f
  by_index-declared j f d = by_index-get_tag_names n fs info read plain j ∙ ap or_invalid d

  pub declared-by_index :
      (j : ℕ) → (by_index info j).valid ≡ true → declared fs 0 j ≡ some (by_index info j)
  declared-by_index j there = elim (Option-cases (declared fs 0 j)) [
    | inl absent ↦ absurd (
        false≢true (
          cc (
            ap (λ (g : FieldInfo). g.valid) (by_index-get_tag_names n fs info read plain j),
            ap or_invalid absent,
            there,
          )))
    | inr (f, d) ↦ d ∙ ap some (sym (by_index-declared j f d))
  ]

  valid : (j : ℕ) (f : FieldInfo) → declared fs 0 j ≡ some f → (by_index info j).valid ≡ true
  valid j f d =
      ap (λ (g : FieldInfo). g.valid) (by_index-declared j f d) ∙ declared_valid fs 0 j f d

  pub collect-Mirrors : Mirrors fs vs (collect info 0 fs vs [])
  unfolding lookup
  collect-Mirrors = record {
    declared_at = λ j f t v d at.
        let e = by_index-declared j f d in
        rw (← e) (
          lookup-collect info 0 fs vs [] j t v at (valid j f d)
            (λ l apart there same. apart (
              declared_inj n fs info read plain l j (by_index info l) (by_index info j)
                (declared-by_index l there) (declared-by_index j (valid j f d)) same))
            refl);
    nothing_else = λ k none_of.
        lookup-collect_ne info k 0 fs vs []
          (λ j _ there same. none_of j (by_index info j) (declared-by_index j there) same);
  }

  module _ (cache : TagCache) (faithful : IsFaithful cache) where
    map_object-returns : (map_object n fs vs cache).0 ≡ ok (collect info 0 fs vs [])
    unfolding map_object
    map_object-returns =
        rw
          ((get_cached_tag_info-eq-get_tag_names (struct n fs) cache faithful).0 ∙ read, map_object)

    pub struct_to_map-collect :
        (struct_to_map (ref (object n fs vs)) cache).0 ≡ ok (collect info 0 fs vs [])
    unfolding struct_to_map map_pointee
    struct_to_map-collect = map_object-returns

    -- For a struct whose `ksql` tags are read without an error, over a faithful cache, StructToMap
    -- of the struct and of a pointer to it return the same map, which has under each tag's name
    -- the attribute, followed through a pointer and absent if that is nil, and nothing under other
    -- names.
    pub struct_to_map-Mirrors :
        (m : Dict Value) × ((struct_to_map (object n fs vs) cache).0 ≡ ok m)
        × ((struct_to_map (ref (object n fs vs)) cache).0 ≡ ok m)
        × Mirrors fs vs m
    unfolding struct_to_map map_pointee
    struct_to_map-Mirrors =
        (collect info 0 fs vs [], map_object-returns, map_object-returns, collect-Mirrors)
