-- ===== src/Ksqltest/RoundTrip.antt =====
-- StructToMap, and FillStructWith of what it returns.
use ksql.Prelude.{
  ℕ, zero, suc, ◌⊎◌, String, ◌≡◌, refl, sym, ap, ◌∙◌, arith, none, some, true, false, ◌&&◌, eqb,
  inl, inr, Option-cases, Bool-cases, All, All-map, All-Permᴰ, [], ◌∷◌, length, get_elem?,
}
use ksql.Prelude.Dict.{Dict}
use ksql.Prelude.Result.{ok}
use ksql.Reflect.{
  Fields, FieldHeader, GoType, end, field, field_at, num_field, struct, Value, Values, ref, object,
  values,
}
use ksql.Structs.Info.{StructInfo, FieldInfo, by_index, by_name}
use ksql.Structs.Tags.{get_tag_names}
use ksql.Structs.Tags.Laws.{declared, by_name-by_index}
use ksql.Structs.Cache.{TagCache, IsFaithful}
use ksql.Structs.ToMap.{present, collect, struct_to_map}
use ksql.Structs.ToMap.Laws.{attribute, declared-by_index, collect-Mirrors, struct_to_map-collect}
use ksql.Convert.{Conversions, new_ptr_converter, convert}
use ksql.Db.Scanning.{zero_value, zero_values}
use ksql.Ksqltest.{Reflection, fill_struct_with}
use ksql.Ksqltest.Laws.{
  Converts, or_before, conversion, conversion-ok, written, fill_struct_with-written,
}
use ksql.Ksqltest.Entries.{IsAttribute, All-lookup, collect-All, typed_field}
use mathlib.Core.List.{Permᴰ}
use mathlib.Core.List.Permᴰ

length-zero_values : (fs : Fields) → length (values (zero_values fs)) ≡ num_field fs
unfolding zero_values
length-zero_values end = refl
length-zero_values (field h t fs) = ap suc (length-zero_values fs)

get_elem?-zero_values :
    (fs : Fields) (j : ℕ) (h : FieldHeader) (t : GoType)
    → field_at fs j ≡ some (h, t)
    → get_elem? (values (zero_values fs)) j ≡ some (zero_value t)
unfolding zero_values
get_elem?-zero_values end j h t e = absurd (cc e)
get_elem?-zero_values (field g u fs) zero h t e = ground arith
get_elem?-zero_values (field g u fs) (suc j) h t e = get_elem?-zero_values fs j h t e

declared_index : (fs : Fields) (i j : ℕ) (f : FieldInfo) → declared fs i j ≡ some f → f.index ≡ j
declared_index end i j f d = absurd (cc d)
declared_index (field h t fs) i j f d = ground (arith, declared_index fs (suc i) j f)

-- A value that converts back to the field's type, also when a pointer to it was followed, or a nil
-- pointer of that type.
pub record IsRestorable (conversions : Conversions) (t : GoType) (v : Value) : Type 0 where
  pub back : (w : Value) → present t v ≡ some w → convert conversions (new_ptr_converter w) t ≡ ok v
  pub nil : present t v ≡ none → v ≡ zero_value t

module _ (conversions : Conversions) (info : StructInfo) (fs : Fields) (j : ℕ) (v : Value) where
  -- Columns that write `v` to the field at `j`, or do not name it.
  abbrev Agrees : String × Value → Type 0
  Agrees (col, raw) =
      ((by_name info col).valid && eqb (by_name info col).index j) ≡ true
      → conversion conversions info fs (field_at fs j) raw ≡ some v

  abbrev Elsewhere : String × Value → Type 0
  Elsewhere (col, raw) = ((by_name info col).valid && eqb (by_name info col).index j) ≡ false

  -- Such columns write `v`, or none of them names the field.
  written-cases :
      (cols : Dict Value)
      → All Agrees cols
      → (written conversions info fs cols j ≡ some v)
        ⊎ ((written conversions info fs cols j ≡ none) × All Elsewhere cols)
  written-cases [] h = inr (refl, tt)
  written-cases ((col, raw) ∷ cols) (h, hs) = elim (written-cases cols hs) [
    | inl later ↦ inl (rw later refl)
    | inr (none_later, elsewhere) ↦
        elim (Bool-cases ((by_name info col).valid && eqb (by_name info col).index j)) [
          | inl names ↦ inl (rw none_later (rw names (h names)))
          | inr other ↦ inr (rw none_later (rw other refl), (other, elsewhere))
        ]
  ]

module _ (r : Reflection) (n : String) (fs : Fields) (ws : Values) (info : StructInfo)
    (read : get_tag_names (struct n fs) ≡ ok info) (plain : info.is_nested_struct ≡ false)
    (restorable : (l : ℕ) (t : GoType) (v : Value)
      → (by_index info l).valid ≡ true
      → attribute fs ws 0 l ≡ some (t, v)
      → IsRestorable r.conversions t v) where
  abbrev entries_of : Dict Value
  entries_of = collect info 0 fs ws []

  index_of :
      (l : ℕ) → (by_index info l).valid ≡ true → (by_name info (by_index info l).name).index ≡ l
  index_of l there =
      ap (λ (f : FieldInfo). f.index) (by_name-by_index n fs info read plain l there)
      ∙ declared_index fs 0 l (by_index info l) (declared-by_index n fs ws info read plain l there)

  entry-Converts :
      (p : String × Value)
      → IsAttribute info (attribute fs ws 0) p
      → Converts r.conversions info fs p
  entry-Converts (col, raw) (l, t, v, there, e, here, found) named =
      let i : (by_name info col).index ≡ l = rw e (index_of l there) in
      let (h, at) = typed_field fs ws l t v here in
      (h, t, v, rw i at, (restorable l t v there here).back raw found)

  module _ (j : ℕ) (t : GoType) (v : Value) (there : (by_index info j).valid ≡ true)
      (here : attribute fs ws 0 j ≡ some (t, v)) where
    entry-Agrees :
        (p : String × Value)
        → IsAttribute info (attribute fs ws 0) p
        → Agrees r.conversions info fs j v p
    entry-Agrees (col, raw) (l, u, w, valid, e, here', found) names =
        let i : (by_name info col).index ≡ l = rw e (index_of l valid) in
        let same : l ≡ j = ground arith in
        let one : (u ≡ t) × (w ≡ v) = ground (arith, rw same at here') in
        let (h, at) = typed_field fs ws j t v here in
        let followed : present t v ≡ some raw = rw (← one.0) (rw (← one.1) found) in
        rw at (
          conversion-ok r.conversions info fs h t raw v
            ((restorable j t v there here).back raw followed))

    entry-there :
        (w : Value)
        → present t v ≡ some w
        → All (Elsewhere r.conversions info fs j v) entries_of
        → ⊥
    entry-there w found elsewhere =
        let found_there =
          (collect-Mirrors n fs ws info read plain).declared_at j (by_index info j) t v
            (declared-by_index n fs ws info read plain j there) here
          ∙ found in
        let other =
          All-lookup (Elsewhere r.conversions info fs j v) (by_index info j).name w entries_of
            elsewhere found_there in
        let itself = by_name-by_index n fs info read plain j there in
        ground (arith, index_of j there)

  entries-All : All (IsAttribute info (attribute fs ws 0)) entries_of
  entries-All = collect-All info (attribute fs ws 0) 0 fs ws [] (λ l above. refl) tt

  module _ (shuffled : Permᴰ (r.visits entries_of) entries_of) where
    -- What the visits write to a tagged field is its attribute, and nothing if that is a nil
    -- pointer, which is what the zero value has.
    restored :
        (j : ℕ) (t : GoType) (v : Value)
        → (by_index info j).valid ≡ true
        → attribute fs ws 0 j ≡ some (t, v)
        → or_before (written r.conversions info fs (r.visits entries_of) j) (some (zero_value t))
          ≡ some v
    restored j t v there here =
        let agree = All-Permᴰ _ shuffled (
          All-map (IsAttribute info (attribute fs ws 0)) _ entries_of
            (entry-Agrees j t v there here) entries-All) in
        elim (written-cases r.conversions info fs j v (r.visits entries_of) agree) [
          | inl wrote ↦ rw wrote refl
          | inr (nothing, elsewhere) ↦ elim (Option-cases (present t v)) [
            | inl absent ↦ rw nothing (ap some (sym ((restorable j t v there here).nil absent)))
            | inr (w, found) ↦ absurd (
                entry-there j t v there here w found
                  (All-Permᴰ (Elsewhere r.conversions info fs j v) (Permᴰ.symm shuffled) elsewhere))
          ]
        ]

  -- For a struct whose `ksql` tags are read, over faithful caches, if every tagged attribute
  -- converts back to its field's type or is a nil pointer of that type, FillStructWith of a zero
  -- struct with the map that StructToMap returns succeeds and restores the attribute of each
  -- tagged field, in whatever order Go visits the map.
  pub fill_struct_with-struct_to_map :
      (visits_all : (m : Dict Value) → Permᴰ (r.visits m) m) (before after : TagCache)
      → IsFaithful before
      → IsFaithful after
      → (j : ℕ) (t : GoType) (v : Value) → (by_index info j).valid ≡ true
      → attribute fs ws 0 j ≡ some (t, v)
      → (m : Dict Value) × ((struct_to_map (ref (object n fs ws)) before).0 ≡ ok m)
        × ((fill_struct_with r m (ref (zero_value (struct n fs)), after)).0 ≡ ok tt)
        × ((us : Values) × ((fill_struct_with r m (ref (zero_value (struct n fs)), after)).1.0
              ≡ ref (object n fs us))
            × (get_elem? (values us) j ≡ some v))
  unfolding zero_value
  fill_struct_with-struct_to_map visits_all before after f g j t v there here =
      let shuffled = visits_all entries_of in
      let converts =
        All-Permᴰ _ shuffled (
          All-map (IsAttribute info (attribute fs ws 0)) _ entries_of entry-Converts entries-All) in
      let (succeeds, (us, record_, field_)) =
        fill_struct_with-written r n fs (zero_values fs) info read after g entries_of j
          (length-zero_values fs) converts in
      let (h, at) = typed_field fs ws j t v here in
      (
        entries_of,
        struct_to_map-collect n fs ws info read plain before f,
        succeeds,
        (
          us,
          record_,
          field_
              ∙ ap (or_before (written r.conversions info fs (r.visits entries_of) j))
                  (get_elem?-zero_values fs j h t at)
              ∙ restored shuffled j t v there here,
        ),
      )
