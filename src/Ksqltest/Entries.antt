-- ===== src/Ksqltest/Entries.antt =====
-- Where the entries of the map that StructToMap returns come from.
use ksql.Prelude.{
  ℕ, zero, suc, ◌+◌, ◌≤◌, String, ◌≡◌, refl, arith, Option, some, true, inl, inr, Bool-cases,
  Option-cases, eq_iff, ◌==◌, All, [], ◌∷◌,
}
use ksql.Prelude.Dict.{Dict, lookup, insert}
use ksql.Reflect.{Fields, FieldHeader, GoType, end, field, field_at, Value, Values, done, more}
use ksql.Structs.Info.{StructInfo, by_index}
use ksql.Structs.ToMap.{present, put_field, collect}
use ksql.Structs.ToMap.Laws.{attribute}

All-insert :
    {V : Type 0} (P : String × V → Type 0) (k : String) (v : V) (m : Dict V)
    → P (k, v)
    → All P m
    → All P (insert k v m)
unfolding insert
All-insert P k v [] p h = (p, tt)
All-insert P k v ((j, u) ∷ m) p (h, hs) = elim (Bool-cases (j == k)) [
  | inl same ↦ rw same (p, hs)
  | inr other ↦ rw other (h, All-insert P k v m p hs)
]

pub All-lookup :
    {V : Type 0} (P : String × V → Type 0) (k : String) (v : V) (m : Dict V)
    → All P m
    → lookup k m ≡ some v
    → P (k, v)
unfolding lookup
All-lookup P k v [] h e = absurd (cc e)
All-lookup P k v ((j, u) ∷ m) (h, hs) e = elim (Bool-cases (j == k)) [
  | inl same ↦
      let key : j ≡ k = (eq_iff j k).0 same in
      let entry : u ≡ v = ground (arith, rw same at e) in rw (← key) (rw (← entry) h)
  | inr other ↦ All-lookup P k v m hs (ground (arith, rw other at e))
]

-- An entry that is the attribute of a tagged field, under the name in its tag.
abbrev pub IsAttribute : StructInfo → (ℕ → Option (GoType × Value)) → String × Value → Type 0
IsAttribute info at (col, raw) =
    (l : ℕ) × (t : GoType) × (v : Value) × ((by_index info l).valid ≡ true)
    × (col ≡ (by_index info l).name)
    × (at l ≡ some (t, v))
    × (present t v ≡ some raw)

module _ (info : StructInfo) (at : ℕ → Option (GoType × Value)) where
  put_field-All :
      (i : ℕ) (t : GoType) (v : Value) (m : Dict Value)
      → at i ≡ some (t, v)
      → All (IsAttribute info at) m
      → All (IsAttribute info at) (put_field (by_index info i) t v m)
  unfolding put_field
  put_field-All i t v m here h = elim (Bool-cases (by_index info i).valid) [
    | inr skip ↦ rw skip h
    | inl there ↦ elim (Option-cases (present t v)) [
      | inl absent ↦ rw (there, absent) h
      | inr (w, found) ↦
          rw (there, found)
            (All-insert (IsAttribute info at) (by_index info i).name w m
              (i, t, v, there, refl, here, found) h)
    ]
  ]

  pub collect-All :
      (i : ℕ) (fs : Fields) (vs : Values) (m : Dict Value)
      → ((l : ℕ) → i ≤ l → attribute fs vs i l ≡ at l)
      → All (IsAttribute info at) m
      → All (IsAttribute info at) (collect info i fs vs m)
  unfolding collect
  collect-All i end vs m same h = h
  collect-All i (field g t fs) done m same h = h
  collect-All i (field g t fs) (more v vs) m same h =
      collect-All (suc i) fs vs _ (λ l above. ground (arith, same l))
        (put_field-All i t v m (ground (arith, same i)) h)

pub field_at-attribute :
    (fs : Fields) (vs : Values) (i l : ℕ) (t : GoType) (v : Value)
    → attribute fs vs i (i + l) ≡ some (t, v)
    → (h : FieldHeader) × (field_at fs l ≡ some (h, t))
field_at-attribute end vs i l t v e = absurd (cc e)
field_at-attribute (field h u fs) done i l t v e = absurd (cc e)
field_at-attribute (field h u fs) (more w vs) i zero t v e = (h, ground arith)
field_at-attribute (field h u fs) (more w vs) i (suc l) t v e =
    field_at-attribute fs vs (suc i) l t v
      (let shift : suc i + l ≡ i + suc l = omega arith in rw shift (ground arith))

pub typed_field :
    (fs : Fields) (vs : Values) (l : ℕ) (t : GoType) (v : Value)
    → attribute fs vs 0 l ≡ some (t, v)
    → (h : FieldHeader) × (field_at fs l ≡ some (h, t))
typed_field fs vs l t v e =
    field_at-attribute fs vs 0 l t v (let same : 0 + l ≡ l = omega arith in rw same e)
