-- ===== src/Ksqltest/Laws.antt =====
-- What FillStructWith leaves in the fields of a record.
use ksql.Prelude.{
  ℕ, zero, suc, ◌<◌, String, ◌≡◌, refl, sym, ap, ◌∙◌, arith, Option, none, some, true, ◌&&◌, eqb,
  inl, inr, Bool-cases, if◌then◌else◌, All, [], ◌∷◌, length, get_elem?,
}
use ksql.Prelude.Dict.{Dict}
use ksql.Prelude.Result.{Result, ok, err, panic}
use ksql.Reflect.{
  Fields, end, field, FieldHeader, GoType, field_at, num_field, struct, Value, Values, ref, object,
  done, more, values, set_field,
}
use ksql.Structs.Info.{StructInfo, by_name}
use ksql.Structs.Cache.{TagCache, IsFaithful, get_cached_tag_info-eq-get_tag_names}
use ksql.Structs.Tags.{get_tag_names}
use ksql.Convert.{Conversions, new_ptr_converter, convert}
use ksql.Ksqltest.{
  Reflection, set_converted, set_column, fill_column, fill_columns, after_info, fill_object,
  fill_struct_with,
}

length-set_field :
    (vs : Values) (i : ℕ) (x : Value) → length (values (set_field vs i x)) ≡ length (values vs)
length-set_field done i x = refl
length-set_field (more v vs) zero x = refl
length-set_field (more v vs) (suc i) x = ap suc (length-set_field vs i x)

get_elem?-set_field :
    (vs : Values) (i j : ℕ) (x : Value)
    → i < length (values vs)
    → get_elem? (values (set_field vs i x)) j
      ≡ (if eqb i j then some x else get_elem? (values vs) j)
get_elem?-set_field done i j x h = absurd (omega arith)
get_elem?-set_field (more v vs) zero zero x h = refl
get_elem?-set_field (more v vs) zero (suc j) x h = ground arith
get_elem?-set_field (more v vs) (suc i) zero x h = ground arith
get_elem?-set_field (more v vs) (suc i) (suc j) x h = ground (arith, get_elem?-set_field vs i j x)

abbrev value_of : Result Value → Option Value
value_of (ok v) = some v
value_of (err e) = none
value_of (panic p) = none

abbrev pub or_before : Option Value → Option Value → Option Value
or_before none earlier = earlier
or_before (some v) earlier = some v

module _ (conversions : Conversions) (info : StructInfo) (fs : Fields) where
  -- What a column that names a field writes there: its value, converted to the field's type.
  abbrev pub conversion : Option (FieldHeader × GoType) → Value → Option Value
  conversion none raw = none
  conversion (some (h, t)) raw = value_of (convert conversions (new_ptr_converter raw) t)

  -- A column that, if it names a field, holds what converts to the field's type.
  abbrev pub Converts : String × Value → Type 0
  Converts (col, raw) =
      (by_name info col).valid ≡ true
      → (h : FieldHeader) × (t : GoType) × (v : Value) × (field_at fs (by_name info col).index
          ≡ some (h, t))
        × (convert conversions (new_ptr_converter raw) t ≡ ok v)

  -- What one column writes to the field at `j`.
  abbrev pub by_column : String → Value → ℕ → Option Value
  by_column col raw j =
      if (by_name info col).valid && eqb (by_name info col).index j
      then conversion (field_at fs j) raw
      else none

  -- What the columns, in the order of their visits, write to the field at `j`: the last that names
  -- it decides.
  abbrev pub written : Dict Value → ℕ → Option Value
  written [] j = none
  written ((col, raw) ∷ others) j = or_before (written others j) (by_column col raw j)

  field_at-below :
      (gs : Fields) (i : ℕ) (p : FieldHeader × GoType) → field_at gs i ≡ some p → i < num_field gs
  field_at-below end i p h = absurd (cc h)
  field_at-below (field h' t gs) zero p h = omega arith
  field_at-below (field h' t gs) (suc i) p h = let below = field_at-below gs i p h in omega arith

  pub conversion-ok :
      (h : FieldHeader) (t : GoType) (raw v : Value)
      → convert conversions (new_ptr_converter raw) t ≡ ok v
      → conversion (some (h, t)) raw ≡ some v
  conversion-ok h t raw v converts = ap value_of converts

  set_field-or_before :
      (i j : ℕ) (raw v : Value) (vs : Values) (h : FieldHeader) (t : GoType)
      → field_at fs i ≡ some (h, t)
      → convert conversions (new_ptr_converter raw) t ≡ ok v
      → i < length (values vs)
      → get_elem? (values (set_field vs i v)) j
        ≡ or_before
            (if eqb i j then conversion (field_at fs j) raw else none)
            (get_elem? (values vs) j)
  set_field-or_before i j raw v vs h t at converts below =
      get_elem?-set_field vs i j v below ∙ elim (Bool-cases (eqb i j)) [
        | inl same ↦
            let one : i ≡ j = ground arith in
            rw same (
              rw (← one) (
                rw at (
                  ap (λ o. or_before o (get_elem? (values vs) i))
                    (sym (conversion-ok h t raw v converts)))))
        | inr other ↦ rw other refl
      ]

  -- The state after one column.
  record Sets (col : String) (raw : Value) (vs : Values) : Type 0 where
    pub succeeds : (fill_column conversions info fs col raw vs).0 ≡ ok tt
    pub fields :
        (j : ℕ)
        → get_elem? (values (fill_column conversions info fs col raw vs).1) j
          ≡ or_before (by_column col raw j) (get_elem? (values vs) j)
    pub count : length (values (fill_column conversions info fs col raw vs).1) ≡ length (values vs)

  fill_column-Sets :
      (col : String) (raw : Value) (vs : Values)
      → length (values vs) ≡ num_field fs
      → Converts (col, raw)
      → Sets col raw vs
  unfolding fill_column set_column set_converted
  fill_column-Sets col raw vs n c = elim (Bool-cases (by_name info col).valid) [
    | inr other ↦ record {
      succeeds = rw other refl;
      fields = λ j. rw other refl;
      count = rw other refl;
    }
    | inl names ↦
        let (h, t, v, at, converts) = c names in
        let i = (by_name info col).index in
        record {
          succeeds = rw names (rw at (rw converts refl));
          fields = λ j. rw names (
              rw at (
                rw converts (
                  let below = field_at-below fs i (h, t) at in
                  set_field-or_before i j raw v vs h t at converts (omega arith))));
          count = rw names (rw at (rw converts (length-set_field vs i v)));
        }
  ]

  or_before_assoc :
      (a b c : Option Value) → or_before a (or_before b c) ≡ or_before (or_before a b) c
  or_before_assoc none b c = refl
  or_before_assoc (some v) b c = refl

  record AllSet (cols : Dict Value) (vs : Values) : Type 0 where
    pub succeeds : (fill_columns conversions info fs cols vs).0 ≡ ok tt
    pub fields :
        (j : ℕ)
        → get_elem? (values (fill_columns conversions info fs cols vs).1) j
          ≡ or_before (written cols j) (get_elem? (values vs) j)

  fill_columns-AllSet :
      (cols : Dict Value) (vs : Values)
      → length (values vs) ≡ num_field fs
      → All Converts cols
      → AllSet cols vs
  unfolding fill_columns
  fill_columns-AllSet [] vs n c = record { succeeds = refl; fields = λ j. refl }
  fill_columns-AllSet ((col, raw) ∷ others) vs n (c, cs) =
      let one = fill_column-Sets col raw vs n c in
      let next = (fill_column conversions info fs col raw vs).1 in
      let rest = fill_columns-AllSet others next (one.count ∙ n) cs in
      record {
        succeeds = rw one.succeeds rest.succeeds;
        fields = λ j. rw one.succeeds (
            rest.fields j
            ∙ ap (or_before (written others j)) (one.fields j)
            ∙ or_before_assoc (written others j) (by_column col raw j) (get_elem? (values vs) j));
      }

module _ (r : Reflection) (n : String) (fs : Fields) (vs : Values) (info : StructInfo)
    (read : get_tag_names (struct n fs) ≡ ok info) (cache : TagCache)
    (faithful : IsFaithful cache) where
  -- The fields as the loop over the columns leaves them.
  abbrev filled : Dict Value → Values
  filled row = (fill_columns r.conversions info fs (r.visits row) vs).1

  filled_object :
      (row : Dict Value)
      → ((fill_struct_with r row (ref (object n fs vs), cache)).0
          ≡ (fill_columns r.conversions info fs (r.visits row) vs).0)
        × ((fill_struct_with r row (ref (object n fs vs), cache)).1.0
            ≡ ref (object n fs (filled row)))
        × IsFaithful (fill_struct_with r row (ref (object n fs vs), cache)).1.1
  unfolding fill_struct_with after_info fill_object
  filled_object row =
      let tagged = get_cached_tag_info-eq-get_tag_names (struct n fs) cache faithful in
      rw (tagged.0) (rw read (refl, refl, tagged.1))

  -- For a struct with a value for each field whose tags are read, over a faithful cache, if every
  -- column that names a field holds what converts to its type, FillStructWith succeeds; each field
  -- then holds the converted value of the last column visited that names it, or what it held
  -- before.
  pub fill_struct_with-written :
      (row : Dict Value) (j : ℕ)
      → length (values vs) ≡ num_field fs
      → All (Converts r.conversions info fs) (r.visits row)
      → ((fill_struct_with r row (ref (object n fs vs), cache)).0 ≡ ok tt)
        × ((us : Values) × ((fill_struct_with r row (ref (object n fs vs), cache)).1.0
              ≡ ref (object n fs us))
            × (get_elem? (values us) j
                ≡ or_before
                    (written r.conversions info fs (r.visits row) j)
                    (get_elem? (values vs) j)))
  fill_struct_with-written row j sized converts =
      let set = fill_columns-AllSet r.conversions info fs (r.visits row) vs sized converts in
      let (result, record_, _) = filled_object row in
      (result ∙ set.succeeds, (filled row, record_, set.fields j))
