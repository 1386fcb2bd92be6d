-- ===== src/Kbuilder/Insert/Written.antt =====
-- What the INSERT builder writes of records whose fields are known.
use ksql.Prelude.{
  ℕ, ◌+◌, String, ◌≡◌, refl, ap, sym, ◌∙◌, Bool, false, List, [], ◌∷◌, length, All, map,
  length-append, ◌==◌,
}
use ksql.Prelude.Result.{ok}
use ksql.Reflect.{Fields, GoType, Value, Values, done, more, values, null, struct, type_of, is_ptr}
use ksql.Structs.Info.{StructInfo, num_fields}
use ksql.Structs.Cache.{get_cached_tag_info}
use ksql.Kbuilder.Query.{Caches, pointed_type}
use ksql.Dialect.{Dialect, placeholder}
use ksql.Kbuilder.Insert.{
  Insert, elements, element_type, field_value, fields_of, record_loop, records_loop, insert_text,
  write_records, tag_info, of_type, of_elements, of_data, build_query,
}
use ksql.Kbuilder.Insert.Laws.{placeholders, one_longer}
use mathlib.Core.Path.{ap₂}
use mathlib.Core.List.{◌++◌, append_assoc, append-nil, flatten}

-- A record beside the values of its first `n` fields, behind its pointer if it is one.
abbrev pub Begins : Bool → ℕ → Value × List Value → Type 0
Begins by_ptr n (record_, row) =
    (vs : Values) × (rest : List Value) × (fields_of by_ptr record_ ≡ ok vs)
    × (values vs ≡ row ++ rest)
    × (length row ≡ n)

-- The placeholders of each record, `n` of them, from index `i`.
abbrev pub tuples : Dialect → ℕ → ℕ → List (Value × List Value) → List (List String)
tuples d i n [] = []
tuples d i n (k ∷ ks) = placeholders d i n ∷ tuples d (i + n) n ks

-- The query and its params.
abbrev pub written : Dialect → String → StructInfo → List (Value × List Value) → String × List Value
written d into info ks =
    (insert_text d into info (tuples d 0 (num_fields info) ks), flatten (map (λ k. k.1) ks))

field_value-values :
    (vs : Values) (before : List Value) (v : Value) (rest : List Value)
    → values vs ≡ before ++ (v ∷ rest)
    → field_value vs (length before) ≡ ok v
unfolding field_value
field_value-values done [] v rest e = absurd (cc e)
field_value-values done (b ∷ before) v rest e = absurd (cc e)
field_value-values (more x vs) [] v rest e = cc e
field_value-values (more x vs) (b ∷ before) v rest e = field_value-values vs before v rest (cc e)

record_loop-row :
    (d : Dialect) (vs : Values) (before row rest params : List Value)
    → values vs ≡ before ++ (row ++ rest)
    → record_loop d vs (length before) (length row) params
      ≡ ok (placeholders d (length params) (length row), params ++ row)
unfolding record_loop
record_loop-row d vs before [] rest params e = ap (λ l. ok ([], l)) (sym (append-nil params))
record_loop-row d vs before (v ∷ row) rest params e =
    let later =
      record_loop-row d vs (before ++ (v ∷ [])) row rest (params ++ (v ∷ []))
        (e ∙ sym (append_assoc before (v ∷ []) (row ++ rest))) in
    let numbers = one_longer before v in
    rw (field_value-values vs before v (row ++ rest) e) (
      rw (ap (λ k. record_loop d vs k (length row) (params ++ (v ∷ []))) (sym numbers) ∙ later) (
        ap₂ (λ k l. ok (placeholder d (length params) ∷ placeholders d k (length row), l))
          (one_longer params v) (append_assoc params (v ∷ []) row)))

module _ (d : Dialect) where
  record_loop-counted :
      (vs : Values) (n : ℕ) (row rest params : List Value)
      → values vs ≡ row ++ rest
      → length row ≡ n
      → record_loop d vs 0 n params ≡ ok (placeholders d (length params) n, params ++ row)
  record_loop-counted vs n row rest params split counted =
      ap (λ m. record_loop d vs 0 m params) (sym counted)
      ∙ record_loop-row d vs [] row rest params split
      ∙ ap (λ m. ok (placeholders d (length params) m, params ++ row)) counted

  records_loop-tuples :
      (by_ptr : Bool) (n : ℕ) (ks : List (Value × List Value)) (params : List Value)
      → All (λ k. Begins by_ptr n k) ks
      → records_loop d by_ptr n (map (λ k. k.0) ks) params
        ≡ ok (tuples d (length params) n ks, params ++ flatten (map (λ k. k.1) ks))
  unfolding records_loop flatten
  records_loop-tuples by_ptr n [] params h = ap (λ l. ok ([], l)) (sym (append-nil params))
  records_loop-tuples by_ptr n (k ∷ ks) params ((vs, rest, known, split, counted), hs) =
      let more_ = flatten (map (λ k. k.1) ks) in
      let reached : length (params ++ k.1) ≡ length params + n =
        length-append params k.1 ∙ ap (λ m. length params + m) counted in
      rw known (
        rw (record_loop-counted vs n k.1 rest params split counted) (
          rw (records_loop-tuples by_ptr n ks (params ++ k.1) hs) (
            ap₂ (λ m l. ok (placeholders d (length params) n ∷ tuples d m n ks, l)) reached
              (append_assoc params k.1 more_))))

  module _ (m : String) (fs : Fields) (info : StructInfo) (k : Value × List Value)
      (ks : List (Value × List Value)) where
    of_elements-writes :
        (into : String) (t : GoType) (rs : List Value) (caches : Caches)
        → rs ≡ map (λ k. k.0) (k ∷ ks)
        → pointed_type t ≡ struct m fs
        → (get_cached_tag_info (struct m fs) caches.tags).0 ≡ ok info
        → All (λ k. Begins (is_ptr t) (num_fields info) k) (k ∷ ks)
        → (of_elements d into t rs caches).0 ≡ ok (written d into info (k ∷ ks))
    unfolding of_elements of_type tag_info write_records
    of_elements-writes into t rs caches listed typed known h =
        rw listed
          (rw typed (rw known (rw (records_loop-tuples _ (num_fields info) (k ∷ ks) [] h) refl)))

    of_data-writes :
        (into : String) (v : Value) (caches : Caches)
        → elements v ≡ map (λ k. k.0) (k ∷ ks)
        → pointed_type (element_type (type_of v)) ≡ struct m fs
        → (get_cached_tag_info (struct m fs) caches.tags).0 ≡ ok info
        → All (λ k. Begins (is_ptr (element_type (type_of v))) (num_fields info) k) (k ∷ ks)
        → (of_data d into v caches).0 ≡ ok (written d into info (k ∷ ks))
    unfolding of_data element_type
    of_data-writes into null caches listed typed known h = absurd (cc typed)
    of_data-writes into v caches listed typed known h =
        of_elements-writes into (element_type (type_of v)) (elements v) caches listed typed known h

    -- If the table of an Insert has a name and its data is a record or a list of records, or
    -- pointers to them, of a struct type whose tags are read, with at least as many fields as are
    -- tagged, BuildQuery returns the INSERT statement of the columns with, for each record, a
    -- tuple of placeholders numbered from 0 through all the tuples, and its params are the first
    -- fields of the records, as many of each as are tagged, in order.
    pub build_query-writes :
        (i : Insert) (caches : Caches)
        → (i.into == "") ≡ false
        → elements i.data_ ≡ map (λ k. k.0) (k ∷ ks)
        → pointed_type (element_type (type_of i.data_)) ≡ struct m fs
        → (get_cached_tag_info (struct m fs) caches.tags).0 ≡ ok info
        → All (λ k. Begins (is_ptr (element_type (type_of i.data_))) (num_fields info) k) (k ∷ ks)
        → (build_query i d caches).0 ≡ ok (written d i.into info (k ∷ ks))
    unfolding build_query
    build_query-writes i caches named listed typed known h =
        rw named (of_data-writes i.into i.data_ caches listed typed known h)
