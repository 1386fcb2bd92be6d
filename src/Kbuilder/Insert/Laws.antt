-- ===== src/Kbuilder/Insert/Laws.antt =====
-- The placeholders of the INSERT builder are numbered through its records, as its params are.
use ksql.Prelude.{
  ℕ, zero, suc, ◌+◌, ◌*◌, String, ◌≡◌, refl, ap, sym, ◌∙◌, Bool, List, [], ◌∷◌, length, All, arith,
  length-append, Bool-cases, inl, inr, ◌==◌,
}
use ksql.Prelude.Result.{Result, ok, err, panic, and_then-ok}
use ksql.Prelude.Action.{continue, lift}
use ksql.Reflect.{GoType, Value, Values, null, struct, type_of, is_ptr}
use ksql.Structs.Info.{StructInfo, num_fields}
use ksql.Kbuilder.Query.{Caches, pointed_type}
use ksql.Dialect.{Dialect, placeholder}
use ksql.Kbuilder.Insert.{
  Insert, elements, element_type, field_value, fields_of, record_loop, records_loop, insert_text,
  write_records, tag_info, of_type, of_elements, of_data, build_query,
}
use mathlib.Core.List.{◌++◌, append_assoc, append-nil, flatten}
use mathlib.Core.Path.{subst}

-- `n` placeholders from index `i`.
abbrev pub placeholders : Dialect → ℕ → ℕ → List String
placeholders d i zero = []
placeholders d i (suc n) = placeholder d i ∷ placeholders d (suc i) n

placeholders_add :
    (d : Dialect) (i m n : ℕ)
    → placeholders d i (m + n) ≡ placeholders d i m ++ placeholders d (i + m) n
placeholders_add d i zero n =
    let start : i ≡ i + 0 = omega arith in
    let none_more : 0 + n ≡ n = omega arith in
    ap (λ k. placeholders d i k) none_more ∙ ap (λ k. placeholders d k n) start
placeholders_add d i (suc m) n =
    let one_more : suc m + n ≡ suc (m + n) = omega arith in
    let start : suc i + m ≡ i + suc m = omega arith in
    ap (λ k. placeholders d i k) one_more
    ∙ ap (λ l. placeholder d i ∷ l)
        (placeholders_add d (suc i) m n
          ∙ ap (λ k. placeholders d (suc i) m ++ placeholders d k n) start)

ok_pair :
    {A B : Type 0} {a a' : A} {b b' : B}
    → ◌≡◌ {A = Result (A × B)} (ok (a, b)) (ok (a', b'))
    → (a ≡ a') × (b ≡ b')
ok_pair h = (cc h, cc h)

pub one_longer : (vs : List Value) (v : Value) → length (vs ++ (v ∷ [])) ≡ suc (length vs)
one_longer vs v = length-append vs (v ∷ []) ∙ omega arith

-- What one record adds.
record Row (d : Dialect) (n : ℕ) (before after : List Value) (row : List String) : Type 0 where
  more_params : List Value
  added : after ≡ before ++ more_params
  as_many : length more_params ≡ n
  numbered : row ≡ placeholders d (length before) n

record_loop-Row :
    (d : Dialect) (vs : Values) (j n : ℕ) (params : List Value) (row : List String)
    (after : List Value)
    → record_loop d vs j n params ≡ ok (row, after)
    → Row d n params after row
unfolding record_loop
record_loop-Row d vs j zero params row after h = record {
  more_params = [];
  added = cc (h, append-nil params);
  as_many = refl;
  numbered = cc h;
}
record_loop-Row d vs j (suc n) params row after h =
    let (v, _, e) = and_then-ok (field_value vs j) _ h in
    let (rest, run, out) = and_then-ok (record_loop d vs (suc j) n (params ++ (v ∷ []))) _ e in
    let later = record_loop-Row d vs (suc j) n (params ++ (v ∷ [])) rest.0 rest.1 run in
    record {
      more_params = v ∷ later.more_params;
      added = sym (ok_pair out).1 ∙ later.added ∙ append_assoc params (v ∷ []) later.more_params;
      as_many = ap suc later.as_many;
      numbered =
          sym (ok_pair out).0
          ∙ ap (λ l. placeholder d (length params) ∷ l)
              (later.numbered ∙ ap (λ k. placeholders d k n) (one_longer params v));
    }

-- What the records add.
record Rows (d : Dialect) (n : ℕ) (rs before after : List Value) (rows : List (List String))
    : Type 0 where
  grows : length after ≡ length before + length rs * n
  numbered : flatten rows ≡ placeholders d (length before) (length rs * n)
  even : All (λ row. length row ≡ n) rows

length-placeholders : (d : Dialect) (i n : ℕ) → length (placeholders d i n) ≡ n
length-placeholders d i zero = refl
length-placeholders d i (suc n) = ap suc (length-placeholders d (suc i) n)

Rows-cons :
    {d : Dialect} {n : ℕ} {r : Value} {rs before mid after : List Value} {row : List String}
    {rows : List (List String)}
    → Row d n before mid row
    → Rows d n rs mid after rows
    → Rows d n (r ∷ rs) before after (row ∷ rows)
unfolding flatten
Rows-cons {d} {n} {rs} {before} {mid} {rows} here later =
    let reached : length mid ≡ length before + n =
      ap length here.added
      ∙ length-append before here.more_params
      ∙ ap (λ k. length before + k) here.as_many in
    let total : suc (length rs) * n ≡ n + length rs * n = omega arith in
    record {
      grows = omega (arith, later.grows, reached, total);
      numbered =
          ap (λ l. l ++ flatten rows) here.numbered
          ∙ ap (λ l. placeholders d (length before) n ++ l)
              (later.numbered ∙ ap (λ k. placeholders d k (length rs * n)) reached)
          ∙ sym (placeholders_add d (length before) n (length rs * n))
          ∙ ap (λ k. placeholders d (length before) k) (sym total);
      even = (ap length here.numbered ∙ length-placeholders d (length before) n, later.even);
    }

records_loop-Rows :
    (d : Dialect) (is_ptr : Bool) (n : ℕ) (rs params : List Value) (rows : List (List String))
    (after : List Value)
    → records_loop d is_ptr n rs params ≡ ok (rows, after)
    → Rows d n rs params after rows
unfolding records_loop flatten
records_loop-Rows d is_ptr n [] params rows after h =
    let e = ok_pair h in
    let nothing : length params ≡ length params + 0 * n = omega arith in
    let none_there : 0 ≡ 0 * n = omega arith in
    record {
      grows = ap length (sym e.1) ∙ nothing;
      numbered = ap flatten (sym e.0) ∙ ap (λ k. placeholders d (length params) k) none_there;
      even = subst (All (λ row. length row ≡ n)) e.0 tt;
    }
records_loop-Rows d is_ptr n (r ∷ rs) params rows after h =
    let (vs, _, e) = and_then-ok (fields_of is_ptr r) _ h in
    let (row, first, e') = and_then-ok (record_loop d vs 0 n params) _ e in
    let (rest, run, out) = and_then-ok (records_loop d is_ptr n rs row.1) _ e' in
    let here = record_loop-Row d vs 0 n params row.0 row.1 first in
    let later = records_loop-Rows d is_ptr n rs row.1 rest.0 rest.1 run in
    let both = ok_pair out in
    subst (λ l. Rows d n (r ∷ rs) params l rows) both.1
      (subst (λ l. Rows d n (r ∷ rs) params rest.1 l) both.0 (Rows-cons here later))

-- An INSERT of `count` records whose placeholders are numbered as its params are.
pub record Numbered (d : Dialect) (into : String) (count : ℕ) (query : String) (params : List Value)
    : Type 0 where
  pub info : StructInfo
  pub rows : List (List String)
  pub written : query ≡ insert_text d into info rows
  pub numbered : flatten rows ≡ placeholders d 0 (length params)
  pub even : All (λ row. length row ≡ num_fields info) rows
  pub as_many : length params ≡ count * num_fields info

module _ (d : Dialect) (into : String) (query : String) (params : List Value) where
  write_records-Numbered :
      (is_ptr : Bool) (info : StructInfo) (rs : List Value)
      → write_records d into is_ptr info rs ≡ ok (query, params)
      → Numbered d into (length rs) query params
  unfolding write_records
  write_records-Numbered is_ptr info rs h =
      let (out, run, e) = and_then-ok (records_loop d is_ptr (num_fields info) rs []) _ h in
      let all = records_loop-Rows d is_ptr (num_fields info) rs [] out.0 out.1 run in
      let both = ok_pair e in
      let counted : length out.1 ≡ length rs * num_fields info = omega (arith, all.grows) in
      record {
        info = info;
        rows = out.0;
        written = sym both.0;
        numbered = all.numbered ∙ ap (λ k. placeholders d 0 k) (sym counted ∙ ap length both.1);
        even = all.even;
        as_many = ap length (sym both.1) ∙ counted;
      }

  of_type-Numbered :
      (is_ptr : Bool) (t : GoType) (rs : List Value) (caches : Caches)
      → (of_type d into is_ptr t rs caches).0 ≡ ok (query, params)
      → Numbered d into (length rs) query params
  unfolding of_type
  of_type-Numbered is_ptr (struct n fs) rs caches h =
      by_info (tag_info (struct n fs) caches).0 (tag_info (struct n fs) caches).1 h
    where
      by_info :
          (r : Result StructInfo) (s : Caches)
          → (continue r (λ info. lift (write_records d into is_ptr info rs)) s).0
            ≡ ok (query, params)
          → Numbered d into (length rs) query params
      by_info (ok info) s e = write_records-Numbered is_ptr info rs e
      by_info (err x) s e = absurd (cc e)
      by_info (panic x) s e = absurd (cc e)
  of_type-Numbered is_ptr _ rs caches h = absurd (cc h)

  of_elements-Numbered :
      (t : GoType) (rs : List Value) (caches : Caches)
      → (of_elements d into t rs caches).0 ≡ ok (query, params)
      → Numbered d into (length rs) query params
  unfolding of_elements
  of_elements-Numbered t [] caches h = absurd (cc h)
  of_elements-Numbered t (r ∷ rs) caches h =
      of_type-Numbered (is_ptr t) (pointed_type t) (r ∷ rs) caches h

  of_data-Numbered :
      (v : Value) (caches : Caches)
      → (of_data d into v caches).0 ≡ ok (query, params)
      → Numbered d into (length (elements v)) query params
  unfolding of_data
  of_data-Numbered null caches h = absurd (cc h)
  of_data-Numbered v caches h =
      of_elements-Numbered (element_type (type_of v)) (elements v) caches h

-- If the INSERT builder returns a query, its text has one tuple for each record, of as many
-- placeholders as the struct has tagged fields, numbered from 0 through all the tuples, and there
-- is one param for each placeholder.
pub build_query-Numbered :
    (i : Insert) (d : Dialect) (caches : Caches) (query : String) (params : List Value)
    → (build_query i d caches).0 ≡ ok (query, params)
    → Numbered d i.into (length (elements i.data_)) query params
unfolding build_query
build_query-Numbered i d caches query params h = elim (Bool-cases (i.into == "")) [
  | inl empty ↦ absurd (cc (rw empty at h))
  | inr named ↦ of_data-Numbered d i.into query params i.data_ caches (rw named at h)
]
