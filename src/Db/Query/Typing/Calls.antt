-- ===== src/Db/Query/Typing/Calls.antt =====
-- Query and QueryOne keep the types of the records that they fill.
use mathlib.Core.Path.{subst}
use ksql.Prelude.{
  sym, ap, String, ◌≡◌, Bool, true, false, inl, inr, List, [], Bool-cases, if◌then◌else◌,
}
use ksql.Prelude.Result.{Result, ok}
use ksql.Prelude.Action.{Action, lift}
use ksql.Reflect.{
  GoType, Fields, ptr, slice, struct, Value, Values, ref, object, list, is_struct, values,
}
use ksql.Reflect.Typing.{HasType, HaveType, HaveType-values, HaveType-from_values}
use ksql.Structs.Tags.{decode_as_slice_of_structs}
use ksql.World.{World, get_tag_info}
use ksql.Db.{Db, query_context, deferring_close, wrapping}
use ksql.Db.Query.{
  complete_query, query_slice, query_typed, static_type, query, query_record, query_one,
}
use ksql.Db.Query.Typing.{
  Gives, bind-Gives, bind-Gives_from, pure-Gives, KeepsTypes, element_type, AllTyped,
  read_rows-Gives, read_first-Gives,
}

deferring_close-Gives :
    {A : Type 0} (P : A → Type 0) (m : Action World A) → Gives P m → Gives P (deferring_close m)
unfolding deferring_close
deferring_close-Gives P m g = record { at = λ w a e. g.at w a e }

module _ (c : Db) (keeps : KeepsTypes c) where
  -- QueryOne into a struct whose fields have their types gives such a struct back.
  pub query_one-HasType :
      (n : String) (fs : Fields) (vs : Values) (sql : String) (params : List Value) (w : World)
      (v : Value)
      → HasType (object n fs vs) (struct n fs)
      → (query_one c (ref (object n fs vs)) sql params w).0 ≡ ok v
      → HasType v (struct n fs)
  unfolding query_one query_record
  query_one-HasType n fs vs sql params w v h =
      (bind-Gives _ (get_tag_info (struct n fs)) _ (λ info.
          bind-Gives _ (complete_query c (struct n fs) info sql) _ (λ complete.
            bind-Gives _
              (λ w.
                let (r, w') = query_context c complete params w in
                (wrapping "error running query" r, w'))
              _
              (λ rows.
                deferring_close-Gives _ _
                  (read_first-Gives c keeps (struct n fs) rows rows.rows (object n fs vs) h))))).at
        w v

decoded-element :
    (elem : GoType) (d : GoType × Bool)
    → decode_as_slice_of_structs (slice elem) ≡ ok d
    → element_type d.0 d.1 ≡ elem
unfolding decode_as_slice_of_structs
decoded-element (ptr u) d h = elim (Bool-cases (is_struct u)) [
  | inl yes_it_is ↦
      let same : (u, true) ≡ d = cc (rw (decode_as_slice_of_structs, yes_it_is) at h) in
      ap (λ (e : GoType × Bool). element_type e.0 e.1) (sym same)
  | inr it_is_not ↦ absurd (cc (rw (decode_as_slice_of_structs, it_is_not) at h))
]
decoded-element (struct n fs) d h =
    let same : (struct n fs, false) ≡ d = cc h in
    ap (λ (e : GoType × Bool). element_type e.0 e.1) (sym same)
decoded-element elem d h = absurd (cc h)

module _ (c : Db) (keeps : KeepsTypes c) (sql : String) (params : List Value) where
  query_slice-Gives :
      (t : GoType) (ptrs : Bool) (items : List Value)
      → AllTyped t ptrs items
      → Gives (AllTyped t ptrs) (query_slice c t ptrs items sql params)
  unfolding query_slice
  query_slice-Gives t ptrs items h = bind-Gives _ (get_tag_info t) _ λ info.
      bind-Gives _ (complete_query c t info sql) _ λ complete.
        bind-Gives _
          (λ w.
            let (r, w') = query_context c complete params w in
            (wrapping "error running query" r, w'))
          _ λ rows. deferring_close-Gives _ _ (read_rows-Gives c keeps t rows ptrs items h)

  lift-Gives :
      {A : Type 0} (P : A → Type 0) (r : Result A) → ((a : A) → r ≡ ok a → P a) → Gives P (lift r)
  lift-Gives P r h = record { at = λ w a e. h a e }

  items-typed :
      (elem t : GoType) (ptrs : Bool) (vs : Values)
      → element_type t ptrs ≡ elem
      → HaveType vs elem
      → AllTyped t ptrs (if ptrs then [] else values vs)
  items-typed elem t true vs same h = tt
  items-typed elem t false vs same h = HaveType-values vs t (subst (HaveType vs) (sym same) h)

  -- If the scan of the driver keeps the type of every record, then Query of a pointer to a slice,
  -- of structs or of pointers to structs, whose elements have their type gives back a slice of
  -- that type whose elements have it, the nested fields included.
  pub query-HasType :
      (elem : GoType) (vs : Values) (w : World) (v : Value)
      → HasType (list elem vs) (slice elem)
      → (query c (ref (list elem vs)) sql params w).0 ≡ ok v
      → HasType v (slice elem)
  unfolding query query_typed static_type HasType
  query-HasType elem vs w v (inl impossible) = absurd (cc impossible)
  query-HasType elem vs w v (inr (same, h)) =
      (bind-Gives_from (λ v'. HasType v' (slice elem))
          (lift (decode_as_slice_of_structs (slice elem))) _ (λ d. element_type d.0 d.1 ≡ elem)
          (lift-Gives _ _ (decoded-element elem))
          (λ d is_elem.
            bind-Gives_from _ (query_slice c d.0 d.1 (if d.1 then [] else values vs) sql params) _
              (AllTyped d.0 d.1)
              (query_slice-Gives d.0 d.1 _ (items-typed elem d.0 d.1 vs is_elem h))
              (λ final typed.
                pure-Gives _ _
                  (inr (ap slice (sym is_elem), HaveType-from_values final _ typed))))).at
        w v
