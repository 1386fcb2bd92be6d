-- ===== src/Ksqltest/Pointers.antt =====
-- FillSliceWith on a slice of pointers.
use ksql.Prelude.{String, ◌≡◌, refl, ap, ◌∙◌, arith, All, true, List, [], ◌∷◌, length, take}
use ksql.Prelude.Dict.{Dict}
use ksql.Prelude.Result.{err, Error, msg, wrap}
use ksql.Reflect.{
  Fields, GoType, ptr, struct, Value, Values, null, scalar, text, nil_ptr, ref, dict, list, object,
  json, values, from_values, done, more,
}
use ksql.Structs.Cache.{TagCache}
use ksql.Structs.Tags.{decode_as_slice_of_structs}
use ksql.Db.Query.{filled_slice, new_element, grown, element_at}
use ksql.Db.{wrapping}
use ksql.Db.Scanning.{zero_value}
use ksql.Ksqltest.{
  Reflection, fill_struct_with, fill_rows, fill_slice, fill_slice_with, static_type,
}

abbrev pub IsPointer : Value → Type 0
IsPointer (ref v) = Unit
IsPointer (nil_ptr t) = Unit
IsPointer _ = ⊥

abbrev pub refused : Error
refused = wrap "FillSliceWith" (msg "FillStructWith: expected input to be a pointer to a struct")

take-length : (vs : List Value) → take (length vs) vs ≡ vs
take-length [] = refl
take-length (v ∷ vs) = ap (λ us. v ∷ us) (take-length vs)

from_values-values : (vs : Values) → from_values (values vs) ≡ vs
from_values-values done = refl
from_values-values (more v vs) = ap (more v) (from_values-values vs)

first_grown : (t : GoType) (v : Value) (vs : List Value) → grown t true 0 (v ∷ vs) ≡ v ∷ vs
unfolding grown
first_grown t v vs = ground arith

grown_empty : (t : GoType) → grown t true 0 [] ≡ ref (zero_value t) ∷ []
unfolding grown new_element
grown_empty t = refl

kept : (vs : Values) → from_values (take (length (values vs)) (values vs)) ≡ vs
kept vs = ap from_values (take-length (values vs)) ∙ from_values-values vs

module _ (r : Reflection) (n : String) (fs : Fields) (row : Dict Value) (rows : List (Dict Value))
    (cache : TagCache) where
  -- FillSliceWith of a slice of pointers to structs, with at least one row, returns the error that
  -- FillStructWith has for what is no pointer to a struct and leaves the slice as it was, though
  -- the type of the slice is accepted.
  pub fill_slice_with-refused :
      (vs : Values)
      → All IsPointer (values vs)
      → fill_slice_with r (row ∷ rows) (ref (list (ptr (struct n fs)) vs), cache)
        ≡ (err refused, (ref (list (ptr (struct n fs)) vs), cache))
  unfolding fill_slice_with fill_slice static_type fill_rows fill_struct_with
      decode_as_slice_of_structs element_at wrapping filled_slice
  fill_slice_with-refused done h = rw (grown_empty (struct n fs)) refl
  fill_slice_with-refused (more (ref u) vs) h =
      rw (first_grown (struct n fs) (ref u) (values vs)) (rw (kept vs))
  fill_slice_with-refused (more (nil_ptr t) vs) h =
      rw (first_grown (struct n fs) (nil_ptr t) (values vs)) (rw (kept vs))
  fill_slice_with-refused (more null vs) h = absurd h.0
  fill_slice_with-refused (more (scalar t i) vs) h = absurd h.0
  fill_slice_with-refused (more (text s) vs) h = absurd h.0
  fill_slice_with-refused (more (dict es) vs) h = absurd h.0
  fill_slice_with-refused (more (list t us) vs) h = absurd h.0
  fill_slice_with-refused (more (object m gs us) vs) h = absurd h.0
  fill_slice_with-refused (more (json d v) vs) h = absurd h.0
