-- ===== src/Convert/Laws.antt =====
-- Conversions between a type and the pointers to it.
use ksql.Prelude.{◌≡◌, refl, false, some}
use ksql.Prelude.Result.{ok}
use ksql.Reflect.{GoType, ptr, is_ptr, Value, null, ref, type_of}
use ksql.Convert.{
  Conversions, new_ptr_converter, converter_of, convert, convert_elem, pointed, static_type, is_nil,
  converted,
}

known_type : (t : GoType) (v : Value) → type_of v ≡ some t → new_ptr_converter v ≡ converter_of t v
unfolding new_ptr_converter static_type
known_type t null typed = absurd (cc typed)
known_type t v typed = λ i. converter_of (static_type (typed i)) v

module _ (conversions : Conversions) (t : GoType) (v : Value) (typed : type_of v ≡ some t)
    (no_pointer : is_ptr t ≡ false) (same : conversions t t v ≡ some v) where
  -- For a value of a type that is no pointer, which reflect converts to its own type as itself, a
  -- PtrConverter of the value or of a pointer to it converts to the type as the value and to the
  -- pointer type as a pointer to the value.
  pub convert-new_ptr_converter :
      (convert conversions (new_ptr_converter v) t ≡ ok v)
      × (convert conversions (new_ptr_converter v) (ptr t) ≡ ok (ref v))
      × (convert conversions (new_ptr_converter (ref v)) t ≡ ok v)
      × (convert conversions (new_ptr_converter (ref v)) (ptr t) ≡ ok (ref v))
  unfolding convert new_ptr_converter converter_of static_type pointed convert_elem converted is_nil
  convert-new_ptr_converter =
      let plain = known_type t v typed in
      (
        simp (plain, no_pointer, same) refl,
        simp (plain, no_pointer, same) refl,
        simp (typed, no_pointer, same) refl,
        simp (typed, same) refl,
      )
