-- ===== src/Reflect/Typing.antt =====
-- Which values have a type, as Go's compiler and package `reflect` keep them.
use ksql.Prelude.{◌≡◌, ◌⊎◌, true, List, [], ◌∷◌, All}
use ksql.Reflect.{
  GoType, Fields, end, field, basic, ptr, slice, map_of, struct, is_interface, any_type, Value,
  Values, null, scalar, text, nil_ptr, ref, dict, list, object, json, done, more, values,
  from_values,
}

unfoldable mutual
  -- An interface holds any value; every other type has its own values.
  pub HasType : Value → GoType → Type 0
  HasType null t = is_interface t ≡ true
  HasType (scalar s n) t = (is_interface t ≡ true) ⊎ (s ≡ t)
  HasType (text s) t = (is_interface t ≡ true) ⊎ (t ≡ basic "string")
  HasType (nil_ptr s) t = (is_interface t ≡ true) ⊎ (t ≡ ptr s)
  HasType (ref v) t = (is_interface t ≡ true) ⊎ ((s : GoType) × (t ≡ ptr s) × HasType v s)
  HasType (dict es) t = (is_interface t ≡ true) ⊎ (t ≡ map_of (basic "string") any_type)
  HasType (list s vs) t = (is_interface t ≡ true) ⊎ ((t ≡ slice s) × HaveType vs s)
  HasType (object n fs vs) t = (is_interface t ≡ true) ⊎ ((t ≡ struct n fs) × HaveTypes vs fs)
  HasType (json d v) t = (is_interface t ≡ true) ⊎ (t ≡ struct "ksql.jsonSerializable" end)

  -- the elements of a slice
  pub HaveType : Values → GoType → Type 0
  HaveType done t = Unit
  HaveType (more v vs) t = HasType v t × HaveType vs t

  -- the fields of a struct
  pub HaveTypes : Values → Fields → Type 0
  HaveTypes done end = Unit
  HaveTypes done (field h t fs) = ⊥
  HaveTypes (more v vs) end = ⊥
  HaveTypes (more v vs) (field h t fs) = HasType v t × HaveTypes vs fs

pub HaveType-values :
    (vs : Values) (t : GoType) → HaveType vs t → All (λ v. HasType v t) (values vs)
unfolding HaveType
HaveType-values done t h = tt
HaveType-values (more v vs) t (h, hs) = (h, HaveType-values vs t hs)

pub HaveType-from_values :
    (l : List Value) (t : GoType) → All (λ v. HasType v t) l → HaveType (from_values l) t
unfolding HaveType
HaveType-from_values [] t h = tt
HaveType-from_values (v ∷ l) t (h, hs) = (h, HaveType-from_values l t hs)
