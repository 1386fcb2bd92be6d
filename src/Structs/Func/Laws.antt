-- ===== src/Structs/Func/Laws.antt =====
-- Which functions ForEachChunk may be.
use ksql.Prelude.{◌≡◌, refl, ap, ◌↔◌, true, Option, some, Bool-cases, inl, inr}
use mathlib.Core.Bool.{false≢true}
use ksql.Prelude.Result.{ok}
use ksql.Reflect.{GoType, nil, cons, slice, func, is_struct, error_type, same_type, same_type_iff}
use ksql.Structs.Func.{check_argument, check_return, check_func, parse_input_func}

-- A function of one slice of structs that returns an error alone.
abbrev pub IsChunkFunc : Option GoType → GoType → Type 0
IsChunkFunc f t =
    (elem : GoType) × (is_struct elem ≡ true)
    × (t ≡ slice elem)
    × (f ≡ some (func (cons (slice elem) nil) (cons error_type nil)))

elem_of : {a b : GoType} → slice a ≡ slice b → a ≡ b
elem_of h = cc

check_argument_iff :
    (a t : GoType)
    → (check_argument a ≡ ok t)
      ↔ ((elem : GoType) × (is_struct elem ≡ true) × (t ≡ slice elem) × (a ≡ slice elem))
unfolding check_argument
check_argument_iff (slice elem) t = elim (Bool-cases (is_struct elem)) [
  | inl is ↦ rw is (λ h. (elem, is, cc h, refl), λ (e, s, p, q). cc (p, q))
  | inr is_not ↦ rw is_not (
    λ h. absurd (cc h),
    λ (e, s, p, q). absurd (false≢true (cc (is_not, ap is_struct (elem_of q), s))),
  )
]
check_argument_iff _ t = (λ h. absurd (cc h), λ h. absurd (cc (h.3)))

-- ParseInputFunc accepts exactly the functions of one slice of structs that return one error, and
-- returns the type of that slice.
pub parse_input_func_iff :
    (f : Option GoType) (t : GoType) → (parse_input_func f ≡ ok t) ↔ IsChunkFunc f t
unfolding parse_input_func check_func check_return check_argument
parse_input_func_iff (some (func (cons a nil) (cons out nil))) t =
    elim (Bool-cases (same_type out error_type)) [
      | inl same ↦
          let is_error = (same_type_iff out error_type).0 same in
          let i = check_argument_iff a t in
          rw same (
            λ h. let (elem, s, p, q) = i.0 h in (elem, s, p, cc (q, is_error)),
            λ (elem, s, p, q). i.1 (elem, s, p, cc q),
          )
      | inr different ↦ rw different (
        λ h. absurd (cc h),
        λ (elem, s, p, q).
            absurd (false≢true (cc (different, (same_type_iff out error_type).1 (cc q)))),
      )
    ]
parse_input_func_iff _ t = (λ h. absurd (cc h), λ h. absurd (cc (h.3)))
