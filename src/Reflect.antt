-- ===== src/Reflect.antt =====
-- Go's types and values, as far as package `reflect` shows them to the program.
pub mod Typing
use ksql.Prelude.{
  ◌↔◌, ℕ, zero, suc, String, ◌≡◌, refl, Bool, true, false, Option, none, some, List, [], ◌∷◌, ◌&&◌,
  ◌==◌, eq_iff, Bool-cases, inl, inr, eqb, if◌then◌else◌,
}
use ksql.Prelude.Dict.{Dict}

-- What reflect.StructField says of a field beside its type: its path if it is not exported, and
-- the values that `Tag.Get("ksql")` and `Tag.Get("tablename")` return.
pub record FieldHeader : Type 0 where
  pub pkg_path : String
  pub ksql : String
  pub tablename : String

mutual
  pub data GoType : Type 0 where
    -- numbers, booleans, texts and every other type that has no parts to look into
    basic : String → GoType
    interface : String → GoType
    ptr : GoType → GoType
    slice : GoType → GoType
    map_of : GoType → GoType → GoType
    func : Types → Types → GoType
    struct : String → Fields → GoType

  pub data Types : Type 0 where
    nil : Types
    cons : GoType → Types → Types

  pub data Fields : Type 0 where
    end : Fields
    field : FieldHeader → GoType → Fields → Fields

pub String-discrete : Discrete String
String-discrete s t = elim (Bool-cases (s == t)) [
  | inl same ↦ yes ((eq_iff s t).0 same)
  | inr other ↦ no (λ e. cc ((eq_iff s t).1 e))
]

pub FieldHeader-discrete : Discrete FieldHeader
FieldHeader-discrete = hlevel String-discrete

pub GoType-discrete : Discrete GoType
GoType-discrete = hlevel (String-discrete, FieldHeader-discrete)

abbrev pub is_ptr : GoType → Bool
is_ptr (ptr t) = true
is_ptr _ = false

abbrev pub is_struct : GoType → Bool
is_struct (struct n fs) = true
is_struct _ = false

abbrev pub is_interface : GoType → Bool
is_interface (interface n) = true
is_interface _ = false

-- Type.Elem() of a pointer or a slice
abbrev pub elem_type : GoType → GoType
elem_type (ptr t) = t
elem_type (slice t) = t
elem_type t = t

-- Type.NumField()
abbrev pub num_field : Fields → ℕ
num_field end = 0
num_field (field h t fs) = suc (num_field fs)

-- Type.Field(i)
abbrev pub field_at : Fields → ℕ → Option (FieldHeader × GoType)
field_at end i = none
field_at (field h t fs) zero = some (h, t)
field_at (field h t fs) (suc i) = field_at fs i

-- The interface types that the program names.
abbrev pub any_type : GoType
any_type = interface "interface {}"

abbrev pub error_type : GoType
error_type = interface "error"

mutual
  pub data Value : Type 0 where
    -- the nil interface
    null : Value
    -- a value of a type without parts, by a code that is 0 for the zero value of the type
    scalar : GoType → ℕ → Value
    text : String → Value
    nil_ptr : GoType → Value
    ref : Value → Value
    -- a map[string]interface{}
    dict : Entries → Value
    list : GoType → Values → Value
    object : String → Fields → Values → Value
    -- ksql's jsonSerializable, its driver's name and the attribute
    json : String → Value → Value

  pub data Values : Type 0 where
    done : Values
    more : Value → Values → Values

  pub data Entries : Type 0 where
    no_entry : Entries
    entry : String → Value → Entries → Entries

-- A value's dynamic type; the nil interface has none.
abbrev pub type_of : Value → Option GoType
type_of null = none
type_of (scalar t n) = some t
type_of (text s) = some (basic "string")
type_of (nil_ptr t) = some (ptr t)
type_of (ref v) = elim (type_of v) [ none ↦ some (ptr any_type) | some t ↦ some (ptr t) ]
type_of (dict es) = some (map_of (basic "string") any_type)
type_of (list t vs) = some (slice t)
type_of (object n fs vs) = some (struct n fs)
type_of (json d v) = some (struct "ksql.jsonSerializable" end)

-- `v.Field(i).Set(x)`
abbrev pub set_field : Values → ℕ → Value → Values
set_field done i x = done
set_field (more v vs) zero x = more x vs
set_field (more v vs) (suc i) x = more v (set_field vs i x)

abbrev pub values : Values → List Value
values done = []
values (more v vs) = v ∷ values vs

abbrev pub from_values : List Value → Values
from_values [] = done
from_values (v ∷ vs) = more v (from_values vs)

abbrev pub entries : Entries → Dict Value
entries no_entry = []
entries (entry k v es) = (k, v) ∷ entries es

abbrev is_null : Value → Bool
is_null null = true
is_null _ = false

unfoldable mutual
  -- Value.IsZero(); a field of an interface type is zero only if it holds nothing.
  pub is_zero : Value → Bool
  is_zero null = true
  is_zero (scalar t n) = eqb n 0
  is_zero (text s) = s == ""
  is_zero (nil_ptr t) = true
  is_zero (ref v) = false
  is_zero (dict es) = false
  is_zero (list t vs) = false
  is_zero (object n fs vs) = all_zero vs fs
  is_zero (json d v) = d == "" && is_null v

  pub all_zero : Values → Fields → Bool
  all_zero done fs = true
  all_zero (more v vs) end = true
  all_zero (more v vs) (field h t fs) =
      (if is_interface t then is_null v else is_zero v) && all_zero vs fs

-- Whether two reflect.Type are one.
unfoldable pub same_type : GoType → GoType → Bool
unfolding GoType-discrete
same_type a b = elim (GoType-discrete a b) [ yes _ ↦ true | no _ ↦ false ]

pub same_type_iff : (a b : GoType) → (same_type a b ≡ true) ↔ (a ≡ b)
unfolding same_type
same_type_iff a b =
    elim (GoType-discrete a b) as (λ d. (elim d [ yes _ ↦ true | no _ ↦ false ] ≡ true) ↔ (a ≡ b)) [
      | yes p ↦ (λ _. p, λ _. refl)
      | no q ↦ (λ e. cc e, λ p. absurd (q p))
    ]
