-- ===== src/Convert.antt =====
-- PtrConverter of internal/structs/structs.go. Which types convert to which, and how, is reflect's
-- to say: `Conversions` answers for a value of one type that is to be of another.
pub mod Laws
use ksql.Prelude.{Bool, true, false, ◌&&◌, Option, none, some, if◌then◌else◌}
use ksql.Prelude.Result.{Result, ok, err, panic, msg}
use ksql.Reflect.{
  GoType, basic, interface, ptr, slice, map_of, func, struct, is_ptr, elem_type, any_type, Value,
  null, scalar, text, nil_ptr, ref, dict, list, object, json, type_of,
}
use ksql.Db.Scanning.{zero_value}

abbrev pub Conversions : Type 0
Conversions = GoType → GoType → Value → Option Value

-- `elem_value` is none for the zero reflect.Value, which a nil pointer leads to.
pub record PtrConverter : Type 0 where
  pub base_type : GoType
  pub base_value : Value
  pub elem_type : GoType
  pub elem_value : Option Value

-- Value.Elem() of a pointer
pointed : Value → Option Value
pointed (nil_ptr t) = none
pointed (ref v) = some v
pointed v = some v

static_type : Option GoType → GoType
static_type none = any_type
static_type (some t) = t

converter_of : GoType → Value → PtrConverter
unfolding pointed
converter_of t v = record {
  base_type = t;
  base_value = v;
  elem_type = if is_ptr t then elem_type t else t;
  elem_value = if is_ptr t then pointed v else some v;
}

-- The nil interface stands for a nil pointer to one.
pub new_ptr_converter : Value → PtrConverter
unfolding converter_of static_type
new_ptr_converter null = converter_of (ptr any_type) (nil_ptr any_type)
new_ptr_converter v = converter_of (static_type (type_of v)) v

is_nil : Value → Bool
is_nil (nil_ptr t) = true
is_nil _ = false

-- The converted value, behind a new pointer if the type is one.
converted : GoType → Option Value → Result Value
converted dest none = err (msg "cannot convert from a type to another")
converted dest (some v) = if is_ptr dest then ok (ref v) else ok v

convert_elem : Conversions → PtrConverter → GoType → Option Value → Result Value
unfolding converted
convert_elem conversions p dest none = panic "reflect: call of reflect.Value.Convert on zero Value"
convert_elem conversions p dest (some v) =
    converted dest (conversions p.elem_type (if is_ptr dest then elem_type dest else dest) v)

pub convert : Conversions → PtrConverter → GoType → Result Value
unfolding convert_elem is_nil
convert conversions p dest =
    if is_ptr p.base_type && is_nil p.base_value
    then ok (zero_value dest)
    else convert_elem conversions p dest p.elem_value
