-- ===== src/Kbuilder/Insert.antt =====
-- The INSERT builder of kbuilder/insert.go.
pub mod Laws
pub mod Written
use ksql.Prelude.{
  ℕ, zero, suc, ◌+◌, String, Option, none, some, Bool, true, false, List, [], ◌∷◌, map, length,
  ◌==◌, if◌then◌else◌,
}
use ksql.Prelude.Text.{join}
use ksql.Prelude.Result.{Result, ok, err, panic, Error, msg, and_then}
use ksql.Prelude.Action.{Action, pure, raise, lift, ◌>>=◌}
use ksql.Reflect.{
  GoType, Value, Values, done, more, values, null, scalar, text, nil_ptr, ref, dict, list, object,
  json, basic, interface, ptr, slice, map_of, func, struct, any_type, type_of, is_ptr,
}
use ksql.Structs.Info.{StructInfo, num_fields}
use ksql.Structs.Cache.{get_cached_tag_info}
use ksql.Dialect.{Dialect, escape, placeholder, get_driver_dialect}
use ksql.Kbuilder.Query.{Caches, escaped_names, pointed_type}
use mathlib.Core.List.{◌++◌}
use Prim.Native.String.{◌++◌ as concat}

pub record Insert : Type 0 where
  pub into : String
  pub data_ : Value

-- The elements of the data and their type: a value that is no slice stands for a slice of it.
unfoldable pub element_type : Option GoType → GoType
element_type none = any_type
element_type (some (slice t)) = t
element_type (some t) = t

unfoldable pub elements : Value → List Value
elements (list t vs) = values vs
elements (scalar (slice t) n) = []
elements v = v ∷ []

field_value : Values → ℕ → Result Value
field_value done j = panic "reflect: Field index out of range"
field_value (more v vs) zero = ok v
field_value (more v vs) (suc j) = field_value vs j

-- Behind its pointer, if the elements are pointers.
unfoldable pub fields_of : Bool → Value → Result Values
fields_of true (ref (object n fs vs)) = ok vs
fields_of false (object n fs vs) = ok vs
fields_of _ _ = panic "reflect: call of reflect.Value.Field on zero Value"

-- The inner loop, over `n` fields from index `j`: the placeholders of a record, and the params.
record_loop : Dialect → Values → ℕ → ℕ → List Value → Result (List String × List Value)
unfolding field_value
record_loop d vs j zero params = ok ([], params)
record_loop d vs j (suc n) params = and_then (field_value vs j) λ v.
    and_then (record_loop d vs (suc j) n (params ++ (v ∷ [])))
      λ rest. ok (placeholder d (length params) ∷ rest.0, rest.1)

-- The outer loop, over the records: their placeholders, and the params.
records_loop :
    Dialect → Bool → ℕ → List Value → List Value → Result (List (List String) × List Value)
unfolding fields_of record_loop
records_loop d is_ptr n [] params = ok ([], params)
records_loop d is_ptr n (r ∷ rs) params = and_then (fields_of is_ptr r) λ vs.
    and_then (record_loop d vs 0 n params)
      λ row. and_then (records_loop d is_ptr n rs row.1) λ rest. ok (row.0 ∷ rest.0, rest.1)

tuple : List String → String
tuple placeholders = concat "(" (concat (join placeholders ", ") ")")

unfoldable pub insert_text : Dialect → String → StructInfo → List (List String) → String
unfolding tuple
insert_text d into info rows = concat "INSERT INTO " (
    concat (escape d into) (
      concat " (" (
        concat (join (escaped_names d info 0 (num_fields info)) ", ")
          (concat ") VALUES " (join (map tuple rows) ", ")))))

-- The records are written once the information on their type is known.
write_records : Dialect → String → Bool → StructInfo → List Value → Result (String × List Value)
unfolding records_loop insert_text
write_records d into is_ptr info rs =
    and_then (records_loop d is_ptr (num_fields info) rs [])
      λ out. ok (insert_text d into info out.0, out.1)

-- structs.GetTagInfo
tag_info : GoType → Action Caches StructInfo
tag_info t caches =
    let (r, tags) = get_cached_tag_info t caches.tags in (r, record caches { tags = tags })

of_type : Dialect → String → Bool → GoType → List Value → Action Caches (String × List Value)
unfolding tag_info write_records
of_type d into is_ptr (struct n fs) rs = do
  info ← tag_info (struct n fs)
  lift (write_records d into is_ptr info rs)
of_type d into is_ptr _ rs = raise (msg "expected Data attr to be a struct or slice of structs")

-- The checks of the list of elements.
of_elements : Dialect → String → GoType → List Value → Action Caches (String × List Value)
unfolding of_type
of_elements d into t [] = raise (msg "can't create an insertion query from an empty list of values")
of_elements d into t (r ∷ rs) = of_type d into (is_ptr t) (pointed_type t) (r ∷ rs)

of_data : Dialect → String → Value → Action Caches (String × List Value)
unfolding of_elements element_type elements
of_data d into null =
    raise (msg "expected the Data attr to contain a struct or a list of structs, but got nil")
of_data d into v = of_elements d into (element_type (type_of v)) (elements v)

unfoldable pub build_query : Insert → Dialect → Action Caches (String × List Value)
unfolding of_data
build_query i d =
    if i.into == ""
    then raise
        (msg "expected the Into attr to contain the tablename, but got an empty string instead")
    else of_data d i.into i.data_

pub build_for : Insert → String → Action Caches (String × List Value)
build_for i driver = do dialect ← lift (get_driver_dialect driver); build_query i dialect
