-- ===== src/Structs/Tags.antt =====
-- getTagNames of internal/structs/structs.go, and the checks of types beside it.
pub mod Laws
pub mod Bounds
use ksql.Prelude.{
  ℕ, zero, suc, String, ◌≡◌, refl, Bool, true, false, Option, none, some, List, [], ◌∷◌, ◌==◌, not,
  eqb, if◌then◌else◌,
}
use ksql.Prelude.Dict.{lookup}
use ksql.Prelude.Text.{split}
use ksql.Prelude.Result.{Result, ok, err, panic, msg, and_then}
use ksql.Reflect.{
  GoType, Fields, FieldHeader, basic, interface, ptr, slice, map_of, func, struct, end, field,
  Types, nil, cons, is_ptr, is_struct, GoType-discrete, error_type, elem_type,
}
use ksql.Structs.Info.{StructInfo, FieldInfo, Indexed, add, empty_info}
use mathlib.Core.Logic.{ite}

from_parts : String → List String → String × Bool
from_parts tag (name ∷ option ∷ rest) = (name, option == "json")
from_parts tag _ = (tag, false)

-- The name and the JSON flag in the value of a `ksql` tag.
unfoldable pub parse_tag : String → String × Bool
unfolding from_parts
parse_tag tag = from_parts tag (split tag ",")

-- The loop over the fields that reads their `ksql` tags.
unfoldable pub ksql_tags : Fields → ℕ → StructInfo → Result StructInfo
ksql_tags end i info = ok info
ksql_tags (field h t fs) i info =
    if not (h.pkg_path == "")
    then err (msg "all fields using the ksql tags must be exported")
    else if h.ksql == ""
    then ksql_tags fs (suc i) info
    else let (name, serialize) = parse_tag h.ksql in
      let found : FieldInfo = record {
        name = name;
        index = i;
        valid = false;
        serialize_as_json = serialize;
      } in
      let next = ksql_tags fs (suc i) (add info found) in
      elim (lookup name info.by_name_map) [
        | some g ↦ err (msg "struct contains multiple attributes with the same ksql tag name")
        | none ↦ next
      ]

-- The loop that reads their `tablename` tags.
unfoldable pub tablename_tags : Fields → ℕ → StructInfo → StructInfo
tablename_tags end i info = info
tablename_tags (field h t fs) i info = tablename_tags fs (suc i) (
    if h.tablename == ""
    then info
    else add info
        (record { name = h.tablename; index = i; valid = false; serialize_as_json = false }))

abbrev is_empty : Indexed → Bool
is_empty [] = true
is_empty (p ∷ m) = false

-- What follows the first loop.
unfoldable pub nested_tags : Fields → StructInfo → Result StructInfo
nested_tags fs info =
    if not (is_empty info.by_index_map)
    then ok info
    else let nested = tablename_tags fs 0 info in
      if is_empty nested.by_index_map
      then err (msg "the struct must contain at least one attribute with the ksql tag")
      else ok (record nested { is_nested_struct = true })

-- NumField panics on a type that is no struct.
unfoldable pub get_tag_names : GoType → Result StructInfo
get_tag_names (struct n fs) = and_then (ksql_tags fs 0 empty_info) (nested_tags fs)
get_tag_names _ = panic "reflect: NumField of non-struct type"

-- DecodeAsSliceOfStructs
unfoldable pub decode_as_slice_of_structs : GoType → Result (GoType × Bool)
decode_as_slice_of_structs (slice elem) =
    let is_slice_of_ptrs = is_ptr elem in
    let base = if is_slice_of_ptrs then elem_type elem else elem in
    if is_struct base
    then ok (base, is_slice_of_ptrs)
    else err (msg "expected input to be a slice of structs")
decode_as_slice_of_structs _ = err (msg "expected input kind to be a slice")
