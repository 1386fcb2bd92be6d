-- ===== src/Structs/ToMap.antt =====
-- StructToMap of internal/structs/structs.go.
pub mod Caching
pub mod Laws
use ksql.Prelude.{
  ℕ, zero, suc, String, ◌≡◌, refl, Bool, true, false, Option, none, some, List, [], ◌∷◌,
  if◌then◌else◌,
}
use ksql.Prelude.Dict.{Dict, insert}
use ksql.Prelude.Result.{Result, ok, err, panic, msg}
use ksql.Prelude.Action.{Action, pure, raise, lift, ◌>>=◌, ◌>>◌}
use ksql.Reflect.{
  GoType, Fields, end, field, basic, interface, ptr, slice, map_of, func, struct, is_ptr, Value,
  Values, null, scalar, text, nil_ptr, ref, dict, list, object, json, done, more,
}
use ksql.Structs.Info.{StructInfo, FieldInfo, by_index}
use ksql.Structs.Cache.{TagCache, get_cached_tag_info}

-- What a field holds once a pointer is followed; nothing, if it is a nil pointer.
abbrev follow : Value → Option Value
follow (nil_ptr t) = none
follow (ref v) = some v
follow v = some v

abbrev pub present : GoType → Value → Option Value
present t v = if is_ptr t then follow v else some v

abbrev insert_some : String → Option Value → Dict Value → Dict Value
insert_some k none m = m
insert_some k (some v) m = insert k v m

-- One round of the loop over the fields.
unfoldable pub put_field : FieldInfo → GoType → Value → Dict Value → Dict Value
put_field f t v m = if f.valid then insert_some f.name (present t v) m else m

unfoldable pub collect : StructInfo → ℕ → Fields → Values → Dict Value → Dict Value
collect info i end vs m = m
collect info i (field h t fs) done m = m
collect info i (field h t fs) (more v vs) m =
    collect info (suc i) fs vs (put_field (by_index info i) t v m)

map_object : String → Fields → Values → Action TagCache (Dict Value)
map_object n fs vs = do info ← get_cached_tag_info (struct n fs); pure (collect info 0 fs vs [])

not_a_struct : Action TagCache (Dict Value)
not_a_struct = raise (msg "input must be a struct or struct pointer")

map_pointee : Value → Action TagCache (Dict Value)
map_pointee (object n fs vs) = map_object n fs vs
map_pointee _ = not_a_struct

-- A nil pointer to a struct passes the checks of its type, and the loop panics on the zero Value.
map_nil : GoType → Action TagCache (Dict Value)
map_nil (struct n fs) = do
  _ ← get_cached_tag_info (struct n fs)
  lift (panic "reflect: NumField of zero Value")
map_nil _ = not_a_struct

pub struct_to_map : Value → Action TagCache (Dict Value)
struct_to_map null = lift (panic "reflect: Type of zero Value")
struct_to_map (ref v) = map_pointee v
struct_to_map (nil_ptr t) = map_nil t
struct_to_map (object n fs vs) = map_object n fs vs
struct_to_map _ = not_a_struct
