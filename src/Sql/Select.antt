-- ===== src/Sql/Select.antt =====
-- buildSelectQuery of ksql.go and its two builders, for plain and for nested structs.
pub mod Laws
pub mod Sound
use ksql.Prelude.{
  ℕ, zero, suc, String, Option, none, some, Bool, true, false, List, [], ◌∷◌, if◌then◌else◌,
}
use ksql.Prelude.Dict.{Dict, lookup, insert}
use ksql.Prelude.Text.{join}
use ksql.Prelude.Result.{Result, ok, err, panic, msg}
use ksql.Prelude.Action.{Action, pure, raise, lift, ◌>>=◌}
use ksql.Reflect.{
  GoType, Fields, end, field, basic, interface, ptr, slice, map_of, func, struct, same_type,
}
use ksql.Structs.Info.{StructInfo, FieldInfo, by_index}
use ksql.World.{World, SelectEntry, SelectCache, clause, other, get_tag_info}
use ksql.Dialect.{Dialect, escape, driver_name}
use mathlib.Core.List.{◌++◌ as append}
use Prim.Native.String.{◌++◌}

-- The loop over the fields of a plain struct, from index `i`.
unfoldable pub plain_fields : Dialect → StructInfo → ℕ → Fields → List String
plain_fields d info i end = []
plain_fields d info i (field h t fs) =
    let rest = plain_fields d info (suc i) fs in
    if (by_index info i).valid then escape d (by_index info i).name ∷ rest else rest

unfoldable pub select_clause : List String → String
select_clause fields = "SELECT " ++ (join fields ", " ++ " ")

unfoldable pub build_select_query_for_plain_structs : Dialect → Fields → StructInfo → String
unfolding plain_fields select_clause
build_select_query_for_plain_structs d fs info = select_clause (plain_fields d info 0 fs)

-- The inner loop: the columns of one nested struct, behind its table's name.
unfoldable pub nested_columns : Dialect → String → StructInfo → ℕ → Fields → List String
nested_columns d table info j end = []
nested_columns d table info j (field h t fs) =
    let rest = nested_columns d table info (suc j) fs in
    if (by_index info j).valid
    then (escape d table ++ ("." ++ escape d (by_index info j).name)) ∷ rest
    else rest

-- The columns of the field `table` of type `t`, which must be a struct.
unfoldable pub columns_of : Dialect → String → GoType → Action World (List String)
columns_of d table (struct n fs) = do
  info ← get_tag_info (struct n fs)
  pure (nested_columns d table info 0 fs)
columns_of d table _ = raise (msg "expected nested struct with `tablename` to be a kind of Struct")

-- The outer loop, from index `i`, with the fields found so far.
unfoldable pub nested_fields :
    Dialect → StructInfo → ℕ → Fields → List String → Action World (List String)
nested_fields d info i end fields = pure fields
nested_fields d info i (field h t fs) fields =
    if (by_index info i).valid
    then (do
      more ← columns_of d (by_index info i).name t
      nested_fields d info (suc i) fs (append fields more))
    else nested_fields d info (suc i) fs fields

unfoldable pub build_select_query_for_nested_structs :
    Dialect → Fields → StructInfo → Action World String
build_select_query_for_nested_structs d fs info = do
  fields ← nested_fields d info 0 fs []
  pure (select_clause fields)

-- The clause that is built if the cache has none. The fields of a type that is no struct cannot be
-- counted.
unfoldable pub fresh_clause : Dialect → GoType → StructInfo → Action World String
unfolding build_select_query_for_plain_structs build_select_query_for_nested_structs
fresh_clause d (struct n fs) info =
    if info.is_nested_struct
    then build_select_query_for_nested_structs d fs info
    else pure (build_select_query_for_plain_structs d fs info)
fresh_clause d _ info = lift (panic "reflect: NumField of non-struct type")

-- initializeQueryCache: a cache for each of the supported dialects
pub initialize_query_cache : Dict SelectCache
initialize_query_cache = ("postgres", []) ∷ ("sqlite3", []) ∷ ("mysql", []) ∷ ("sqlserver", []) ∷ []

pub load : GoType → SelectCache → Option SelectEntry
load t [] = none
load t ((k, e) ∷ m) = if same_type k t then some e else load t m

-- `Store` on the cache of the dialect.
add_clause : Dialect → GoType → String → World → World
add_clause d t query w = elim (lookup (driver_name d) w.selects) [
  | none ↦ w
  | some cache ↦ record w { selects = insert (driver_name d) ((t, clause query) ∷ cache) w.selects }
]

store : Dialect → GoType → String → Action World String
unfolding add_clause
store d t query w = (ok query, add_clause d t query w)

-- What follows `Load`.
select_found : Option SelectEntry → Dialect → GoType → StructInfo → Action World String
unfolding fresh_clause store
select_found (some (clause query)) d t info = pure query
select_found (some other) d t info = raise (msg "invalid cache entry, expected type string")
select_found none d t info = do query ← fresh_clause d t info; store d t query

-- The cache of a dialect with no entry in the map of caches is a nil pointer.
select_from : Option SelectCache → Dialect → GoType → StructInfo → Action World String
unfolding select_found load
select_from none d t info =
    lift (panic "runtime error: invalid memory address or nil pointer dereference")
select_from (some cache) d t info = select_found (load t cache) d t info

unfoldable pub build_select_query : Dialect → GoType → StructInfo → Action World String
unfolding select_from
build_select_query d t info w = select_from (lookup (driver_name d) w.selects) d t info w
