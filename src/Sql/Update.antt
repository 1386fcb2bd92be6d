-- ===== src/Sql/Update.antt =====
-- buildUpdateQuery of ksql.go. The order in which Go visits the keys of a map is the argument `order`.
pub mod Laws
use ksql.Prelude.{
  ℕ, zero, suc, ◌+◌, ◌-◌, String, Bool, true, false, List, [], ◌∷◌, length, set, replicate, ltb,
  if◌then◌else◌,
}
use ksql.Prelude.Dict.{Dict, delete, keys}
use ksql.Prelude.Text.{join}
use ksql.Prelude.Result.{Result, ok, err, panic}
use ksql.Prelude.Action.{Action, pure, raise, lift, ◌>>=◌}
use ksql.Reflect.{Value, null, json}
use ksql.Structs.Info.{StructInfo, FieldInfo, by_name}
use ksql.Structs.ToMap.{struct_to_map}
use ksql.World.{World, on_tags}
use ksql.Dialect.{Dialect, escape, placeholder, driver_name}
use ksql.Sql.Ids.{validate_if_all_ids_are_present}
use ksql.Sql.Delete.{get_or_null}
use Prim.Native.String.{◌++◌}

-- A parameter, in a jsonSerializable if its field asks for it.
abbrev pub param : Dialect → StructInfo → Dict Value → String → Value
param d info m k =
    if (by_name info k).serialize_as_json
    then json (driver_name d) (get_or_null m k)
    else get_or_null m k

abbrev pub assignment : Dialect → ℕ → String → String
assignment d i k = escape d k ++ (" = " ++ placeholder d i)

record Parts : Type 0 where
  pub query : List String
  pub args : List Value
  pub left : Dict Value

-- The loop over the id fields: `whereArgs` is the end of `args` from index `base`.
where_loop : Dialect → ℕ → ℕ → List String → List Value → Dict Value → Parts
where_loop d base i [] args m = record { query = []; args = args; left = m }
where_loop d base i (field_name ∷ more) args m =
    let rest =
      where_loop d base (suc i) more (set args (base + i) (get_or_null m field_name))
        (delete field_name m) in
    record rest { query = assignment d (i + base) field_name ∷ rest.query }

-- The loop over the keys that are left.
set_loop :
    Dialect → StructInfo → Dict Value → ℕ → List String → List Value → List String × List Value
set_loop d info m i [] args = ([], args)
set_loop d info m i (k ∷ more) args =
    let (query, final) = set_loop d info m (suc i) more (set args i (param d info m k)) in
    (assignment d i k ∷ query, final)

abbrev pub update_text : Dialect → String → List String → List String → String
update_text d table set_query where_query =
    "UPDATE "
    ++ (escape d table
        ++ (" SET " ++ (join set_query ", " ++ (" WHERE " ++ join where_query " AND "))))

-- The two loops and the text, once the record is known to have its ids.
pub write_update :
    (List String → List String)
    → Dialect
    → String
    → StructInfo
    → List String
    → Dict Value
    → String × List Value
unfolding where_loop set_loop
write_update order d table info ids m =
    let base = length m - length ids in
    let wheres = where_loop d base 0 ids (replicate (length m) null) m in
    let (set_query, args) = set_loop d info wheres.left 0 (order (keys wheres.left)) wheres.args in
    (update_text d table set_query wheres.query, args)

-- `args[numNonIDArgs:]` panics if there are more ids than attributes.
unfoldable pub build_update_query :
    (List String → List String)
    → Dialect
    → String
    → StructInfo
    → Value
    → List String
    → Action World (String × List Value)
build_update_query order d table info record_ ids = do
  m ← on_tags (struct_to_map record_)
  _ ← lift (
      if ltb (length m) (length ids)
      then panic "runtime error: slice bounds out of range"
      else ok tt)
  _ ← lift (validate_if_all_ids_are_present ids m)
  pure (write_update order d table info ids m)
