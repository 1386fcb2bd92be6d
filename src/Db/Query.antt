-- ===== src/Db/Query.antt =====
-- Query and QueryOne of ksql.go.
pub mod Closing
pub mod Keeping
pub mod Laws
pub mod Meaning
pub mod Typing
use ksql.Prelude.{
  ℕ, zero, suc, String, Option, none, some, Bool, true, false, List, [], ◌∷◌, ◌==◌, ◌&&◌, length,
  get_elem?, set, leb, if◌then◌else◌,
}
use ksql.Prelude.Text.{to_upper}
use ksql.Prelude.Result.{Result, ok, err, panic, Error, msg, record_not_found}
use ksql.Prelude.Action.{Action, pure, raise, lift, ◌>>=◌, ◌>>◌}
use ksql.Reflect.{
  GoType, Fields, ptr, struct, Value, null, scalar, nil_ptr, ref, list, object, values, from_values,
  any_type, type_of,
}
use ksql.Structs.Info.{StructInfo}
use ksql.Structs.Tags.{decode_as_slice_of_structs}
use ksql.World.{World, get_tag_info}
use ksql.Sql.Token.{get_first_token}
use ksql.Sql.Select.{build_select_query}
use ksql.Db.{Db, Rows, query_context, close, deferring_close, wrapping, or_fail}
use ksql.Db.Scanning.{zero_value, scan_rows, scan_struct}
use mathlib.Core.List.{◌++◌ as append}
use Prim.Native.String.{◌++◌}

-- The query with the SELECT clause that is built if it starts with FROM.
unfoldable pub complete_query : Db → GoType → StructInfo → String → Action World String
complete_query c t info sql =
    let first_token = to_upper (get_first_token sql) in
    if info.is_nested_struct && first_token == "SELECT"
    then raise (
        msg
          "can't generate SELECT query for nested struct: when using this feature omit the SELECT part of the query")
    else if first_token == "FROM"
    then (do select_prefix ← build_select_query c.dialect t info; pure (select_prefix ++ sql))
    else pure sql

-- A new element of the slice.
unfoldable pub new_element : GoType → Bool → Value
new_element t is_slice_of_ptrs = if is_slice_of_ptrs then ref (zero_value t) else zero_value t

-- `slice`, one element longer if it has no element at `idx`.
unfoldable pub grown : GoType → Bool → ℕ → List Value → List Value
unfolding new_element
grown t ptrs idx items =
    if leb (length items) idx then append items (new_element t ptrs ∷ []) else items

-- The scan of one row into an element: through the pointer that it is, or by its address.
unfoldable pub scan_element : Db → Rows → List Value → Bool → Value → Action World Value
scan_element c rows row true v = do v' ← scan_rows c rows row v; pure (ref v')
scan_element c rows row false v = scan_rows c rows row (ref v)

unfoldable pub element_at : List Value → ℕ → Value
element_at items idx = elim (get_elem? items idx) [ none ↦ null | some v ↦ v ]

-- The loop over the rows, from index `idx`.
unfoldable pub fill :
    Db → Rows → GoType → Bool → ℕ → List (List Value) → List Value → Action World (List Value)
unfolding grown scan_element element_at
fill c rows t ptrs idx [] items = pure items
fill c rows t ptrs idx (row ∷ more) items = do
  v ← scan_element c rows row ptrs (element_at (grown t ptrs idx items) idx)
  fill c rows t ptrs (suc idx) more (set (grown t ptrs idx items) idx v)

-- What stands under `defer rows.Close()`.
unfoldable pub read_rows : Db → Rows → GoType → Bool → List Value → Action World (List Value)
read_rows c rows t ptrs items = do
  final ← fill c rows t ptrs 0 rows.rows items
  _ ← lift (or_fail rows.failure)
  _ ← close rows
  pure final

-- The steps after the type of the slice is known.
unfoldable pub query_slice :
    Db → GoType → Bool → List Value → String → List Value → Action World (List Value)
unfolding complete_query
query_slice c t ptrs items sql params = do
  info ← get_tag_info t
  complete ← complete_query c t info sql
  rows ← (λ w.
      let (r, w') = query_context c complete params w in (wrapping "error running query" r, w'))
  deferring_close (read_rows c rows t ptrs items)

-- The value of a slice; a nil slice has no elements.
abbrev pub elements : Value → List Value
elements (list t vs) = values vs
elements _ = []

-- The slice at the end, with elements of type `t`; a nil slice that got none is still nil.
unfoldable pub filled_slice : Value → GoType → List Value → Value
filled_slice (scalar s n) t [] = scalar s n
filled_slice v t items = list t (from_values items)

-- `records` is a pointer to a slice, and the result is what the slice holds at the end. A slice of
-- pointers is truncated first.
query_typed : Db → GoType → Value → String → List Value → Action World Value
unfolding filled_slice
query_typed c slice_type v sql params = do
  decoded ← lift (decode_as_slice_of_structs slice_type)
  let t = decoded.0
  let ptrs = decoded.1
  final ← query_slice c t ptrs (if ptrs then [] else elements v) sql params
  pure (filled_slice v (if ptrs then ptr t else t) final)

unfoldable pub static_type : Option GoType → GoType
static_type none = any_type
static_type (some t) = t

not_pointer_to_slice : Action World Value
not_pointer_to_slice = raise (msg "ksql: expected to receive a pointer to slice of structs")

-- The rows for a nil pointer, which has no slice.
no_slice_for : Rows → List (List Value) → Action World Value
no_slice_for rows [] = do
  _ ← lift (or_fail rows.failure)
  _ ← close rows
  lift (panic "reflect: call of reflect.Value.Set on zero Value")
no_slice_for rows (row ∷ more) = lift (panic "reflect: call of reflect.Value.Len on zero Value")

query_structs_nowhere : Db → GoType → String → List Value → Action World Value
unfolding complete_query no_slice_for
query_structs_nowhere c t sql params = do
  info ← get_tag_info t
  complete ← complete_query c t info sql
  rows ← (λ w.
      let (r, w') = query_context c complete params w in (wrapping "error running query" r, w'))
  deferring_close (no_slice_for rows rows.rows)

-- A nil pointer to a slice of structs fails where the slice is needed; one to a slice of pointers
-- at the truncation.
query_nowhere : Db → GoType → String → List Value → Action World Value
unfolding query_structs_nowhere
query_nowhere c slice_type sql params = do
  decoded ← lift (decode_as_slice_of_structs slice_type)
  let structs = query_structs_nowhere c decoded.0 sql params
  (if decoded.1 then lift (panic "reflect: call of reflect.Value.Slice on zero Value") else structs)

pub query : Db → Value → String → List Value → Action World Value
query c null sql params = lift (panic "reflect: call of reflect.Value.Type on zero Value")
query c (ref v) sql params = query_typed c (static_type (type_of v)) v sql params
query c (nil_ptr t) sql params = query_nowhere c t sql params
query c _ sql params = not_pointer_to_slice

-- What QueryOne does with the rows.
unfoldable pub read_first : Db → Rows → List (List Value) → Value → Action World Value
read_first c rows [] v = do _ ← lift (or_fail rows.failure); raise record_not_found
read_first c rows (row ∷ more) v = do
  final ← scan_rows c rows row (ref v)
  _ ← close rows
  pure final

unfoldable pub query_record : Db → GoType → Value → String → List Value → Action World Value
unfolding complete_query
query_record c t v sql params = do
  info ← get_tag_info t
  complete ← complete_query c t info sql
  rows ← (λ w.
      let (r, w') = query_context c complete params w in (wrapping "error running query" r, w'))
  deferring_close (read_first c rows rows.rows v)

not_pointer_to_struct : Action World Value
not_pointer_to_struct = raise (msg "ksql: expected to receive a pointer to struct")

-- `record` is a pointer to a struct, and the result is what it holds at the end.
pub query_one : Db → Value → String → List Value → Action World Value
unfolding not_pointer_to_struct
query_one c null sql params = lift (panic "reflect: call of reflect.Value.Type on zero Value")
query_one c (nil_ptr t) sql params =
    raise (msg "ksql: expected a valid pointer to struct as argument but received a nil pointer")
query_one c (ref (object n fs vs)) sql params =
    query_record c (struct n fs) (object n fs vs) sql params
query_one c _ sql params = not_pointer_to_struct
