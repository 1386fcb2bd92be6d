-- ===== src/Ksqltest.antt =====
-- ksqltest/testhelpers.go: what fills records, slices and callbacks with the rows of a test. A row is
-- a map from columns to values, and `visits` is the order in which Go visits its entries.
pub mod Laws
pub mod Pointers
pub mod Entries
pub mod RoundTrip
use ksql.Prelude.{
  ℕ, zero, suc, String, Option, none, some, Bool, true, false, List, [], ◌∷◌, length, take, set,
  not, if◌then◌else◌,
}
use ksql.Prelude.Dict.{Dict}
use ksql.Prelude.Result.{Result, ok, err, panic, Error, msg, wrap, and_then}
use ksql.Prelude.Action.{Action, lift, raise, continue, ◌>>=◌}
use ksql.Reflect.{
  GoType, Fields, FieldHeader, field_at, basic, interface, ptr, slice, map_of, func, struct,
  any_type, elem_type, type_of, set_field, Value, Values, null, scalar, text, nil_ptr, ref, dict,
  list, object, json, values, from_values, done,
}
use ksql.Structs.Info.{StructInfo, FieldInfo, by_name}
use ksql.Structs.Cache.{TagCache, get_cached_tag_info}
use ksql.Structs.ToMap as ToMap
use ksql.Structs.Tags.{decode_as_slice_of_structs}
use ksql.Structs.Func.{parse_input_func}
use ksql.Convert.{Conversions, new_ptr_converter, convert}
use ksql.World.{World}
use ksql.Db.{wrapping}
use ksql.Db.Query.{filled_slice, grown, element_at}
use ksql.Db.Chunks.{Callback}
use Prim.Native.String.{◌++◌}

pub struct_to_map : Value → Action TagCache (Dict Value)
struct_to_map obj = ToMap.struct_to_map obj

-- What reflect and Go's runtime decide.
pub record Reflection : Type 0 where
  pub conversions : Conversions
  pub visits : Dict Value → Dict Value

-- The words around an error of a conversion.
on_field : String → Error → Error
on_field col e = wrap ("FillStructWith: error on field `" ++ (col ++ "`")) e

-- `dest.Set(destValue)`, if there is a value; the state holds the fields of the record.
set_converted : String → ℕ → Result Value → Action Values (Unit {0})
unfolding on_field
set_converted col i (ok v) vs = (ok tt, set_field vs i v)
set_converted col i (err e) vs = (err (on_field col e), vs)
set_converted col i (panic p) vs = (panic p, vs)

-- What follows the test that the column names a field.
set_column :
    Conversions → String → ℕ → Option (FieldHeader × GoType) → Value → Action Values (Unit {0})
unfolding set_converted
set_column conversions col i none raw = lift (panic "reflect: Field index out of range")
set_column conversions col i (some (h, t)) raw =
    set_converted col i (convert conversions (new_ptr_converter raw) t)

-- One round of the loop over the columns.
fill_column : Conversions → StructInfo → Fields → String → Value → Action Values (Unit {0})
unfolding set_column
fill_column conversions info fs col raw =
    let f = by_name info col in
    if not f.valid
    then lift (ok tt)
    else set_column conversions col f.index (field_at fs f.index) raw

fill_columns : Conversions → StructInfo → Fields → Dict Value → Action Values (Unit {0})
unfolding fill_column
fill_columns conversions info fs [] = lift (ok tt)
fill_columns conversions info fs ((col, raw) ∷ more) = do
  _ ← fill_column conversions info fs col raw
  fill_columns conversions info fs more

-- The loop on the zero Value that a nil pointer leads to.
fill_nil : StructInfo → Dict Value → Result (Unit {0})
fill_nil info [] = ok tt
fill_nil info ((col, raw) ∷ more) =
    let rest = fill_nil info more in
    if not (by_name info col).valid
    then rest
    else panic "reflect: call of reflect.Value.Field on zero Value"

-- A call that fills what its argument leads to: the state is the argument and the cache of tags.
abbrev pub Filling : Type 0
Filling = Action (Value × TagCache) (Unit {0})

fill_object :
    Reflection
    → Dict Value
    → String
    → Fields
    → Values
    → StructInfo
    → TagCache
    → Result (Unit {0}) × (Value × TagCache)
unfolding fill_columns
fill_object r row n fs vs info cache =
    let (result, vs') = fill_columns r.conversions info fs (r.visits row) vs in
    (result, (ref (object n fs vs'), cache))

-- What follows `structs.GetTagInfo`, where it returned information.
after_info :
    Value
    → Result StructInfo × TagCache
    → (StructInfo → TagCache → Result (Unit {0}) × (Value × TagCache))
    → Result (Unit {0}) × (Value × TagCache)
after_info v (ok info, cache) k = k info cache
after_info v (err e, cache) k = (err e, (v, cache))
after_info v (panic p, cache) k = (panic p, (v, cache))

unfoldable pub fill_struct_with : Reflection → Dict Value → Filling
unfolding fill_object after_info fill_nil
fill_struct_with r row (null, cache) =
    (panic "reflect: call of reflect.Value.Type on zero Value", (null, cache))
fill_struct_with r row (ref (object n fs vs), cache) =
    after_info (ref (object n fs vs)) (get_cached_tag_info (struct n fs) cache)
      (fill_object r row n fs vs)
fill_struct_with r row (nil_ptr (struct n fs), cache) =
    after_info (nil_ptr (struct n fs)) (get_cached_tag_info (struct n fs) cache)
      (λ info cache'. (fill_nil info (r.visits row), (nil_ptr (struct n fs), cache')))
fill_struct_with r row (ref v, cache) =
    (err (msg "FillStructWith: expected input to be a pointer to a struct"), (ref v, cache))
fill_struct_with r row (nil_ptr t, cache) =
    (err (msg "FillStructWith: expected input to be a pointer to a struct"), (nil_ptr t, cache))
fill_struct_with r row (v, cache) =
    (err (msg "FillStructWith: expected input to be a pointer to struct"), (v, cache))

-- The element that a pointer to it leads to after the call.
abbrev pointee : Value → Value
pointee (ref v) = v
pointee v = v

-- The elements that the argument's slice has after an error: those appended are not in it.
abbrev visible : ℕ → Result (Unit {0}) → List Value → List Value
visible count (ok _) items = items
visible count _ items = take count items

-- The loop over the rows, from index `idx`; the state is the slice and the cache of tags.
fill_rows :
    Reflection → GoType → Bool → ℕ → List (Dict Value) → Action (List Value × TagCache) (Unit {0})
fill_rows r t ptrs idx [] s = (ok tt, s)
fill_rows r t ptrs idx (row ∷ more) (items, cache) =
    let items' = grown t ptrs idx items in
    let (result, (v, cache')) = fill_struct_with r row (ref (element_at items' idx), cache) in
    continue (wrapping "FillSliceWith" result) (λ _. fill_rows r t ptrs (suc idx) more)
      (set items' idx (pointee v), cache')

-- The elements of a slice; a nil slice has none.
abbrev elements : Value → List Value
elements (list t vs) = values vs
elements _ = []

static_type : Option GoType → GoType
static_type none = any_type
static_type (some t) = t

fill_slice :
    Reflection
    → List (Dict Value)
    → Value
    → Result (GoType × Bool)
    → TagCache
    → Result (Unit {0}) × (Value × TagCache)
unfolding fill_rows filled_slice
fill_slice r rows v (ok (t, ptrs)) cache =
    let (result, (items, cache')) = fill_rows r t ptrs 0 rows (elements v, cache) in
    (
      result,
      (
        ref (
            filled_slice v (if ptrs then ptr t else t)
              (visible (length (elements v)) result items)),
        cache',
      ),
    )
fill_slice r rows v (err e) cache = (err (wrap "FillSliceWith" e), (ref v, cache))
fill_slice r rows v (panic p) cache = (panic p, (ref v, cache))

-- What a nil pointer to a slice panics with, where the slice is first needed.
no_slice_for : List (Dict Value) → String
no_slice_for [] = "reflect: call of reflect.Value.Set on zero Value"
no_slice_for (row ∷ rows) = "reflect: call of reflect.Value.Len on zero Value"

pub fill_slice_with : Reflection → List (Dict Value) → Filling
unfolding fill_slice static_type no_slice_for
fill_slice_with r rows (null, cache) =
    (panic "reflect: call of reflect.Value.Type on zero Value", (null, cache))
fill_slice_with r rows (nil_ptr t, cache) = (
  and_then (wrapping "FillSliceWith" (decode_as_slice_of_structs t))
      (λ _. panic (no_slice_for rows)),
  (nil_ptr t, cache),
)
fill_slice_with r rows (ref v, cache) =
    fill_slice r rows v (decode_as_slice_of_structs (static_type (type_of v))) cache
fill_slice_with r rows (v, cache) =
    (err (msg "FillSliceWith: expected input to be a pointer to a slice of structs"), (v, cache))

abbrev type_of_callback : Option Callback → Option GoType
type_of_callback none = none
type_of_callback (some f) = some f.type

-- ParseInputFunc has refused a callback that is nil.
call_with : Option Callback → List Value → Action World (Unit {0})
call_with none items = lift (ok tt)
call_with (some f) items = f.call items

-- The call with what the slice holds, if it could be filled.
call_filled :
    Option Callback → World → Result (Unit {0}) × (Value × TagCache) → Result (Unit {0}) × World
unfolding call_with
call_filled fn w (ok _, (v, cache)) =
    call_with fn (elements (pointee v)) (record w { tags = cache })
call_filled fn w (err e, (v, cache)) = (err e, record w { tags = cache })
call_filled fn w (panic p, (v, cache)) = (panic p, record w { tags = cache })

pub call_function_with_rows :
    Reflection → Option Callback → List (Dict Value) → Action World (Unit {0})
unfolding call_filled
call_function_with_rows r fn rows = do
  chunk_type ← lift (parse_input_func (type_of_callback fn))
  (λ w. call_filled fn w (fill_slice_with r rows (ref (list (elem_type chunk_type) done), w.tags)))
