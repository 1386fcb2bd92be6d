-- ===== src/Structs/Func.antt =====
-- ParseInputFunc of internal/structs/func_parser.go.
pub mod Laws
use ksql.Prelude.{
  String, ◌≡◌, ◌≢◌, refl, sym, ap, ◌∙◌, ◌↔◌, Bool, true, false, Option, none, some, if◌then◌else◌,
  arith,
}
use ksql.Prelude.Result.{Result, ok, err, msg}
use ksql.Reflect.{
  GoType, Types, Fields, nil, cons, basic, interface, ptr, slice, map_of, func, struct, is_struct,
  error_type, same_type, same_type_iff,
}

abbrev single : Types → Option GoType
single (cons t nil) = some t
single _ = none

-- The checks of the argument's type.
check_argument : GoType → Result GoType
check_argument (slice elem) =
    if is_struct elem
    then ok (slice elem)
    else err (msg "the argument of the ForEachChunk callback must a slice of structs")
check_argument _ = err (msg "the argument of the ForEachChunk callback must a slice of structs")

check_return : Option GoType → GoType → Result GoType
unfolding check_argument
check_return none argument = err (msg "the ForEachChunk callback must have a single return value")
check_return (some out) argument =
    if same_type out error_type
    then check_argument argument
    else err (msg "the return value of the ForEachChunk callback must be of type error")

check_func : Option GoType → Types → Result GoType
unfolding check_return
check_func none outs = err (msg "the ForEachChunk callback must have 1 argument")
check_func (some argument) outs = check_return (single outs) argument

-- The type of the callback, unless it is nil.
pub parse_input_func : Option GoType → Result GoType
unfolding check_func
parse_input_func none = err (msg "the ForEachChunk attribute is required and cannot be nil")
parse_input_func (some (func ins outs)) = check_func (single ins) outs
parse_input_func (some t) = err (msg "the ForEachChunk callback must be a function")
