-- ===== src/Slices.antt =====
-- slices/slices.go: the elements of a slice as interfaces.
use ksql.Prelude.{Option, none, some, List, []}
use ksql.Prelude.Result.{Result, ok, panic}
use ksql.Reflect.{slice, Value, null, scalar, list, values}

-- A value that is no slice with elements; a nil slice has none.
from_other : Value → Result (List Value)
from_other null = panic "runtime error: invalid memory address or nil pointer dereference"
from_other (scalar (slice t) n) = ok []
from_other v = panic "ToInterfaceSlice function only works with a slice as argument"

from_value : Value → Result (List Value)
unfolding from_other
from_value (list t vs) = ok (values vs)
from_value v = from_other v

-- `own` is what the value's own method ToInterfaceSlice returns, if it has one.
pub to_interface_slice : (Value → Option (List Value)) → Value → Result (List Value)
unfolding from_value
to_interface_slice own v = elim (own v) [ none ↦ from_value v | some items ↦ ok items ]
