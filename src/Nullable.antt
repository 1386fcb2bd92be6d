-- ===== src/Nullable.antt =====
-- nullable/nullable.go: the address of a copy of a value, for fields that may be null. A number is
-- given by its code, which is 0 for the zero value. rune is int32, and byte is uint8.
use ksql.Prelude.{ℕ, String}
use ksql.Reflect.{Value, basic, scalar, text, ref}

-- The address of a number of the type.
to_scalar : String → ℕ → Value
to_scalar t i = ref (scalar (basic t) i)

unfoldable pub int : ℕ → Value
unfolding to_scalar
int i = to_scalar "int" i

unfoldable pub int8 : ℕ → Value
unfolding to_scalar
int8 i = to_scalar "int8" i

unfoldable pub int16 : ℕ → Value
unfolding to_scalar
int16 i = to_scalar "int16" i

unfoldable pub int32 : ℕ → Value
unfolding to_scalar
int32 i = to_scalar "int32" i

unfoldable pub int64 : ℕ → Value
unfolding to_scalar
int64 i = to_scalar "int64" i

unfoldable pub uint : ℕ → Value
unfolding to_scalar
uint i = to_scalar "int" i

unfoldable pub uint8 : ℕ → Value
unfolding to_scalar
uint8 i = to_scalar "int8" i

unfoldable pub uint16 : ℕ → Value
unfolding to_scalar
uint16 i = to_scalar "int16" i

unfoldable pub uint32 : ℕ → Value
unfolding to_scalar
uint32 i = to_scalar "int32" i

unfoldable pub uint64 : ℕ → Value
unfolding to_scalar
uint64 i = to_scalar "int64" i

unfoldable pub float32 : ℕ → Value
unfolding to_scalar
float32 i = to_scalar "float32" i

unfoldable pub float64 : ℕ → Value
unfolding to_scalar
float64 i = to_scalar "float64" i

unfoldable pub string : String → Value
string s = ref (text s)

unfoldable pub bool : ℕ → Value
unfolding to_scalar
bool i = to_scalar "bool" i

unfoldable pub rune : ℕ → Value
unfolding to_scalar
rune i = to_scalar "int32" i

unfoldable pub byte : ℕ → Value
unfolding to_scalar
byte i = to_scalar "uint8" i

unfoldable pub complex64 : ℕ → Value
unfolding to_scalar
complex64 i = to_scalar "complex64" i

unfoldable pub complex128 : ℕ → Value
unfolding to_scalar
complex128 i = to_scalar "complex128" i
