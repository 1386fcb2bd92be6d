-- ===== src/Kstructs.antt =====
-- kstructs/testhelpers.go, the deprecated package, with functions of the same text as those of
-- ksqltest/testhelpers.go.
use ksql.Prelude.{Option, List}
use ksql.Prelude.Dict.{Dict}
use ksql.Prelude.Action.{Action}
use ksql.Reflect.{Value}
use ksql.Structs.Cache.{TagCache}
use ksql.World.{World}
use ksql.Db.Chunks.{Callback}
use ksql.Ksqltest as Ksqltest
use ksql.Ksqltest.{Reflection, Filling}

pub struct_to_map : Value → Action TagCache (Dict Value)
struct_to_map obj = Ksqltest.struct_to_map obj

pub fill_struct_with : Reflection → Dict Value → Filling
fill_struct_with r row = Ksqltest.fill_struct_with r row

pub fill_slice_with : Reflection → List (Dict Value) → Filling
fill_slice_with r rows = Ksqltest.fill_slice_with r rows

pub call_function_with_rows :
    Reflection → Option Callback → List (Dict Value) → Action World (Unit {0})
call_function_with_rows r fn rows = Ksqltest.call_function_with_rows r fn rows
