-- ===== src/Dialect.antt =====
-- dialect.go: how each SQL driver writes identifiers and placeholders, and how it returns new ids.
pub mod Laws
use ksql.Prelude.{
  ℕ, ◌+◌, String, ◌≡◌, refl, Bool, true, false, Option, none, some, ◌==◌, if◌then◌else◌,
}
use ksql.Prelude.Result.{Result, ok, err, msg}
use ksql.Prelude.Text.{itoa}
use Prim.Native.String.{◌++◌}

pub data InsertMethod : Type 0 where
  insert_with_returning insert_with_output insert_with_last_insert_id insert_with_no_id_retrieval :
      InsertMethod

-- The implementations of the interface `Dialect`.
pub data Dialect : Type 0 where
  postgres sqlite3 mysql sqlserver : Dialect

unfoldable pub driver_name : Dialect → String
driver_name postgres = "postgres"
driver_name sqlite3 = "sqlite3"
driver_name mysql = "mysql"
driver_name sqlserver = "sqlserver"

unfoldable pub insert_method : Dialect → InsertMethod
insert_method postgres = insert_with_returning
insert_method sqlite3 = insert_with_last_insert_id
insert_method mysql = insert_with_last_insert_id
insert_method sqlserver = insert_with_output

unfoldable pub escape : Dialect → String → String
escape postgres str = "\"" ++ str ++ "\""
escape sqlite3 str = "`" ++ str ++ "`"
escape mysql str = "`" ++ str ++ "`"
escape sqlserver str = "[" ++ str ++ "]"

unfoldable pub placeholder : Dialect → ℕ → String
placeholder postgres idx = "$" ++ itoa (idx + 1)
placeholder sqlite3 idx = "?"
placeholder mysql idx = "?"
placeholder sqlserver idx = "@p" ++ itoa (idx + 1)

-- A look-up in the map `supportedDialects`.
unfoldable pub supported_dialect : String → Option Dialect
supported_dialect name =
    if name == "postgres"
    then some postgres
    else if name == "sqlite3"
    then some sqlite3
    else if name == "mysql"
    then some mysql
    else if name == "sqlserver"
    then some sqlserver
    else none

or_unsupported : Option Dialect → Result Dialect
or_unsupported none = err (msg "unsupported driver")
or_unsupported (some dialect) = ok dialect

unfoldable pub get_driver_dialect : String → Result Dialect
unfolding or_unsupported supported_dialect
get_driver_dialect driver = or_unsupported (supported_dialect driver)
