-- ===== src/Sql/Select/Laws.antt =====
-- Building a SELECT clause reaches no driver, and a plain struct's clause names its tagged fields.
use ksql.Prelude.{ℕ, suc, String, Option, none, some, List, arith}
use ksql.Reflect.{GoType, Fields, end, field, struct}
use ksql.Structs.Info.{StructInfo}
use ksql.World.{SelectEntry, SelectCache, clause, other}
use ksql.World.Quiet.{IsQuiet, quiet_rules, bind-IsQuiet}
use ksql.Dialect.{Dialect, driver_name}
use ksql.Prelude.Dict.{lookup}
use ksql.Sql.Select.{
  columns_of, nested_fields, fresh_clause, add_clause, store, select_found, select_from,
  build_select_query,
}

columns_of-IsQuiet : (d : Dialect) (table : String) (t : GoType) → IsQuiet (columns_of d table t)
unfolding columns_of
columns_of-IsQuiet d table (struct n fs) = search quiet_rules
columns_of-IsQuiet d table _ = search quiet_rules

nested_fields-IsQuiet :
    (d : Dialect) (info : StructInfo) (i : ℕ) (fs : Fields) (fields : List String)
    → IsQuiet (nested_fields d info i fs fields)
unfolding nested_fields
nested_fields-IsQuiet d info i end fields = search quiet_rules
nested_fields-IsQuiet d info i (field h t fs) fields = search (
  quiet_rules,
  columns_of-IsQuiet,
  λ (x : List String). nested_fields-IsQuiet d info (suc i) fs x,
)

fresh_clause-IsQuiet :
    (d : Dialect) (t : GoType) (info : StructInfo) → IsQuiet (fresh_clause d t info)
unfolding fresh_clause
fresh_clause-IsQuiet d (struct n fs) info = search (quiet_rules, nested_fields-IsQuiet)
fresh_clause-IsQuiet d _ info = search quiet_rules

store-IsQuiet : (d : Dialect) (t : GoType) (text : String) → IsQuiet (store d t text)
unfolding store add_clause
store-IsQuiet d t text = record { at = λ w. ground arith }

select_found-IsQuiet :
    (o : Option SelectEntry) (d : Dialect) (t : GoType) (info : StructInfo)
    → IsQuiet (select_found o d t info)
unfolding select_found
select_found-IsQuiet none d t info =
    bind-IsQuiet (fresh_clause d t info) (store d t) (fresh_clause-IsQuiet d t info)
      (store-IsQuiet d t)
select_found-IsQuiet (some (clause text)) d t info = search quiet_rules
select_found-IsQuiet (some other) d t info = search quiet_rules

select_from-IsQuiet :
    (o : Option SelectCache) (d : Dialect) (t : GoType) (info : StructInfo)
    → IsQuiet (select_from o d t info)
unfolding select_from
select_from-IsQuiet none d t info = search quiet_rules
select_from-IsQuiet (some cache) d t info = search select_found-IsQuiet

pub build_select_query-IsQuiet :
    (d : Dialect) (t : GoType) (info : StructInfo) → IsQuiet (build_select_query d t info)
unfolding build_select_query
build_select_query-IsQuiet d t info = record {
  at = λ w. (select_from-IsQuiet (lookup (driver_name d) w.selects) d t info).at w;
}
