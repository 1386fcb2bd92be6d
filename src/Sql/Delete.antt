-- ===== src/Sql/Delete.antt =====
-- buildDeleteQuery of ksql.go.
pub mod Laws
use ksql.Prelude.{ℕ, suc, String, none, some, List, [], ◌∷◌, map}
use ksql.Prelude.Dict.{Dict, lookup}
use ksql.Prelude.Text.{join}
use ksql.Reflect.{Value, null}
use ksql.Dialect.{Dialect, escape, placeholder}
use ksql.Table.{Table}
use Prim.Native.String.{◌++◌}

-- `m[k]`, the nil interface on a missing key
abbrev pub get_or_null : Dict Value → String → Value
get_or_null m k = elim (lookup k m) [ none ↦ null | some v ↦ v ]

-- The conditions of the loop from index `i`.
unfoldable pub where_from : Dialect → ℕ → List String → List String
where_from d i [] = []
where_from d i (id_name ∷ more) =
    (escape d id_name ++ (" = " ++ placeholder d i)) ∷ where_from d (suc i) more

unfoldable pub build_delete_query : Dialect → Table → Dict Value → String × List Value
unfolding where_from
build_delete_query d table id_map = (
  "DELETE FROM "
      ++ (escape d table.name ++ (" WHERE " ++ join (where_from d 0 table.id_columns) " AND ")),
  map (get_or_null id_map) table.id_columns,
)
