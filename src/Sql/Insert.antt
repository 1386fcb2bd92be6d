-- ===== src/Sql/Insert.antt =====
-- buildInsertQuery of ksql.go. The order in which Go visits the keys of a map is the argument `order`.
pub mod Laws
pub mod Written
use ksql.Prelude.{ℕ, suc, String, Option, none, some, List, [], ◌∷◌, map, if◌then◌else◌}
use ksql.Prelude.Dict.{Dict, lookup, delete, keys}
use ksql.Prelude.Text.{join}
use ksql.Prelude.Result.{Result, ok, err, panic}
use ksql.Prelude.Action.{Action, pure, lift, ◌>>=◌}
use ksql.Reflect.{Value, null, is_zero}
use ksql.Structs.Info.{StructInfo, by_name}
use ksql.Structs.ToMap.{struct_to_map}
use ksql.World.{World, on_tags}
use ksql.Dialect.{
  Dialect, InsertMethod, insert_with_returning, insert_with_output, insert_method, escape,
  placeholder,
}
use ksql.Table.{Table}
use ksql.Sql.Scan.{ScanArg, address}
use ksql.Sql.Update.{param}
use Prim.Native.String.{◌++◌}

-- One round of the loop that removes the id fields that are not set.
drop_id : String → Option Value → Dict Value → Result (Dict Value)
unfolding is_zero
drop_id k none m = ok m
drop_id k (some null) m = panic "reflect: call of reflect.Value.IsZero on zero Value"
drop_id k (some v) m = ok (if is_zero v then delete k m else m)

unfoldable pub drop_unset_ids : List String → Dict Value → Result (Dict Value)
unfolding drop_id
drop_unset_ids [] m = ok m
drop_unset_ids (id ∷ ids) m = elim (drop_id id (lookup id m) m) [
  | ok m' ↦ drop_unset_ids ids m'
  | err e ↦ err e
  | panic p ↦ panic p
]

unfoldable pub placeholders_from : Dialect → ℕ → List String → List String
placeholders_from d i [] = []
placeholders_from d i (col ∷ more) = placeholder d i ∷ placeholders_from d (suc i) more

-- The clause that returns the new ids, before VALUES or after it.
output_query : InsertMethod → Dialect → List String → String
output_query insert_with_output d ids =
    " OUTPUT " ++ join (map (λ id. "INSERTED." ++ escape d id) ids) ", "
output_query _ d ids = ""

returning_query : InsertMethod → Dialect → List String → String
returning_query insert_with_returning d ids = " RETURNING " ++ join (map (escape d) ids) ", "
returning_query _ d ids = ""

-- The addresses of the id fields, for the two methods that scan them.
unfoldable pub scan_values : InsertMethod → StructInfo → List String → List ScanArg
scan_values insert_with_returning info ids = map (λ id. address ((by_name info id).index ∷ [])) ids
scan_values insert_with_output info ids = map (λ id. address ((by_name info id).index ∷ [])) ids
scan_values _ info ids = []

pub record Insertion : Type 0 where
  pub query : String
  pub params : List Value
  pub scan_values : List ScanArg

unfoldable pub insert_text : Dialect → Table → List String → String
unfolding output_query returning_query placeholders_from
insert_text d table columns =
    "INSERT INTO "
    ++ (escape d table.name
        ++ (" ("
            ++ (join (map (escape d) columns) ", "
                ++ (")"
                    ++ (output_query (insert_method d) d table.id_columns
                        ++ (" VALUES ("
                            ++ (join (placeholders_from d 0 columns) ", "
                                ++ (")"
                                    ++ returning_query (insert_method d) d table.id_columns))))))))

-- What is sent for a record's map, its unset ids removed.
unfoldable pub write_insert :
    (List String → List String) → Dialect → Table → StructInfo → Dict Value → Insertion
unfolding insert_text
write_insert order d table info m = record {
  query = insert_text d table (order (keys m));
  params = map (param d info m) (order (keys m));
  scan_values = scan_values (insert_method d) info table.id_columns;
}

unfoldable pub build_insert_query :
    (List String → List String) → Dialect → Table → StructInfo → Value → Action World Insertion
build_insert_query order d table info record_ = do
  m ← on_tags (struct_to_map record_)
  m' ← lift (drop_unset_ids table.id_columns m)
  pure (write_insert order d table info m')
