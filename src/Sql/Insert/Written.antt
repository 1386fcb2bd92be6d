-- ===== src/Sql/Insert/Written.antt =====
-- The text of an INSERT statement for each method, and the params beside their columns.
use ksql.Prelude.{
  ℕ, zero, suc, String, ◌≡◌, refl, ap, none, some, List, [], ◌∷◌, map, length, if◌then◌else◌,
  Option-cases, inl, inr, ◌⊎◌,
}
use ksql.Sql.Update.{param}
use ksql.Sql.Delete.{get_or_null}
use mathlib.Core.Path.{ap₂}
use ksql.Prelude.Dict.{Dict, lookup, keys}
use ksql.Prelude.Text.{join}
use ksql.Reflect.{Value, null, json}
use ksql.Structs.Info.{StructInfo, by_name}
use ksql.Dialect.{
  Dialect, InsertMethod, insert_with_returning, insert_with_output, insert_method, escape,
  placeholder, driver_name,
}
use ksql.Table.{Table}
use ksql.Sql.Scan.{ScanArg, address}
use ksql.Sql.Insert.{
  placeholders_from, output_query, returning_query, scan_values, insert_text, write_insert,
}
use Prim.Native.String.{◌++◌}
use package.text.Mathlib.TextLemmas.{nil-append, append-nil, append_assoc}

-- `n` placeholders from index `i`.
abbrev pub marks : Dialect → ℕ → ℕ → List String
marks d i zero = []
marks d i (suc n) = placeholder d i ∷ marks d (suc i) n

-- The statement up to the names of its columns, and its tuple of placeholders.
abbrev pub into_columns : Dialect → String → List String → String
into_columns d table columns =
    "INSERT INTO " ++ (escape d table ++ (" (" ++ (join (map (escape d) columns) ", " ++ ")")))

abbrev pub a_tuple : Dialect → List String → String
a_tuple d columns = " VALUES (" ++ (join (marks d 0 (length columns)) ", " ++ ")")

-- The statement of each method: the new ids are asked for after VALUES, before VALUES, or not.
abbrev pub insert_sql : InsertMethod → Dialect → String → List String → List String → String
insert_sql insert_with_returning d table ids columns =
    into_columns d table columns
    ++ (a_tuple d columns ++ (" RETURNING " ++ join (map (escape d) ids) ", "))
insert_sql insert_with_output d table ids columns =
    into_columns d table columns
    ++ ((" OUTPUT " ++ join (map (λ id. "INSERTED." ++ escape d id) ids) ", ") ++ a_tuple d columns)
insert_sql _ d table ids columns = into_columns d table columns ++ a_tuple d columns

-- The value of a column, as JSON if the tag of its field asks for it.
abbrev pub sent_value : Dialect → StructInfo → Dict Value → String → Value
sent_value d info m column = elim (lookup column m) [
  | none ↦ if (by_name info column).serialize_as_json then json (driver_name d) null else null
  | some v ↦ if (by_name info column).serialize_as_json then json (driver_name d) v else v
]

-- The fields of the ids, in their order.
abbrev pub id_fields : StructInfo → List String → List ScanArg
id_fields info ids = map (λ id. address ((by_name info id).index ∷ [])) ids

marks-placeholders_from :
    (d : Dialect) (i : ℕ) (columns : List String)
    → placeholders_from d i columns ≡ marks d i (length columns)
unfolding placeholders_from
marks-placeholders_from d i [] = refl
marks-placeholders_from d i (column ∷ more) =
    ap (λ l. placeholder d i ∷ l) (marks-placeholders_from d (suc i) more)

written_by :
    (method : InsertMethod) (d : Dialect) (table : String) (ids columns : List String)
    → "INSERT INTO "
        ++ (escape d table
            ++ (" ("
                ++ (join (map (escape d) columns) ", "
                    ++ (")"
                        ++ (output_query method d ids
                            ++ (" VALUES ("
                                ++ (join (placeholders_from d 0 columns) ", "
                                    ++ (")" ++ returning_query method d ids))))))))
      ≡ insert_sql method d table ids columns
unfolding output_query returning_query
written_by insert_with_returning d table ids columns =
    rw (marks-placeholders_from d 0 columns) (simp (append_assoc, nil-append) refl)
written_by insert_with_output d table ids columns =
    rw (marks-placeholders_from d 0 columns) (simp (append_assoc, append-nil) refl)
written_by _ d table ids columns =
    rw (marks-placeholders_from d 0 columns) (simp (append_assoc, nil-append, append-nil) refl)

sent_value-param :
    (d : Dialect) (info : StructInfo) (m : Dict Value) (columns : List String)
    → map (param d info m) columns ≡ map (sent_value d info m) columns
sent_value-param d info m [] = refl
sent_value-param d info m (column ∷ more) =
    ap₂ (λ v vs. v ∷ vs)
      (elim (Option-cases (lookup column m)) [
        | inl absent ↦ rw (absent, param, sent_value, get_or_null) refl
        | inr (v, there) ↦ rw (there, param, sent_value, get_or_null) refl
      ])
      (sent_value-param d info m more)

module _ (order : List String → List String) (d : Dialect) (table : Table) (info : StructInfo)
    (m : Dict Value) where
  pub write_insert-query :
      (write_insert order d table info m).query
      ≡ insert_sql (insert_method d) d table.name table.id_columns (order (keys m))
  unfolding write_insert insert_text
  write_insert-query = written_by (insert_method d) d table.name table.id_columns (order (keys m))

  pub write_insert-params :
      (write_insert order d table info m).params ≡ map (sent_value d info m) (order (keys m))
  unfolding write_insert
  write_insert-params = sent_value-param d info m (order (keys m))

  pub write_insert-scan_values :
      (insert_method d ≡ insert_with_returning) ⊎ (insert_method d ≡ insert_with_output)
      → (write_insert order d table info m).scan_values ≡ id_fields info table.id_columns
  unfolding write_insert scan_values
  write_insert-scan_values by_rows = elim by_rows [
    | inl returning ↦ rw returning refl
    | inr output ↦ rw output refl
  ]
