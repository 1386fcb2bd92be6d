-- ===== src/Table.antt =====
-- Table of contracts.go: NewTable, validate and insertMethodFor.
use ksql.Prelude.{
  String, ◌≡◌, ◌≢◌, refl, ◌↔◌, List, [], ◌∷◌, ◌==◌, eq_iff, eqb, length, if◌then◌else◌, arith, All,
}
use ksql.Prelude.Result.{Result, ok, err, msg}
use ksql.Dialect.{
  Dialect, InsertMethod, insert_with_last_insert_id, insert_with_no_id_retrieval, insert_method,
}

pub record Table : Type 0 where
  pub name : String
  pub id_columns : List String

abbrev or_id : List String → List String
or_id [] = "id" ∷ []
or_id (id ∷ ids) = id ∷ ids

pub new_table : String → List String → Table
new_table table_name ids = record { name = table_name; id_columns = or_id ids }

validate_ids : List String → Result (Unit {0})
validate_ids [] = ok tt
validate_ids (field_name ∷ more) =
    if field_name == "" then err (msg "ID columns cannot be empty strings") else validate_ids more

unfoldable pub validate : Table → Result (Unit {0})
unfolding validate_ids
validate t =
    if t.name == ""
    then err (msg "table name cannot be an empty string")
    else validate_ids t.id_columns

without_last_id : InsertMethod → InsertMethod
without_last_id insert_with_last_insert_id = insert_with_no_id_retrieval
without_last_id method = method

unfoldable pub insert_method_for : Table → Dialect → InsertMethod
unfolding without_last_id insert_method
insert_method_for t dialect =
    if eqb (length t.id_columns) 1
    then insert_method dialect
    else without_last_id (insert_method dialect)

validate_ids_iff : (ids : List String) → (validate_ids ids ≡ ok tt) ↔ All (λ id. id ≢ "") ids
unfolding validate_ids
validate_ids_iff [] = (λ _. tt, λ _. refl)
validate_ids_iff (id ∷ ids) = ground (arith, eq_iff id "", validate_ids_iff ids)

-- A table is valid if and only if neither its name nor one of its id columns is empty.
pub validate_iff :
    (t : Table) → (validate t ≡ ok tt) ↔ ((t.name ≢ "") × All (λ id. id ≢ "") t.id_columns)
unfolding validate
validate_iff t = ground (arith, eq_iff t.name "", validate_ids_iff t.id_columns)
