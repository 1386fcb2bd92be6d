-- ===== src/Tests/Inserts.antt =====
-- Runs of Insert.
use ksql.Prelude.{◌≡◌, refl, some, false, [], ◌∷◌, inl, ◌∙◌}
use ksql.Prelude.Dict.{Dict, lookup, insert}
use ksql.Prelude.Text.{split, to_lower}
use ksql.Prelude.Result.{ok, panic, and_then}
use ksql.Reflect.{
  Fields, Value, Values, basic, any_type, struct, end, field, scalar, null, ref, object, done, more,
}
use ksql.Structs.Info.{StructInfo, by_name, add, insert_new, set_index, by_index, find_index}
use ksql.Structs.Tags.{get_tag_names, ksql_tags, nested_tags, parse_tag}
use ksql.Structs.Cache.{empty-IsFaithful}
use ksql.Structs.ToMap.{collect, put_field, struct_to_map}
use ksql.Structs.ToMap.Laws.{struct_to_map-collect}
use ksql.World.{query, get_tag_info}
use ksql.World.Laws.{get_tag_info-eq-get_tag_names, get_tag_info-OnlyTags}
use ksql.Dialect.{postgres, insert_method}
use ksql.Db.{Db}
use ksql.Db.Write.{Runtime}
use ksql.Db.Write as Write
use ksql.Sql.Insert.Laws.{HasNoNull, Keeps}
use ksql.Db.Write.Inserts.{sql_of, params_of, insert-panics}
use ksql.Db.Write.Reading.{sent, after_rows, insert-reads}
use ksql.Tests.{
  tagged, client, start, two_rows, user, user_fields, user_values, user_info, users, id_field,
}
use ksql.Sql.Insert.{write_insert, insert_text, placeholders_from, scan_values}
use ksql.Sql.Insert.Written.{id_fields}
use ksql.Sql.Scan.{address}
use ksql.Reflect.{text}
use ksql.Prelude.Text.{join, itoa}
use ksql.Prelude.Dict.{keys}
use ksql.Table.{Table}
use ksql.Dialect.{sqlserver, mysql, escape, placeholder}
use ksql.Tests.Client.{valid_users}
use ksql.Tests.Writes.{of_user, mapped, informed}
use mathlib.Core.List.Memᴰ

abbrev storing : Runtime
storing = record { order = λ ks. ks; convert_int64 = λ t id. some (scalar (basic "int") 7) }

no_null : HasNoNull ("id" ∷ []) of_user
unfolding lookup
no_null = ((λ e. absurd (cc e)), tt)

-- A client of PostgreSQL whose driver answers every query with two rows.
abbrev returning : Db
returning = record client {
  dialect = postgres;
  db = record client.db { query_context = λ log sql params. ok two_rows };
}

insert-reads_example :
    (m' : Dict Value) × Keeps ("id" ∷ []) of_user m'
    × (sent (Write.insert returning storing users (ref user) start).1.log
        ≡ query (sql_of returning storing users m') (params_of returning storing user_info m') ∷ [])
    × ((Write.insert returning storing users (ref user) start).0
        ≡ and_then
            (ok two_rows)
            (λ rows. after_rows returning (id_fields user_info ("id" ∷ [])) user rows rows.rows))
unfolding insert_method
insert-reads_example =
    insert-reads returning storing users valid_users "User" user_fields user_values start user_info
      informed of_user mapped (inl refl) no_null

-- A struct whose id is an interface.
abbrev loose_fields : Fields
loose_fields = field (tagged "id") any_type end

abbrev loose_info : StructInfo
loose_info = record {
  is_nested_struct = false;
  by_index_map = (0, id_field) ∷ [];
  by_name_map = ("id", id_field) ∷ [];
}

abbrev without_id : Values
without_id = more null done

read_loose : get_tag_names (struct "Loose" loose_fields) ≡ ok loose_info
unfolding get_tag_names add ksql_tags nested_tags parse_tag insert_new set_index split to_lower
    insert lookup
read_loose = refl

informed_loose : (get_tag_info (struct "Loose" loose_fields) start).0 ≡ ok loose_info
informed_loose =
    get_tag_info-eq-get_tag_names (struct "Loose" loose_fields) start empty-IsFaithful ∙ read_loose

mapped_loose :
    (struct_to_map
      (ref (object "Loose" loose_fields without_id))
      (get_tag_info (struct "Loose" loose_fields) start).1.tags).0
    ≡ ok (("id", null) ∷ [])
unfolding collect put_field by_index find_index insert
mapped_loose =
    struct_to_map-collect "Loose" loose_fields without_id loose_info read_loose refl
      (get_tag_info (struct "Loose" loose_fields) start).1.tags
      (get_tag_info-OnlyTags (struct "Loose" loose_fields) start empty-IsFaithful).faithful

insert-panics_example :
    ((Write.insert client storing users (ref (object "Loose" loose_fields without_id)) start).0
      ≡ panic "reflect: call of reflect.Value.IsZero on zero Value")
    × ((Write.insert client storing users
          (ref (object "Loose" loose_fields without_id))
          start).1.log
        ≡ [])
unfolding lookup
insert-panics_example =
    insert-panics client storing users valid_users "Loose" loose_fields without_id start loose_info
      informed_loose (("id", null) ∷ []) mapped_loose "id" (Memᴰ.head refl) refl

-- What is written of a record with two ids, by the drivers that ask for them and by one that does
-- not.
abbrev keyed : Table
keyed = record { name = "users"; id_columns = "id" ∷ "name" ∷ [] }

abbrev ada : Dict Value
ada = ("id", scalar (basic "int") 4) ∷ ("name", text "Ada") ∷ []

returning_test : write_insert (λ ks. ks) postgres keyed user_info ada ≡ record {
  query = "INSERT INTO \"users\" (\"id\", \"name\") VALUES ($1, $2) RETURNING \"id\", \"name\"";
  params = scalar (basic "int") 4 ∷ text "Ada" ∷ [];
  scan_values = address (0 ∷ []) ∷ address (1 ∷ []) ∷ [];
}
unfolding write_insert insert_text placeholders_from scan_values insert_method escape placeholder
    join itoa keys lookup by_name
returning_test = refl

output_test : write_insert (λ ks. ks) sqlserver keyed user_info ada ≡ record {
  query =
      "INSERT INTO [users] ([id], [name]) OUTPUT INSERTED.[id], INSERTED.[name] VALUES (@p1, @p2)";
  params = scalar (basic "int") 4 ∷ text "Ada" ∷ [];
  scan_values = address (0 ∷ []) ∷ address (1 ∷ []) ∷ [];
}
unfolding write_insert insert_text placeholders_from scan_values insert_method escape placeholder
    join itoa keys lookup by_name
output_test = refl

no_ids_test : write_insert (λ ks. ks) mysql keyed user_info ada ≡ record {
  query = "INSERT INTO `users` (`id`, `name`) VALUES (?, ?)";
  params = scalar (basic "int") 4 ∷ text "Ada" ∷ [];
  scan_values = [];
}
unfolding write_insert insert_text placeholders_from scan_values insert_method escape placeholder
    join itoa keys lookup by_name
no_ids_test = refl
