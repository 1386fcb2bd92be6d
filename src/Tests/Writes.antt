-- ===== src/Tests/Writes.antt =====
-- Runs of Patch and Insert.
use ksql.Prelude.Result.{msg}
use ksql.Prelude.{none}
use ksql.Adapters.Pgx.{Pool}
use ksql.Prelude.Result.{err}
use ksql.Prelude.{arith, ◌∙◌, ◌≡◌, refl, none, [], ◌∷◌}
use ksql.Prelude.Dict.{Dict, insert}
use ksql.Prelude.Result.{ok, panic}
use ksql.Reflect.{Value, basic, scalar, text, ref}
use ksql.Structs.Info.{by_index, find_index}
use ksql.Structs.Cache.{empty-IsFaithful}
use ksql.Structs.ToMap.{collect, put_field, struct_to_map}
use ksql.Structs.ToMap.Laws.{struct_to_map-collect}
use ksql.World.{exec, get_tag_info}
use ksql.World.Laws.{get_tag_info-eq-get_tag_names, get_tag_info-OnlyTags}
use ksql.Table.{Table}
use ksql.Db.{pos}
use ksql.Db.Write.{Runtime, patch}
use ksql.Db.Write.Counts.{Counts}
use ksql.Db.Write.Updates.{patch-panics}
use ksql.Tests.{client, start, user, user_type, user_fields, user_values, user_info, read_user}

abbrev pub go : Runtime
go = record { order = λ ks. ks; convert_int64 = λ t id. none }

pub informed : (get_tag_info user_type start).0 ≡ ok user_info
informed = get_tag_info-eq-get_tag_names user_type start empty-IsFaithful ∙ read_user

abbrev pub of_user : Dict Value
of_user = ("id", scalar (basic "int") 4) ∷ ("name", text "Ada") ∷ []

pub mapped : (struct_to_map (ref user) (get_tag_info user_type start).1.tags).0 ≡ ok of_user
unfolding collect put_field by_index find_index insert
mapped =
    struct_to_map-collect "User" user_fields user_values user_info read_user refl
      (get_tag_info user_type start).1.tags
      (get_tag_info-OnlyTags user_type start empty-IsFaithful).faithful

abbrev wide : Table
wide = record { name = "users"; id_columns = "id" ∷ "name" ∷ "tenant" ∷ [] }

patch-panics_example :
    ((patch client go wide (ref user) start).0 ≡ panic "runtime error: slice bounds out of range")
    × ((patch client go wide (ref user) start).1.log ≡ [])
patch-panics_example =
    patch-panics client go wide "User" user_fields user_values start user_info informed of_user
      mapped (omega arith)

abbrev silent : Pool
silent = record {
  exec = λ log sql args. ok (pos 1);
  query = λ log sql args. err (msg "no rows");
  scan = λ row args v. (none, v);
  begin = λ log. none;
  commit = λ log. none;
  rollback = λ log. none;
}
