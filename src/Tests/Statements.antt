-- ===== src/Tests/Statements.antt =====
-- Runs of the parts that write statements.
use ksql.Prelude.{◌≡◌, refl, [], ◌∷◌, map}
use ksql.Prelude.Dict.{keys, insert, lookup}
use ksql.Prelude.Text.{split, to_lower}
use ksql.Prelude.Result.{ok}
use ksql.Reflect.{text}
use ksql.Structs.Info.{by_index, by_name, add, insert_new, set_index}
use ksql.Structs.Tags.{get_tag_names, ksql_tags, nested_tags, parse_tag}
use ksql.Structs.Cache.{empty-IsFaithful}
use ksql.Dialect.{postgres, sqlite3}
use ksql.Prelude.Dict.{delete}
use ksql.Prelude.Text.{itoa, join}
use ksql.Structs.Info.{find_index}
use ksql.Dialect.{placeholder, escape}
use ksql.Sql.Select.{build_select_query_for_nested_structs, select_clause}
use ksql.Sql.Scan.{get_scan_args_for_nested_structs}
use ksql.Sql.Slots.{written, target, slots-align}
use ksql.Sql.Update.{write_update}
use ksql.Sql.Update.Laws.{write_update-lays_out}
use mathlib.Core.List.Permᴰ
use ksql.Tests.{joined_fields, user_info, start, user_map, joined_info, joined_slots}

slots-align_example :
    ((build_select_query_for_nested_structs sqlite3 joined_fields joined_info start).0
      ≡ ok (select_clause (map (written sqlite3) joined_slots)))
    × ((get_scan_args_for_nested_structs sqlite3 joined_info 0 joined_fields [] start).0
        ≡ ok (map (target sqlite3) joined_slots))
unfolding get_tag_names add ksql_tags nested_tags parse_tag insert_new set_index split to_lower
    insert lookup by_index find_index
slots-align_example =
    slots-align sqlite3 joined_info joined_fields joined_slots start start empty-IsFaithful
      empty-IsFaithful refl

write_update-lays_out_example :
    write_update (λ ks. ks) postgres "users" user_info ("id" ∷ []) user_map
    ≡ ("UPDATE \"users\" SET \"name\" = $1 WHERE \"id\" = $2", text "Ada" ∷ text "4" ∷ [])
unfolding lookup delete keys by_name placeholder escape itoa join
write_update-lays_out_example =
    write_update-lays_out (λ ks. ks) (λ ks. Permᴰ.refl ks) postgres "users" user_info ("id" ∷ [])
      user_map (((λ e. cc e), tt), (tt, tt)) (tt, tt) ((text "4", refl), tt)
