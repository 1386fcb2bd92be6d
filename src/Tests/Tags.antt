-- ===== src/Tests/Tags.antt =====
-- Runs of the readings of tags.
use ksql.Prelude.{◌∷◌, arith}
use ksql.Structs.Goroutines.{run, begin, returned}
use ksql.Structs.Goroutines.Laws.{run-answers}
use ksql.Prelude.{◌≡◌, refl, []}
use ksql.Prelude.Dict.{Dict}
use ksql.Prelude.Result.{ok}
use ksql.Reflect.{Value, ref}
use ksql.Structs.Info.{by_index, by_name}
use ksql.Structs.Tags.{get_tag_names}
use ksql.Prelude.{some, ◌∙◌}
use ksql.Structs.Cache.{
  IsFaithful, get_cached_tag_info, empty-IsFaithful, load, info, OthersStay,
  get_cached_tag_info-load, get_cached_tag_info-eq-get_tag_names,
}
use ksql.Structs.Info.{or_invalid, find_index}
use ksql.Structs.Tags.Laws.{declared, by_index-get_tag_names, by_name-by_index}
use ksql.Structs.ToMap.{struct_to_map}
use ksql.Structs.ToMap.Laws.{Mirrors, struct_to_map-Mirrors}
use ksql.Tests.{user_fields, user_type, user_values, user, user_info, read_user}

by_index-get_tag_names_example : by_index user_info 1 ≡ or_invalid (declared user_fields 0 1)
by_index-get_tag_names_example =
    by_index-get_tag_names "User" user_fields user_info read_user refl 1

by_name-by_index_example : by_name user_info (by_index user_info 1).name ≡ by_index user_info 1
unfolding by_index find_index
by_name-by_index_example = by_name-by_index "User" user_fields user_info read_user refl 1 refl

struct_to_map-Mirrors_example :
    (m : Dict Value) × ((struct_to_map user []).0 ≡ ok m)
    × ((struct_to_map (ref user) []).0 ≡ ok m)
    × Mirrors user_fields user_values m
struct_to_map-Mirrors_example =
    struct_to_map-Mirrors "User" user_fields user_values user_info read_user refl []
      empty-IsFaithful

-- Two calls for the same type, whose steps alternate.
run-answers_example :
    ((run (λ i. user_type) (begin []) (0 ∷ 1 ∷ 0 ∷ 1 ∷ 1 ∷ 0 ∷ [])).stages 1
      ≡ returned (get_tag_names user_type))
    × IsFaithful (run (λ i. user_type) (begin []) (0 ∷ 1 ∷ 0 ∷ 1 ∷ 1 ∷ 0 ∷ [])).cache
run-answers_example =
    run-answers (λ i. user_type) 1 [] empty-IsFaithful (0 ∷ 1 ∷ 0 ∷ 1 ∷ 1 ∷ 0 ∷ []) (omega arith)

get_cached_tag_info-load_example :
    (load user_type (get_cached_tag_info user_type []).1 ≡ some (info user_info))
    × OthersStay user_type [] (get_cached_tag_info user_type []).1
get_cached_tag_info-load_example =
    get_cached_tag_info-load user_type [] user_info
      ((get_cached_tag_info-eq-get_tag_names user_type [] empty-IsFaithful).0 ∙ read_user)
