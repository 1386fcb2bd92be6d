-- ===== src/Structs/ToMap/Caching.antt =====
-- StructToMap keeps the cache of tag information faithful.
use ksql.Prelude.{◌≡◌, refl}
use ksql.Prelude.Result.{Result, ok, err, panic}
use ksql.Prelude.Action.{Action, continue, ◌>>=◌}
use ksql.Reflect.{GoType, Value, nil_ptr, ref, object, struct}
use ksql.Structs.Info.{StructInfo}
use ksql.Structs.Cache.{
  TagCache, IsFaithful, get_cached_tag_info, get_cached_tag_info-eq-get_tag_names,
}
use ksql.Structs.ToMap.{map_object, map_pointee, map_nil, not_a_struct, struct_to_map}

module _ {A : Type 0} (cache : TagCache) (f : IsFaithful cache) where
  after_lookup :
      (t : GoType) (k : StructInfo → Action TagCache A)
      → ((info : StructInfo) (s : TagCache) → (k info s).1 ≡ s)
      → IsFaithful ((get_cached_tag_info t >>= k) cache).1
  after_lookup t k quiet =
      by_result (get_cached_tag_info t cache).0 (get_cached_tag_info-eq-get_tag_names t cache f).1
    where
      by_result :
          (r : Result StructInfo) {s : TagCache} → IsFaithful s → IsFaithful (continue r k s).1
      by_result (ok info) {s} h = rw (quiet info s) h
      by_result (err e) h = h
      by_result (panic p) h = h

pub struct_to_map-IsFaithful :
    (v : Value) (cache : TagCache) → IsFaithful cache → IsFaithful (struct_to_map v cache).1
unfolding struct_to_map map_pointee map_object map_nil not_a_struct
struct_to_map-IsFaithful (object n fs vs) cache f =
    after_lookup cache f (struct n fs) _ (λ info s. refl)
struct_to_map-IsFaithful (ref (object n fs vs)) cache f =
    after_lookup cache f (struct n fs) _ (λ info s. refl)
struct_to_map-IsFaithful (nil_ptr (struct n fs)) cache f =
    after_lookup cache f (struct n fs) _ (λ info s. refl)
struct_to_map-IsFaithful _ cache f = f
