-- ===== src/Structs/Cache.antt =====
-- tagInfoCache, GetTagInfo and getCachedTagInfo of internal/structs/structs.go. The `sync.Map` is an
-- association list by type.
use ksql.Prelude.{
  ◌≡◌, ◌≢◌, refl, sym, ap, ◌∙◌, Option, none, some, List, [], ◌∷◌, if◌then◌else◌, Bool-cases, inl,
  inr,
}
use ksql.Prelude.Result.{Result, ok, err, panic, msg}
use ksql.Prelude.Action.{Action}
use ksql.Reflect.{GoType, same_type, same_type_iff}
use ksql.Structs.Info.{StructInfo}
use ksql.Structs.Tags.{get_tag_names}

-- A `sync.Map` holds values of every type.
pub data CacheEntry : Type 0 where
  info : StructInfo → CacheEntry
  other : CacheEntry

abbrev pub TagCache : Type 0
TagCache = List (GoType × CacheEntry)

unfoldable pub load : GoType → TagCache → Option CacheEntry
load key [] = none
load key ((t, e) ∷ m) = if same_type t key then some e else load key m

-- The newest entry of a type stands first.
abbrev pub store : GoType → CacheEntry → TagCache → TagCache
store key e m = (key, e) ∷ m

abbrev pub store_ok : GoType → Result StructInfo → TagCache → TagCache
store_ok key (ok i) m = store key (info i) m
store_ok key (err e) m = m
store_ok key (panic p) m = m

-- What follows the look-up.
unfoldable pub look_at : Option CacheEntry → GoType → Action TagCache StructInfo
look_at (some (info i)) key cache = (ok i, cache)
look_at (some other) key cache = (err (msg "invalid cache entry, expected type StructInfo"), cache)
look_at none key cache = let found = get_tag_names key in (found, store_ok key found cache)

unfoldable pub get_cached_tag_info : GoType → Action TagCache StructInfo
unfolding look_at
get_cached_tag_info key cache = look_at (load key cache) key cache

-- Each entry is what getTagNames returns for its type.
pub record IsFaithful (cache : TagCache) : Type 0 where
  pub at :
      (t : GoType) (e : CacheEntry)
      → load t cache ≡ some e
      → (i : StructInfo) × (e ≡ info i) × (get_tag_names t ≡ ok i)

module _ (t : GoType) (cache : TagCache) (f : IsFaithful cache) where
  pub store_ok-IsFaithful :
      (r : Result StructInfo) → get_tag_names t ≡ r → IsFaithful (store_ok t r cache)
  unfolding load
  store_ok-IsFaithful (ok i) read = record {
    at = λ k e h. elim (Bool-cases (same_type t k)) [
      | inl same ↦ (i, cc (rw same at h), rw (← (same_type_iff t k).0 same) read)
      | inr different ↦ f.at k e (rw different at h)
    ];
  }
  store_ok-IsFaithful (err e) read = f
  store_ok-IsFaithful (panic p) read = f

  look_at-eq :
      (o : Option CacheEntry)
      → load t cache ≡ o
      → ((look_at o t cache).0 ≡ get_tag_names t) × IsFaithful (look_at o t cache).1
  unfolding look_at
  look_at-eq none miss = (refl, store_ok-IsFaithful (get_tag_names t) refl)
  look_at-eq (some (info i)) hit = let (j, same, read) = f.at t (info i) hit in (cc (same, read), f)
  look_at-eq (some other) hit = let (j, same, read) = f.at t other hit in absurd (cc same)

  -- Over a cache whose entries are what getTagNames returns, GetTagInfo answers as getTagNames
  -- does, on success, error and panic alike, and leaves such a cache.
  pub get_cached_tag_info-eq-get_tag_names :
      ((get_cached_tag_info t cache).0 ≡ get_tag_names t)
      × IsFaithful (get_cached_tag_info t cache).1
  unfolding get_cached_tag_info
  get_cached_tag_info-eq-get_tag_names = look_at-eq (load t cache) refl

-- What a cache has for a type beside the one that was looked up is what it had.
abbrev pub OthersStay : GoType → TagCache → TagCache → Type 0
OthersStay t before after = (k : GoType) → k ≢ t → load k after ≡ load k before

module _ (t : GoType) (cache : TagCache) where
  stored : (i : StructInfo) → load t (store t (info i) cache) ≡ some (info i)
  unfolding load
  stored i = rw ((same_type_iff t t).1 refl) refl

  others_stay : (e : CacheEntry) → OthersStay t cache (store t e cache)
  unfolding load
  others_stay e k apart = elim (Bool-cases (same_type t k)) [
    | inl same ↦ absurd (apart (sym ((same_type_iff t k).0 same)))
    | inr different ↦ rw different refl
  ]

  found-load :
      (r : Result StructInfo) (i : StructInfo)
      → r ≡ ok i
      → (load t (store_ok t r cache) ≡ some (info i)) × OthersStay t cache (store_ok t r cache)
  found-load (ok j) i e = (ap (λ x. load t (store_ok t x cache)) e ∙ stored i, others_stay (info j))
  found-load (err x) i e = absurd (cc e)
  found-load (panic p) i e = absurd (cc e)

  look_at-load :
      (o : Option CacheEntry) (i : StructInfo)
      → load t cache ≡ o
      → (look_at o t cache).0 ≡ ok i
      → (load t (look_at o t cache).1 ≡ some (info i)) × OthersStay t cache (look_at o t cache).1
  unfolding look_at
  look_at-load none i e h = found-load (get_tag_names t) i h
  look_at-load (some (info j)) i e h = (cc (e, h), λ k apart. refl)
  look_at-load (some other) i e h = absurd (cc h)

  -- Over any cache, if GetTagInfo returns the information on a type, then afterwards the cache has
  -- it for that type, and for all other types what it had before.
  pub get_cached_tag_info-load :
      (i : StructInfo)
      → (get_cached_tag_info t cache).0 ≡ ok i
      → (load t (get_cached_tag_info t cache).1 ≡ some (info i))
        × OthersStay t cache (get_cached_tag_info t cache).1
  unfolding get_cached_tag_info
  get_cached_tag_info-load i h = look_at-load (load t cache) i refl h

pub empty-IsFaithful : IsFaithful []
unfolding load
empty-IsFaithful = record { at = λ t e h. absurd (cc h) }
