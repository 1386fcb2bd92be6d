-- ===== src/Structs/Goroutines.antt =====
-- GetTagInfo of internal/structs/structs.go called by many goroutines at once. The `sync.Map` is
-- shared, and each Load and each Store of it is one step; between them a goroutine is alone.
pub mod Laws
use ksql.Prelude.{ℕ, suc, Option, none, some, List, [], ◌∷◌, eqb, if◌then◌else◌}
use ksql.Prelude.Result.{Result, ok, err, panic, msg}
use ksql.Reflect.{GoType}
use ksql.Structs.Info.{StructInfo}
use ksql.Structs.Tags.{get_tag_names}
use ksql.Structs.Cache.{TagCache, CacheEntry, info, other, load, store}

-- Where a call of getCachedTagInfo stands.
pub data Stage : Type 0 where
  -- before the Load, before getTagNames, before the Store, at the end
  starting missed : Stage
  holding : StructInfo → Stage
  returned : Result StructInfo → Stage

after_load : Option CacheEntry → Stage
after_load (some (info i)) = returned (ok i)
after_load (some other) = returned (err (msg "invalid cache entry, expected type StructInfo"))
after_load none = missed

after_read : Result StructInfo → Stage
after_read (ok i) = holding i
after_read (err e) = returned (err e)
after_read (panic p) = returned (panic p)

-- One step of the call for a type.
pub advance : GoType → Stage → TagCache → Stage × TagCache
unfolding after_load after_read
advance key starting cache = (after_load (load key cache), cache)
advance key missed cache = (after_read (get_tag_names key), cache)
advance key (holding i) cache = (returned (ok i), store key (info i) cache)
advance key (returned r) cache = (returned r, cache)

-- The calls are numbered, and `stages` has the stage of each.
pub record Shared : Type 0 where
  pub cache : TagCache
  pub stages : ℕ → Stage

abbrev pub update : (ℕ → Stage) → ℕ → Stage → ℕ → Stage
update stages i s j = if eqb j i then s else stages j

-- A step of the call `i`, which is for the type `key i`.
pub turn : (ℕ → GoType) → Shared → ℕ → Shared
turn key s i =
    let (stage, cache) = advance (key i) (s.stages i) s.cache in
    record { cache = cache; stages = update s.stages i stage }

-- The steps of a schedule, which says whose turn it is.
unfoldable pub run : (ℕ → GoType) → Shared → List ℕ → Shared
unfolding turn
run key s [] = s
run key s (i ∷ schedule) = run key (turn key s i) schedule

abbrev pub begin : TagCache → Shared
begin cache = record { cache = cache; stages = λ i. starting }
