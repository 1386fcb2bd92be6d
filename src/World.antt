-- ===== src/World.antt =====
-- What the calls of the library change: the two caches of package `ksql` and of package `structs`,
-- and the calls that reached the driver or a callback, the newest first.
pub mod Laws
pub mod Quiet
pub mod Preserves
use ksql.Prelude.{String, List, [], ◌∷◌, Option}
use ksql.Prelude.Dict.{Dict}
use ksql.Prelude.Result.{Result}
use ksql.Prelude.Action.{Action}
use ksql.Reflect.{GoType, Value}
use ksql.Structs.Info.{StructInfo}
use ksql.Structs.Cache.{TagCache, get_cached_tag_info}

pub data Event : Type 0 where
  -- calls of the adapter, or of the transaction that stands for it
  exec query : String → List Value → Event
  -- the Close of rows in the course of a call, and the one that its `defer` runs at the end
  close_rows deferred_close begin commit rollback close_db : Event
  -- a chunk handed to ForEachChunk
  chunk : List Value → Event

abbrev pub Log : Type 0
Log = List Event

-- A value of the `sync.Map` that holds the SELECT clauses of one dialect.
pub data SelectEntry : Type 0 where
  clause : String → SelectEntry
  other : SelectEntry

abbrev pub SelectCache : Type 0
SelectCache = List (GoType × SelectEntry)

pub record World : Type 0 where
  pub tags : TagCache
  pub selects : Dict SelectCache
  pub log : Log

abbrev pub emit : Event → World → World
emit e w = record w { log = e ∷ w.log }

abbrev with_tags {ℓ} : {A : Type ℓ} → World → Result A × TagCache → Result A × World
with_tags w (r, tags) = (r, record w { tags = tags })

-- An action on the cache of tags alone.
abbrev pub on_tags : {A : Type 0} → Action TagCache A → Action World A
on_tags m w = with_tags w (m w.tags)

-- structs.GetTagInfo
unfoldable pub get_tag_info : GoType → Action World StructInfo
get_tag_info key = on_tags (get_cached_tag_info key)
