-- ===== src/Db/Invariant.antt =====
-- What the calls of the client keep: the two caches hold what is true of the types, and as many
-- transactions are open as before.
use ksql.Prelude.{ℕ, suc, String, ◌≡◌, refl, ap, sym, ◌∙◌, Option, none, some, List, [], ◌∷◌}
use ksql.Prelude.Result.{ok, Error}
use ksql.Prelude.Action.{Action, ◌>>=◌}
use ksql.Reflect.{GoType, Value}
use ksql.Structs.Info.{StructInfo}
use ksql.Structs.Tags.{get_tag_names}
use ksql.Structs.ToMap.{struct_to_map}
use ksql.Structs.ToMap.Caching.{struct_to_map-IsFaithful}
use ksql.World.{
  World, Log, Event, exec, query, close_rows, deferred_close, begin, commit, rollback, on_tags,
  get_tag_info, emit,
}
use ksql.World.Laws.{get_tag_info-OnlyTags, get_tag_info-eq-get_tag_names}
use ksql.World.Preserves.{Preserves, bind-Preserves, bind-knowing-Preserves, preserving_rules}
use ksql.Dialect.{Dialect}
use ksql.Sql.Select.{build_select_query}
use ksql.Sql.Select.Laws.{build_select_query-IsQuiet}
use ksql.Sql.Select.Sound.{IsSound, OnlyTags-IsSound, build_select_query-refines}
use ksql.Db.{Db, Rows, exec_context, query_context, close, deferring_close, wrapping}

-- One more transaction is open, or one less; there is none to end if none is open.
abbrev pub opened : Option ℕ → Option ℕ
opened none = none
opened (some n) = some (suc n)

abbrev pub ended : Option ℕ → Option ℕ
ended (some (suc n)) = some n
ended _ = none

-- How many transactions have begun, by the answers of the driver, and have had neither a commit nor
-- a rollback; nothing if a commit or a rollback came when none was open.
abbrev pub open_transactions : (Log → Option Error) → Log → Option ℕ
open_transactions begins [] = some 0
open_transactions begins (begin ∷ l) = elim (begins l) [
  | none ↦ opened (open_transactions begins l)
  | some e ↦ open_transactions begins l
]
open_transactions begins (commit ∷ l) = ended (open_transactions begins l)
open_transactions begins (rollback ∷ l) = ended (open_transactions begins l)
open_transactions begins (e ∷ l) = open_transactions begins l

pub ended-opened : (n : Option ℕ) → ended (opened n) ≡ n
ended-opened none = refl
ended-opened (some n) = refl

abbrev pub Holds : (Log → Option Error) → Option ℕ → World → Type 0
Holds begins n w = IsSound w × (open_transactions begins w.log ≡ n)

module _ (begins : Log → Option Error) (n : Option ℕ) where
  abbrev I : World → Type 0
  I = Holds begins n

  pub get_tag_info-Preserves : (t : GoType) → Preserves I (get_tag_info t)
  get_tag_info-Preserves t = record {
    at = λ w h.
        let only = get_tag_info-OnlyTags t w h.0.tags in
        (OnlyTags-IsSound only h.0, ap (open_transactions begins) only.log ∙ h.1);
  }

  -- The information on a type that a call goes on with is that type's.
  pub tagged-Preserves :
      {B : Type 0} (t : GoType) (k : StructInfo → Action World B)
      → ((info : StructInfo) → get_tag_names t ≡ ok info → Preserves I (k info))
      → Preserves I (get_tag_info t >>= k)
  tagged-Preserves t k pk =
      bind-knowing-Preserves (get_tag_info t) k (get_tag_info-Preserves t)
        (λ w info h e. pk info (sym (get_tag_info-eq-get_tag_names t w h.0.tags) ∙ e))

  pub struct_to_map-Preserves : (v : Value) → Preserves I (on_tags (struct_to_map v))
  struct_to_map-Preserves v = record {
    at = λ w h.
        (record { tags = struct_to_map-IsFaithful v w.tags h.0.tags; selects = h.0.selects }, h.1);
  }

  pub build_select_query-Preserves :
      (d : Dialect) (t : GoType) (info : StructInfo)
      → get_tag_names t ≡ ok info
      → Preserves I (build_select_query d t info)
  build_select_query-Preserves d t info read = record {
    at = λ w h. (
      (build_select_query-refines d t info read w h.0).1,
      ap (open_transactions begins) ((build_select_query-IsQuiet d t info).at w) ∙ h.1,
    );
  }

  -- Sound caches do not depend on the log.
  pub relogged-IsSound : (e : Event) (w : World) → IsSound w → IsSound (emit e w)
  relogged-IsSound e w h = record { tags = h.tags; selects = h.selects }

  module _ (c : Db) (sql : String) (params : List Value) where
    pub exec_context-Preserves : Preserves I (exec_context c sql params)
    unfolding exec_context
    exec_context-Preserves = record { at = λ w h. (relogged-IsSound (exec sql params) w h.0, h.1) }

    pub query_context-Preserves : Preserves I (query_context c sql params)
    unfolding query_context
    query_context-Preserves = record {
      at = λ w h. (relogged-IsSound (query sql params) w h.0, h.1);
    }

    pub wrapped-query_context-Preserves :
        {B : Type 0} (words : String) (k : Rows → Action World B)
        → ((rows : Rows) → Preserves I (k rows))
        → Preserves I
            ((λ w. let (r, w') = query_context c sql params w in (wrapping words r, w')) >>= k)
    unfolding query_context
    wrapped-query_context-Preserves words k pk =
        bind-Preserves (λ w. let (r, w') = query_context c sql params w in (wrapping words r, w')) k
          (record { at = λ w h. (relogged-IsSound (query sql params) w h.0, h.1) }) pk

  pub close-Preserves : (rows : Rows) → Preserves I (close rows)
  unfolding close
  close-Preserves rows = record { at = λ w h. (relogged-IsSound close_rows w h.0, h.1) }

  pub deferring_close-Preserves :
      {A : Type 0} (m : Action World A) → Preserves I m → Preserves I (deferring_close m)
  unfolding deferring_close
  deferring_close-Preserves m p = record {
    at = λ w h. let after = p.at w h in (relogged-IsSound deferred_close (m w).1 after.0, after.1);
  }

pub ruleset holding_rules = (
  preserving_rules, get_tag_info-Preserves, struct_to_map-Preserves, exec_context-Preserves,
  query_context-Preserves, wrapped-query_context-Preserves, close-Preserves,
  deferring_close-Preserves,
)
