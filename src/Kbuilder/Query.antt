-- ===== src/Kbuilder/Query.antt =====
-- The SELECT builder of kbuilder/query.go. Its cache of columns is keyed by the type alone.
pub mod Laws
pub mod Clauses
use ksql.Prelude.{
  ℕ, zero, suc, String, Option, none, some, Bool, true, false, List, [], ◌∷◌, ltb, ◌==◌,
  if◌then◌else◌,
}
use ksql.Prelude.Text.{join, itoa, trim_space}
use ksql.Prelude.Sprintf.{Other}
use ksql.Prelude.Result.{Result, ok, err, panic, Error, msg, wrap, and_then}
use ksql.Prelude.Action.{Action, pure, raise, lift, ◌>>=◌}
use ksql.Reflect.{
  GoType, Value, null, scalar, text, nil_ptr, ref, dict, list, object, json, basic, interface, ptr,
  slice, map_of, func, struct, type_of, same_type,
}
use ksql.Structs.Info.{StructInfo, by_index, num_fields}
use ksql.Structs.Cache.{TagCache, get_cached_tag_info}
use ksql.Dialect.{Dialect, escape, get_driver_dialect}
use ksql.Db.{Int64, pos, negsuc}
use ksql.Kbuilder.Where.{WhereQuery, build}
use Prim.Native.String.{◌++◌}

pub record OrderByQuery : Type 0 where
  pub fields : String
  pub desc : Bool

pub desc : OrderByQuery → OrderByQuery
desc o = record { fields = o.fields; desc = true }

pub order_by : String → OrderByQuery
order_by fields = record { fields = fields; desc = false }

pub record Query : Type 0 where
  pub select : Value
  pub from : String
  pub where_ : List WhereQuery
  pub limit : Int64
  pub offset : Int64
  pub order_by : OrderByQuery

-- A value of the `sync.Map` cachedSelectQueries.
pub data Cached : Type 0 where
  cached : String → Cached
  other : Cached

abbrev pub SelectQueries : Type 0
SelectQueries = List (GoType × Cached)

-- The two caches that a build reads and fills.
pub record Caches : Type 0 where
  pub tags : TagCache
  pub selects : SelectQueries

unfoldable pub load : GoType → SelectQueries → Option Cached
load t [] = none
load t ((k, e) ∷ m) = if same_type k t then some e else load t m

-- The names of the fields at the indices from `i`, `n` of them.
unfoldable pub escaped_names : Dialect → StructInfo → ℕ → ℕ → List String
escaped_names d info i zero = []
escaped_names d info i (suc n) = escape d (by_index info i).name ∷ escaped_names d info (suc i) n

abbrev columns_text : Dialect → StructInfo → String
columns_text d info = join (escaped_names d info 0 (num_fields info)) ", "

-- The columns are stored, if there was no error.
remember : GoType → Dialect → Result StructInfo → TagCache → SelectQueries → Result String × Caches
remember t d (ok info) tags selects = (
  ok (columns_text d info),
  record { tags = tags; selects = (t, cached (columns_text d info)) ∷ selects },
)
remember t d (err e) tags selects = (err e, record { tags = tags; selects = selects })
remember t d (panic p) tags selects = (panic p, record { tags = tags; selects = selects })

read_columns : GoType → Dialect → Caches → Result String × Caches
unfolding remember
read_columns t d caches =
    let (r, tags) = get_cached_tag_info t caches.tags in remember t d r tags caches.selects

-- What follows `Load`.
found : Option Cached → GoType → Dialect → Action Caches String
unfolding read_columns
found (some (cached query)) t d caches = (ok query, caches)
found (some other) t d caches = (err (msg "invalid cache entry, expected type string"), caches)
found none t d caches = read_columns t d caches

struct_columns : GoType → Dialect → Action Caches String
unfolding found
struct_columns (struct n fs) d caches =
    found (load (struct n fs) caches.selects) (struct n fs) d caches
struct_columns _ d caches = (err (msg "expected to receive a pointer to struct"), caches)

-- The type without its pointer
abbrev pub pointed_type : GoType → GoType
pointed_type (ptr t) = t
pointed_type t = t

typed_columns : Option GoType → Dialect → Action Caches String
unfolding struct_columns
typed_columns none d caches =
    (panic "runtime error: invalid memory address or nil pointer dereference", caches)
typed_columns (some t) d caches = struct_columns (pointed_type t) d caches

unfoldable pub build_select_query : Value → Dialect → Action Caches String
unfolding typed_columns
build_select_query v d caches = typed_columns (type_of v) d caches

wrapped : Result String → Result String
wrapped (ok s) = ok s
wrapped (err e) = err (wrap "error reading the Select field" e)
wrapped (panic p) = panic p

-- The `switch` on the type of Select.
pub select_part : Value → Dialect → Action Caches String
unfolding wrapped
select_part (text s) d caches = (ok s, caches)
select_part v d caches = let (r, after) = build_select_query v d caches in (wrapped r, after)

-- A clause for a number above zero.
numeric : String → Int64 → String
numeric words (pos zero) = ""
numeric words (pos (suc n)) = words ++ itoa (suc n)
numeric words (negsuc n) = ""

ordering : OrderByQuery → String
ordering o =
    if o.fields == "" then "" else " ORDER BY " ++ (o.fields ++ (if o.desc then " DESC" else ""))

conditions : Other → Dialect → List WhereQuery → String × List Value
conditions fmt d [] = ("", [])
conditions fmt d (q ∷ qs) =
    let (query, params) = build fmt d (q ∷ qs) in (" WHERE " ++ query, params)

-- The text and the params, once the columns are known.
pub query_text : Other → Query → Dialect → String → String × List Value
unfolding conditions ordering numeric
query_text fmt q d columns =
    let (clause, params) = conditions fmt d q.where_ in
    (
      "SELECT "
          ++ (columns
              ++ (" FROM "
                  ++ (q.from
                      ++ (clause
                          ++ (ordering q.order_by
                              ++ (numeric " LIMIT " q.limit ++ numeric " OFFSET " q.offset)))))),
      params,
    )

unfoldable pub build_query : Other → Query → Dialect → Action Caches (String × List Value)
unfolding select_part query_text
build_query fmt q d = do
  columns ← select_part q.select d
  (if trim_space q.from == ""
      then raise (msg "the From field is mandatory for every query")
      else pure (query_text fmt q d columns))

pub build_for : Other → Query → String → Action Caches (String × List Value)
build_for fmt q driver = do dialect ← lift (get_driver_dialect driver); build_query fmt q dialect
