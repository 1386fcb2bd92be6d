-- ===== src/Kbuilder/Query/Laws.antt =====
-- The cache of columns: what a builder finds there, whatever its dialect is.
use ksql.Prelude.{String, ◌≡◌, refl, true, Option, none, some}
use ksql.Prelude.Result.{Result, ok, err, panic}
use ksql.Reflect.{GoType, Value, struct, type_of, same_type, same_type_iff}
use ksql.Structs.Info.{StructInfo}
use ksql.Structs.Cache.{get_cached_tag_info}
use ksql.Dialect.{Dialect}
use ksql.Kbuilder.Query.{
  Cached, Caches, load, remember, read_columns, found, struct_columns, typed_columns, pointed_type,
  build_select_query,
}

same_type_refl : (t : GoType) → same_type t t ≡ true
same_type_refl t = (same_type_iff t t).1 refl

-- The columns that a dialect's build returned are found by the next build of any dialect.
remembered :
    (t : GoType) (d d' : Dialect) (r : Result StructInfo) (caches : Caches) (s : String)
    → (remember t d r caches.tags caches.selects).0 ≡ ok s
    → (found
        (load t (remember t d r caches.tags caches.selects).1.selects)
        t
        d'
        (remember t d r caches.tags caches.selects).1).0
      ≡ ok s
unfolding remember load found
remembered t d d' (ok info) caches s h = rw (same_type_refl t) (cc h)
remembered t d d' (err e) caches s h = absurd (cc h)
remembered t d d' (panic p) caches s h = absurd (cc h)

found-remembers :
    (o : Option Cached) (t : GoType) (d d' : Dialect) (caches : Caches) (s : String)
    → load t caches.selects ≡ o
    → (found o t d caches).0 ≡ ok s
    → (found (load t (found o t d caches).1.selects) t d' (found o t d caches).1).0 ≡ ok s
unfolding found read_columns
found-remembers none t d d' caches s e h =
    let (r, tags) = get_cached_tag_info t caches.tags in
    remembered t d d' r (record caches { tags = tags }) s h
found-remembers (some (Cached.cached query)) t d d' caches s e h = rw e h
found-remembers (some Cached.other) t d d' caches s e h = absurd (cc h)

typed-remembers :
    (t : GoType) (d d' : Dialect) (caches : Caches) (s : String)
    → (struct_columns t d caches).0 ≡ ok s
    → (struct_columns t d' (struct_columns t d caches).1).0 ≡ ok s
unfolding struct_columns
typed-remembers (struct n fs) d d' caches s h =
    found-remembers (load (struct n fs) caches.selects) (struct n fs) d d' caches s refl h
typed-remembers _ d d' caches s h = absurd (cc h)

-- Columns that buildSelectQuery of kbuilder returned for a value are what the next call returns
-- for it, for every dialect, also one that escapes names in another way.
pub build_select_query-build_select_query :
    (v : Value) (d d' : Dialect) (caches : Caches) (s : String)
    → (build_select_query v d caches).0 ≡ ok s
    → (build_select_query v d' (build_select_query v d caches).1).0 ≡ ok s
unfolding build_select_query typed_columns
build_select_query-build_select_query v d d' caches s h = by_type (type_of v) h
  where
    by_type :
        (o : Option GoType)
        → (typed_columns o d caches).0 ≡ ok s
        → (typed_columns o d' (typed_columns o d caches).1).0 ≡ ok s
    by_type none e = absurd (cc e)
    by_type (some t) e = typed-remembers (pointed_type t) d d' caches s e
