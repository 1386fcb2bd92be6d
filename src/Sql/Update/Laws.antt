-- ===== src/Sql/Update/Laws.antt =====
-- What buildUpdateQuery puts into its shared array of arguments.
use ksql.Prelude.{
  ℕ, suc, ◌+◌, ◌-◌, String, ◌≡◌, ◌≢◌, refl, ap, sym, ◌∙◌, List, [], ◌∷◌, map, length, replicate,
  eq_iff, All, arith, if◌then◌else◌, length-append, length-Permᴰ, All-Permᴰ, map-All,
  replicate-append, length-replicate, set-append,
}
use ksql.Prelude.Dict.{
  Dict, delete, keys, lookup-delete, Distinct, Has, length-delete, Distinct-delete, length-keys,
  All-keys-delete, keys-delete-ne,
}
use ksql.Reflect.{Value, null, json}
use ksql.Structs.Info.{StructInfo, by_name}
use ksql.Dialect.{Dialect, driver_name}
use ksql.Sql.Delete.{get_or_null}
use ksql.Sql.Update.{param, assignment, where_loop, set_loop, update_text, write_update, Parts}
use mathlib.Core.List.{◌++◌, append_assoc, Permᴰ}

-- The assignments to `ks`, their placeholders numbered from `i`.
abbrev pub assignments : Dialect → ℕ → List String → List String
assignments d i [] = []
assignments d i (k ∷ ks) = assignment d i k ∷ assignments d (suc i) ks

-- A map without some keys.
abbrev pub without : List String → Dict Value → Dict Value
without [] m = m
without (k ∷ ks) m = without ks (delete k m)

get_or_null-delete :
    (k j : String) (m : Dict Value) → j ≢ k → get_or_null (delete k m) j ≡ get_or_null m j
get_or_null-delete k j m h = ground (arith, lookup-delete k j m, eq_iff k j)

map_get-delete :
    (k : String) (ks : List String) (m : Dict Value)
    → All (λ j. j ≢ k) ks
    → map (get_or_null (delete k m)) ks ≡ map (get_or_null m) ks
map_get-delete k [] m h = refl
map_get-delete k (j ∷ ks) m (h, hs) = cc (get_or_null-delete k j m h, map_get-delete k ks m hs)

set_loop-args :
    (d : Dialect) (info : StructInfo) (m : Dict Value) (i : ℕ) (ks : List String)
    (pre mid post : List Value)
    → length pre ≡ i
    → length mid ≡ length ks
    → (set_loop d info m i ks (pre ++ (mid ++ post))).1 ≡ pre ++ (map (param d info m) ks ++ post)
unfolding set_loop
set_loop-args d info m i [] pre [] post h e = refl
set_loop-args d info m i [] pre (x ∷ mid) post h e = absurd (omega arith)
set_loop-args d info m i (k ∷ ks) pre [] post h e = absurd (omega arith)
set_loop-args d info m i (k ∷ ks) pre (x ∷ mid) post h e =
    let v = param d info m k in
    rw (set-append pre x (mid ++ post) i v h) (
      rw (← append_assoc pre (v ∷ []) (mid ++ post)) (
        set_loop-args d info m (suc i) ks (pre ++ v ∷ []) mid post
          (length-append pre (v ∷ []) ∙ omega arith) (omega arith)
        ∙ append_assoc pre (v ∷ []) _))

set_loop-query :
    (d : Dialect) (info : StructInfo) (m : Dict Value) (i : ℕ) (ks : List String)
    (args : List Value)
    → (set_loop d info m i ks args).0 ≡ assignments d i ks
unfolding set_loop
set_loop-query d info m i [] args = refl
set_loop-query d info m i (k ∷ ks) args =
    ap (λ l. assignment d i k ∷ l) (set_loop-query d info m (suc i) ks _)

where_loop-left :
    (d : Dialect) (base i : ℕ) (ids : List String) (args : List Value) (m : Dict Value)
    → (where_loop d base i ids args m).left ≡ without ids m
unfolding where_loop
where_loop-left d base i [] args m = refl
where_loop-left d base i (id ∷ ids) args m = where_loop-left d base (suc i) ids _ (delete id m)

where_loop-query :
    (d : Dialect) (base i : ℕ) (ids : List String) (args : List Value) (m : Dict Value)
    → (where_loop d base i ids args m).query ≡ assignments d (i + base) ids
unfolding where_loop
where_loop-query d base i [] args m = refl
where_loop-query d base i (id ∷ ids) args m =
    ap (λ l. assignment d (i + base) id ∷ l)
      (where_loop-query d base (suc i) ids _ (delete id m)
        ∙ ap (λ n. assignments d n ids) (omega arith))

where_loop-args :
    (d : Dialect) (base i : ℕ) (ids : List String) (pre rest : List Value) (m : Dict Value)
    → length pre ≡ base + i
    → length rest ≡ length ids
    → Distinct ids
    → (where_loop d base i ids (pre ++ rest) m).args ≡ pre ++ map (get_or_null m) ids
unfolding where_loop
where_loop-args d base i [] pre [] m h e u = refl
where_loop-args d base i [] pre (x ∷ rest) m h e u = absurd (omega arith)
where_loop-args d base i (id ∷ ids) pre [] m h e u = absurd (omega arith)
where_loop-args d base i (id ∷ ids) pre (x ∷ rest) m h e (u, us) =
    let v = get_or_null m id in
    rw (set-append pre x rest (base + i) v h) (
      rw (← append_assoc pre (v ∷ []) rest) (
        where_loop-args d base (suc i) ids (pre ++ v ∷ []) rest (delete id m)
          (length-append pre (v ∷ []) ∙ omega arith) (omega arith) us
        ∙ append_assoc pre (v ∷ []) _
        ∙ ap (λ l. pre ++ (v ∷ l)) (map_get-delete id ids m u)))

Has-delete :
    (id : String) (ids : List String) (m : Dict Value)
    → All (λ j. j ≢ id) ids
    → All (Has m) ids
    → All (Has (delete id m)) ids
Has-delete id [] m u h = tt
Has-delete id (j ∷ ids) m (u, us) (h, hs) =
    ((h.0, ground (arith, lookup-delete id j m, eq_iff id j)), Has-delete id ids m us hs)

length-without :
    (ids : List String) (m : Dict Value)
    → Distinct (keys m)
    → Distinct ids
    → All (Has m) ids
    → length (without ids m) + length ids ≡ length m
length-without [] m d u h = omega arith
length-without (id ∷ ids) m d (u, us) (h, hs) = omega (
  arith,
  length-delete id m d h,
  length-without ids (delete id m) (Distinct-delete id m d) us (Has-delete id ids m u hs),
)

abbrev Avoids : List String → String → Type 0
Avoids ids k = All (λ id. k ≢ id) ids

-- What holds of every key goes on holding.
All-keys-without :
    (P : String → Type 0) (ids : List String) (m : Dict Value)
    → All P (keys m)
    → All P (keys (without ids m))
All-keys-without P [] m h = h
All-keys-without P (id ∷ ids) m h = All-keys-without P ids (delete id m) (All-keys-delete P id m h)

All-and : (P Q : String → Type 0) (ks : List String) → All P ks → All Q ks → All (λ k. P k × Q k) ks
All-and P Q [] h g = tt
All-and P Q (k ∷ ks) (h, hs) (g, gs) = ((h, g), All-and P Q ks hs gs)

All-true : (ks : List String) → All (λ k. Unit {0}) ks
All-true [] = tt
All-true (k ∷ ks) = (tt, All-true ks)

keys-without : (ids : List String) (m : Dict Value) → All (Avoids ids) (keys (without ids m))
keys-without [] m = All-true (keys m)
keys-without (id ∷ ids) m =
    All-and (λ k. k ≢ id) (Avoids ids) _
      (All-keys-without (λ k. k ≢ id) ids (delete id m) (keys-delete-ne id m))
      (keys-without ids (delete id m))

get_or_null-without :
    (ids : List String) (m : Dict Value) (k : String)
    → Avoids ids k
    → get_or_null (without ids m) k ≡ get_or_null m k
get_or_null-without [] m k h = refl
get_or_null-without (id ∷ ids) m k (h, hs) =
    get_or_null-without ids (delete id m) k hs ∙ get_or_null-delete id k m h

param-without :
    (d : Dialect) (info : StructInfo) (ids : List String) (m : Dict Value) (k : String)
    → Avoids ids k
    → param d info (without ids m) k ≡ param d info m k
param-without d info ids m k h =
    ap (λ v. if (by_name info k).serialize_as_json then json (driver_name d) v else v)
      (get_or_null-without ids m k h)

module _ (order : List String → List String) (visits : (ks : List String) → Permᴰ (order ks) ks)
    (d : Dialect) (table : String) (info : StructInfo) (ids : List String) (m : Dict Value)
    (one_each : Distinct (keys m)) (ids_differ : Distinct ids) (has_ids : All (Has m) ids) where
  -- The columns that are set, in the order in which Go visits them.
  abbrev pub set_columns : List String
  set_columns = order (keys (without ids m))

  length-set_columns : length set_columns + length ids ≡ length m
  length-set_columns = omega (
    arith,
    length-Permᴰ (visits (keys (without ids m))),
    length-keys (without ids m),
    length-without ids m one_each ids_differ has_ids,
  )

  abbrev start : Parts
  start = where_loop d (length m - length ids) 0 ids (replicate (length m) null) m

  base_eq : length m - length ids ≡ length set_columns
  base_eq = omega (arith, length-set_columns)

  start-args : start.args ≡ replicate (length set_columns) null ++ map (get_or_null m) ids
  start-args =
      ap (λ n. (where_loop d (length m - length ids) 0 ids (replicate n null) m).args)
        (sym length-set_columns)
      ∙ ap (λ l. (where_loop d (length m - length ids) 0 ids l m).args)
          (replicate-append (length set_columns) (length ids) null)
      ∙ where_loop-args d (length m - length ids) 0 ids _ _ m
          (length-replicate (length set_columns) null ∙ omega (arith, base_eq))
          (length-replicate (length ids) null) ids_differ

  final-args :
      (set_loop d info start.left 0 (order (keys start.left)) start.args).1
      ≡ map (param d info m) set_columns ++ map (get_or_null m) ids
  final-args =
      ap (λ l. (set_loop d info l 0 (order (keys l)) start.args).1) (where_loop-left d _ 0 ids _ m)
      ∙ ap (λ l. (set_loop d info (without ids m) 0 set_columns l).1) start-args
      ∙ set_loop-args d info (without ids m) 0 set_columns [] _ _ refl
          (length-replicate (length set_columns) null)
      ∙ ap (λ l. l ++ map (get_or_null m) ids)
          (map-All (Avoids ids) _ _ set_columns (param-without d info ids m)
            (All-Permᴰ (Avoids ids) (visits _) (keys-without ids m)))

  final-query :
      (set_loop d info start.left 0 (order (keys start.left)) start.args).0
      ≡ assignments d 0 set_columns
  final-query =
      set_loop-query d info start.left 0 (order (keys start.left)) start.args
      ∙ ap (λ l. assignments d 0 (order (keys l))) (where_loop-left d _ 0 ids _ m)

  start-query : start.query ≡ assignments d (length set_columns) ids
  start-query =
      where_loop-query d (length m - length ids) 0 ids _ m
      ∙ ap (λ n. assignments d n ids) (omega (arith, base_eq))

  -- For a map with distinct keys and distinct id columns that are all keys of it, whatever the
  -- order in which the keys are visited, the two loops of buildUpdateQuery over their shared array
  -- write the SET clause with the placeholders from 0, one for each attribute that is no id, and
  -- the WHERE clause with the placeholders that follow, one for each id; the array holds the
  -- attributes in the order of the SET clause, then the ids.
  pub write_update-lays_out : write_update order d table info ids m ≡ (
    update_text d table (assignments d 0 set_columns) (assignments d (length set_columns) ids),
    map (param d info m) set_columns ++ map (get_or_null m) ids,
  )
  unfolding write_update
  write_update-lays_out = λ i. (update_text d table (final-query i) (start-query i), final-args i)
