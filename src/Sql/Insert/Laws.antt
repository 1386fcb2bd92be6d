-- ===== src/Sql/Insert/Laws.antt =====
-- Which attributes of a record the INSERT statement carries.
use ksql.Prelude.{
  String, ◌≡◌, ◌≢◌, refl, ap, sym, ◌∙◌, Bool, true, false, ◌||◌, ◌&&◌, Option, none, some, List, [],
  ◌∷◌, ◌⊎◌, ◌==◌, eq_iff, All, Bool-cases, Option-cases, inl, inr, if◌then◌else◌, arith,
}
use ksql.Prelude.Dict.{Dict, lookup, delete, lookup-delete}
use ksql.Prelude.Result.{ok, panic}
use ksql.Reflect.{Value, null, is_zero}
use mathlib.Core.List.{Memᴰ}
use ksql.Sql.Insert.{drop_id, drop_unset_ids}

abbrev is_among : String → List String → Bool
is_among k [] = false
is_among k (id ∷ ids) = id == k || is_among k ids

-- What is kept of an attribute: an id that is the zero value of its type is not.
abbrev pub kept : List String → String → Option Value → Option Value
kept ids k none = none
kept ids k (some v) = if is_among k ids && is_zero v then none else some v

-- No id is a nil interface.
abbrev pub HasNoNull : List String → Dict Value → Type 0
HasNoNull ids m = All (λ id. lookup id m ≢ some null) ids

-- The attributes of `m` that an INSERT carries.
abbrev pub Keeps : List String → Dict Value → Dict Value → Type 0
Keeps ids m m' = (k : String) → lookup k m' ≡ kept ids k (lookup k m)

drop_id-some :
    (id : String) (v : Value) (m : Dict Value)
    → some v ≢ some null
    → drop_id id (some v) m ≡ ok (if is_zero v then delete id m else m)
unfolding drop_id
drop_id-some id null m h = absurd (h refl)
drop_id-some id v m h = refl

kept-delete :
    (id k : String) (v : Value) (m : Dict Value)
    → lookup id m ≡ some v
    → is_zero v ≡ true
    → lookup k (delete id m) ≡ kept (id ∷ []) k (lookup k m)
kept-delete id k v m e zero =
    ground (arith, lookup-delete id k m, eq_iff id k, Option-cases (lookup k m))

kept_whole :
    (id k : String) (o : Option Value) (m : Dict Value)
    → lookup id m ≡ o
    → ((v : Value) → o ≡ some v → is_zero v ≡ false)
    → lookup k m ≡ kept (id ∷ []) k (lookup k m)
kept_whole id k o m e set = elim (Option-cases (lookup k m)) [
  | inl absent ↦ rw absent refl
  | inr (x, there) ↦ elim (Bool-cases (id == k)) [
    | inl same ↦
        let found : o ≡ some x = sym e ∙ ap (λ j. lookup j m) ((eq_iff id k).0 same) ∙ there in
        rw (there, same, set x found) refl
    | inr other ↦ rw (there, other) refl
  ]
]

drop_one :
    (id : String) (o : Option Value) (m : Dict Value)
    → lookup id m ≡ o
    → o ≢ some null
    → (m' : Dict Value) × (drop_id id o m ≡ ok m') × Keeps (id ∷ []) m m'
unfolding drop_id
drop_one id none m e h = (m, refl, λ k. kept_whole id k none m e (λ v a. absurd (cc a)))
drop_one id (some v) m e h = elim (Bool-cases (is_zero v)) [
  | inl zero ↦ (delete id m, drop_id-some id v m h ∙ rw zero refl, λ k. kept-delete id k v m e zero)
  | inr set ↦ (
    m,
    drop_id-some id v m h ∙ rw set refl,
    λ k. kept_whole id k (some v) m e (λ x a. cc (a, set)),
  )
]

kept-kept :
    (id : String) (ids : List String) (k : String) (o : Option Value)
    → kept ids k (kept (id ∷ []) k o) ≡ kept (id ∷ ids) k o
kept-kept id ids k none = refl
kept-kept id ids k (some v) = ground arith

kept-nothing : (k : String) (o : Option Value) → o ≡ kept [] k o
kept-nothing k none = refl
kept-nothing k (some v) = refl

kept_null :
    (ids : List String) (k : String) (o : Option Value) → kept ids k o ≡ some null → o ≡ some null
kept_null ids k none e = e
kept_null ids k (some v) e = ground arith

HasNoNull-Keeps :
    (ids others : List String) (m m' : Dict Value)
    → Keeps ids m m'
    → HasNoNull others m
    → HasNoNull others m'
HasNoNull-Keeps ids [] m m' keeps h = tt
HasNoNull-Keeps ids (j ∷ others) m m' keeps (h, hs) = (
  λ e. h (kept_null ids j (lookup j m) (sym (keeps j) ∙ e)),
  HasNoNull-Keeps ids others m m' keeps hs,
)

-- If no id of the record is a nil interface, the ids that are zero values are removed from its
-- map, and nothing else.
pub drop_unset_ids-Keeps :
    (ids : List String) (m : Dict Value)
    → HasNoNull ids m
    → (m' : Dict Value) × (drop_unset_ids ids m ≡ ok m') × Keeps ids m m'
unfolding drop_unset_ids
drop_unset_ids-Keeps [] m h = (m, refl, λ k. kept-nothing k (lookup k m))
drop_unset_ids-Keeps (id ∷ ids) m (h, hs) =
    let (m1, dropped, keeps) = drop_one id (lookup id m) m refl h in
    let (m2, rest, keeps2) =
      drop_unset_ids-Keeps ids m1 (HasNoNull-Keeps (id ∷ []) ids m m1 keeps hs) in
    (
      m2,
      rw (drop_unset_ids, dropped) rest,
      λ k. keeps2 k ∙ ap (kept ids k) (keeps k) ∙ kept-kept id ids k (lookup k m),
    )

null_or_not : (o : Option Value) → (o ≡ some null) ⊎ (o ≢ some null)
null_or_not none = inr (λ e. absurd (cc e))
null_or_not (some null) = inl refl
null_or_not (some v) = inr (λ e. absurd (cc e))

kept-null :
    (j id : String) (m : Dict Value)
    → lookup j m ≢ some null
    → lookup id m ≡ some null
    → kept (j ∷ []) id (lookup id m) ≡ some null
kept-null j id m other e = elim (Bool-cases (j == id)) [
  | inl same ↦ absurd (other (ap (λ k. lookup k m) ((eq_iff j id).0 same) ∙ e))
  | inr apart ↦ rw (e, apart) refl
]

-- An id that is a nil interface has no IsZero.
pub drop_unset_ids-panics :
    (id : String) (ids : List String) (m : Dict Value)
    → Memᴰ id ids
    → lookup id m ≡ some null
    → drop_unset_ids ids m ≡ panic "reflect: call of reflect.Value.IsZero on zero Value"
unfolding drop_unset_ids drop_id
drop_unset_ids-panics id [] m there e = elim there [ ]
drop_unset_ids-panics id (j ∷ ids) m (Memᴰ.head same) e =
    rw (drop_unset_ids, ap (λ k. lookup k m) (sym same) ∙ e) refl
drop_unset_ids-panics id (j ∷ ids) m (Memᴰ.tail later) e = elim (null_or_not (lookup j m)) [
  | inl nil ↦ rw (drop_unset_ids, nil) refl
  | inr other ↦
      let (m1, dropped, keeps) = drop_one j (lookup j m) m refl other in
      rw (drop_unset_ids, dropped)
        (drop_unset_ids-panics id ids m1 later (keeps id ∙ kept-null j id m other e))
]
