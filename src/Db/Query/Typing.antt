-- ===== src/Db/Query/Typing.antt =====
-- The records that the client hands back have the types of the records that it was given.
pub mod Calls
use ksql.Prelude.{
  ℕ, zero, suc, String, ◌≡◌, ◌⊎◌, refl, ap, sym, ◌∙◌, Bool, true, false, Option, none, some, inl,
  inr, List, [], ◌∷◌, All, get_elem?, set, length, leb, ◌==◌, eq_iff, Bool-cases, Option-cases,
  if◌then◌else◌, arith,
}
use ksql.Prelude.Result.{Result, ok, err, panic, Error}
use ksql.Prelude.Action.{Action, pure, lift, ◌>>=◌, continue}
use ksql.Reflect.{
  GoType, Fields, end, field, basic, interface, ptr, slice, map_of, func, struct, Value, Values,
  null, scalar, text, nil_ptr, ref, dict, list, object, json,
}
use ksql.Reflect.Typing.{HasType, HaveTypes}
use ksql.World.{World, get_tag_info}
use ksql.Sql.Scan.{ScanArg}
use ksql.Db.{Db, Rows, close, or_fail}
use ksql.Db.Scanning.{zero_value, zero_values, scan_args, scan_into, scan_struct, scan_rows}
use ksql.Db.Query.{new_element, grown, scan_element, element_at, fill, read_rows, read_first}
use mathlib.Core.List.{◌++◌}
use mathlib.Core.Path.{subst}

-- A call whose result, if it has one, is good.
pub record Gives {A : Type 0} (P : A → Type 0) (m : Action World A) : Type 0 where
  pub at : (w : World) (a : A) → (m w).0 ≡ ok a → P a

module _ {A B : Type 0} (P : B → Type 0) (m : Action World A) (k : A → Action World B) where
  continue-Gives :
      (r : Result A) (w : World) (b : B)
      → ((a : A) → r ≡ ok a → Gives P (k a))
      → (continue r k w).0 ≡ ok b
      → P b
  continue-Gives (ok a) w b h e = (h a refl).at w b e
  continue-Gives (err x) w b h e = absurd (cc e)
  continue-Gives (panic p) w b h e = absurd (cc e)

  pub bind-Gives : ((a : A) → Gives P (k a)) → Gives P (m >>= k)
  bind-Gives h = record { at = λ w b e. continue-Gives (m w).0 (m w).1 b (λ a _. h a) e }

  -- What follows may rely on what the first call gives.
  pub bind-Gives_from :
      (Q : A → Type 0) → Gives Q m → ((a : A) → Q a → Gives P (k a)) → Gives P (m >>= k)
  bind-Gives_from Q first h = record {
    at = λ w b e. continue-Gives (m w).0 (m w).1 b (λ a given. h a (first.at w a given)) e;
  }

pub pure-Gives : {A : Type 0} (P : A → Type 0) (a : A) → P a → Gives P (pure a)
pure-Gives P a h = record { at = λ w b e. subst P (cc e) h }

pub fails-Gives : {A : Type 0} (P : A → Type 0) (e : Error) → Gives P (lift (err e))
fails-Gives P e = record { at = λ w b h. absurd (cc h) }

mutual
  unfolding HasType zero_value

  zero_value-HasType : (t : GoType) → HasType (zero_value t) t
  zero_value-HasType (basic n) = elim (Bool-cases (n == "string")) [
    | inl same ↦ rw same (inr (ap basic ((eq_iff n "string").0 same)))
    | inr other ↦ rw other (inr refl)
  ]
  zero_value-HasType (interface n) = refl
  zero_value-HasType (ptr t) = inr refl
  zero_value-HasType (slice t) = inr refl
  zero_value-HasType (map_of k v) = inr refl
  zero_value-HasType (func is os) = inr refl
  zero_value-HasType (struct n fs) = inr (refl, zero_values-HaveTypes fs)

  zero_values-HaveTypes : (fs : Fields) → HaveTypes (zero_values fs) fs
  zero_values-HaveTypes end = tt
  zero_values-HaveTypes (field h t fs) = (zero_value-HasType t, zero_values-HaveTypes fs)

-- The driver's scan keeps the type of the record.
abbrev pub KeepsTypes : Db → Type 0
KeepsTypes c =
    (row : List Value) (args : List ScanArg) (v v' : Value) (t : GoType)
    → HasType v t
    → c.db.scan row args v ≡ (none, v')
    → HasType v' t

module _ (c : Db) (keeps : KeepsTypes c) (t : GoType) where
  scan_into-HasType :
      (row : List Value) (args : List ScanArg) (v : Value)
      → HasType v t
      → (v' : Value) → scan_into c.db row args v ≡ ok v'
      → HasType v' t
  unfolding scan_into
  scan_into-HasType row args v h v' e = elim (Option-cases (c.db.scan row args v).0) [
    | inl worked ↦
        let same : (c.db.scan row args v).1 ≡ v' = cc (rw (scan_into, worked) at e) in
        subst (λ x. HasType x t) same
          (keeps row args v (c.db.scan row args v).1 t h
            (ap (λ o. (o, (c.db.scan row args v).1)) worked))
    | inr (x, failed) ↦ absurd (cc (rw (scan_into, failed) at e))
  ]

  module _ (rows : Rows) (row : List Value) where
    scan_struct-Gives :
        (v : Value) → HasType v t → Gives (λ v'. HasType v' t) (scan_struct c rows row v)
    unfolding scan_struct
    scan_struct-Gives (object n fs vs) h = bind-Gives _ (get_tag_info (struct n fs)) _ λ info.
        bind-Gives _ (scan_args c rows fs info) _
          λ args. record { at = λ w v' e. scan_into-HasType row args (object n fs vs) h v' e }
    scan_struct-Gives v h = fails-Gives _ _

    pub scan_rows-Gives :
        (v : Value) → HasType v t → Gives (λ v'. HasType v' t) (scan_rows c rows row (ref v))
    unfolding scan_rows
    scan_rows-Gives v h = scan_struct-Gives v h

-- The elements of the slice, each of the type `t` or a pointer to it.
abbrev element_type : GoType → Bool → GoType
element_type t ptrs = if ptrs then ptr t else t

module _ (t : GoType) (ptrs : Bool) where
  abbrev AllTyped : List Value → Type 0
  AllTyped = All (λ v. HasType v (element_type t ptrs))

  new_element-HasType : HasType (new_element t ptrs) (element_type t ptrs)
  unfolding new_element HasType
  new_element-HasType = elim (Bool-cases ptrs) [
    | inl pointers ↦ rw pointers (inr (t, refl, zero_value-HasType t))
    | inr plain ↦ rw plain (zero_value-HasType t)
  ]

  All-snoc :
      (v : Value) (items : List Value)
      → AllTyped items
      → HasType v (element_type t ptrs)
      → AllTyped (items ++ (v ∷ []))
  All-snoc v [] h hv = (hv, tt)
  All-snoc v (x ∷ items) (h, hs) hv = (h, All-snoc v items hs hv)

  grown-typed : (idx : ℕ) (items : List Value) → AllTyped items → AllTyped (grown t ptrs idx items)
  unfolding grown
  grown-typed idx items h = elim (Bool-cases (leb (length items) idx)) [
    | inl short ↦ rw short (All-snoc _ items h new_element-HasType)
    | inr enough ↦ rw enough h
  ]

  set-typed :
      (items : List Value) (idx : ℕ) (v : Value)
      → AllTyped items
      → HasType v (element_type t ptrs)
      → AllTyped (set items idx v)
  set-typed [] idx v h hv = tt
  set-typed (x ∷ items) zero v (h, hs) hv = (hv, hs)
  set-typed (x ∷ items) (suc idx) v (h, hs) hv = (h, set-typed items idx v hs hv)

  element_at-typed :
      (items : List Value) (idx : ℕ)
      → AllTyped items
      → HasType (element_at items idx) (element_type t ptrs) ⊎ (element_at items idx ≡ null)
  unfolding element_at
  element_at-typed [] idx h = inr refl
  element_at-typed (x ∷ items) zero (h, hs) = inl h
  element_at-typed (x ∷ items) (suc idx) (h, hs) = element_at-typed items idx hs

module _ (c : Db) (keeps : KeepsTypes c) (t : GoType) (rows : Rows) where
  scan_element-Gives :
      (row : List Value) (ptrs : Bool) (v : Value)
      → HasType v (element_type t ptrs) ⊎ (v ≡ null)
      → Gives (λ v'. HasType v' (element_type t ptrs)) (scan_element c rows row ptrs v)
  unfolding scan_element scan_rows scan_struct HasType
  scan_element-Gives row true (ref u) (inl (inl impossible)) = absurd (cc impossible)
  scan_element-Gives row true (ref u) (inl (inr (s, same, hu))) =
      let plain : HasType u t = subst (λ x. HasType u x) (cc same) hu in
      bind-Gives_from _ (scan_rows c rows row (ref u)) _ (λ v. HasType v t)
        (scan_rows-Gives c keeps t rows row u plain)
        (λ v hv. pure-Gives _ (ref v) (inr (t, refl, hv)))
  scan_element-Gives row true (ref u) (inr nothing) = absurd (cc nothing)
  scan_element-Gives row true v h = record { at = λ w a e. absurd (cc e) }
  scan_element-Gives row false v (inl hv) = scan_rows-Gives c keeps t rows row v hv
  scan_element-Gives row false v (inr nothing) = rw nothing (fails-Gives _ _)

  fill-Gives :
      (ptrs : Bool) (idx : ℕ) (rs : List (List Value)) (items : List Value)
      → AllTyped t ptrs items
      → Gives (AllTyped t ptrs) (fill c rows t ptrs idx rs items)
  unfolding fill
  fill-Gives ptrs idx [] items h = pure-Gives _ items h
  fill-Gives ptrs idx (row ∷ more) items h =
      let g = grown-typed t ptrs idx items h in
      bind-Gives_from _ (scan_element c rows row ptrs (element_at (grown t ptrs idx items) idx)) _
        (λ v. HasType v (element_type t ptrs))
        (scan_element-Gives row ptrs _ (element_at-typed t ptrs (grown t ptrs idx items) idx g))
        (λ v hv.
          fill-Gives ptrs (suc idx) more _ (set-typed t ptrs (grown t ptrs idx items) idx v g hv))

  pub read_rows-Gives :
      (ptrs : Bool) (items : List Value)
      → AllTyped t ptrs items
      → Gives (AllTyped t ptrs) (read_rows c rows t ptrs items)
  unfolding read_rows
  read_rows-Gives ptrs items h =
      bind-Gives_from _ (fill c rows t ptrs 0 rows.rows items) _ (AllTyped t ptrs)
        (fill-Gives ptrs 0 rows.rows items h)
        (λ final typed.
          bind-Gives _ (lift (or_fail rows.failure)) _
            λ _. bind-Gives _ (close rows) _ λ _. pure-Gives _ final typed)

  pub read_first-Gives :
      (rs : List (List Value)) (v : Value)
      → HasType v t
      → Gives (λ v'. HasType v' t) (read_first c rows rs v)
  unfolding read_first
  read_first-Gives [] v h = bind-Gives _ (lift (or_fail rows.failure)) _ λ _. fails-Gives _ _
  read_first-Gives (row ∷ more) v h =
      bind-Gives_from _ (scan_rows c rows row (ref v)) _ (λ v'. HasType v' t)
        (scan_rows-Gives c keeps t rows row v h)
        (λ v' typed. bind-Gives _ (close rows) _ λ _. pure-Gives _ v' typed)
