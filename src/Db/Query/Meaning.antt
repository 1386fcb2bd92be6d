-- ===== src/Db/Query/Meaning.antt =====
-- Query and QueryOne as functions of their arguments and the driver's answers, with no caches.
use ksql.Prelude.{
  String, ◌≡◌, refl, sym, ap, ◌∙◌, Bool, ◌&&◌, ◌==◌, List, [], ◌∷◌, Bool-cases, inl, inr,
  if◌then◌else◌,
}
use ksql.Prelude.Text.{to_upper}
use ksql.Prelude.Result.{Result, ok, err, panic, msg, record_not_found, and_then}
use ksql.Prelude.Action.{Action, ◌>>=◌, lift, bind-ok, bind-err, bind-panic, bind-returns}
use ksql.Reflect.{GoType, ptr, struct, Fields, Value, Values, ref, object, type_of}
use ksql.Structs.Info.{StructInfo}
use ksql.Structs.Tags.{get_tag_names, decode_as_slice_of_structs}
use ksql.Structs.Cache.{IsFaithful}
use ksql.World.{World, Log, get_tag_info}
use ksql.World.Laws.{get_tag_info-eq-get_tag_names, get_tag_info-OnlyTags}
use ksql.Sql.Token.{get_first_token}
use ksql.Sql.Select.{build_select_query}
use ksql.Sql.Select.Sound.{IsSound, OnlyTags-IsSound, clause_for, build_select_query-refines}
use ksql.Db.{Db, Rows, query_context, close, deferring_close, wrapping, or_fail}
use ksql.Db.Scanning.{scan_rows}
use ksql.Db.Scanning.Laws.{decode, Does-scan_rows}
use ksql.Db.Query.{
  filled_slice, complete_query, read_rows, query_slice, query_typed, static_type, query, read_first,
  query_record, query_one, elements,
}
use ksql.Db.Query.Closing.{complete_query-IsQuiet}
use ksql.Db.Query.Keeping.{complete_query-Preserves}
use ksql.Db.Query.Laws.{overlay, read_rows-returns}
use Prim.Native.String.{◌++◌}

-- What a bind returns, by what follows in the state that the first call leaves.
bind-returns_at :
    {A B : Type 0} (m : Action World A) (k : A → Action World B) (w : World) (r : Result A)
    (g : A → Result B)
    → (m w).0 ≡ r
    → ((a : A) → r ≡ ok a → (k a (m w).1).0 ≡ g a)
    → ((m >>= k) w).0 ≡ and_then r g
bind-returns_at m k w (ok a) g h next =
    ap (λ (x : Result _ × World). x.0) (bind-ok m k w h) ∙ next a refl
bind-returns_at m k w (err e) g h next = ap (λ (x : Result _ × World). x.0) (bind-err m k w h)
bind-returns_at m k w (panic p) g h next = ap (λ (x : Result _ × World). x.0) (bind-panic m k w h)

-- The statement that is sent: the query, behind the SELECT clause of the type if it starts with FROM.
abbrev pub statement_for : Db → GoType → StructInfo → String → Result String
statement_for c t info sql =
    if info.is_nested_struct && to_upper (get_first_token sql) == "SELECT"
    then err (
        msg
          "can't generate SELECT query for nested struct: when using this feature omit the SELECT part of the query")
    else if to_upper (get_first_token sql) == "FROM"
    then and_then (clause_for c.dialect t) (λ prefix. ok (prefix ++ sql))
    else ok sql

-- What the driver answers to the statement, in the state of the given log.
abbrev pub answer : Db → GoType → String → List Value → Log → Result Rows
answer c t sql params log = and_then (get_tag_names t) λ info.
    and_then (statement_for c t info sql)
      λ complete. wrapping "error running query" (c.db.query_context log complete params)

and_then_assoc :
    {A B C : Type 0} (r : Result A) (f : A → Result B) (g : B → Result C)
    → and_then (and_then r f) g ≡ and_then r (λ a. and_then (f a) g)
and_then_assoc (ok a) f g = refl
and_then_assoc (err e) f g = refl
and_then_assoc (panic p) f g = refl

and_then_nested :
    {A B C D : Type 0} (r : Result A) (e : A → Result B) (f : B → Result C) (g : C → Result D)
    → and_then r (λ a. and_then (e a) λ b. and_then (f b) g)
      ≡ and_then (and_then r λ a. and_then (e a) f) g
and_then_nested (ok a) e f g = sym (and_then_assoc (e a) f g)
and_then_nested (err x) e f g = refl
and_then_nested (panic p) e f g = refl

module _ (c : Db) (t : GoType) (sql : String) where
  pub complete_query-returns :
      (info : StructInfo) (w : World)
      → get_tag_names t ≡ ok info
      → IsSound w
      → (complete_query c t info sql w).0 ≡ statement_for c t info sql
  unfolding complete_query
  complete_query-returns info w read sound =
      let word = to_upper (get_first_token sql) in
      elim (Bool-cases (info.is_nested_struct && word == "SELECT")) [
        | inl refused ↦ rw refused refl
        | inr fits ↦ elim (Bool-cases (word == "FROM")) [
          | inl from ↦ rw fits (
              rw from (
                bind-returns (build_select_query c.dialect t info) _ w (clause_for c.dialect t)
                  (λ prefix. ok (prefix ++ sql))
                  (build_select_query-refines c.dialect t info read w sound).0 (λ p s. refl)))
          | inr whole ↦ rw fits (rw whole refl)
        ]
      ]

  module _ {B : Type 0} (params : List Value) (k : Rows → Action World B) (g : Rows → Result B)
      (reads : (rows : Rows) (s : World) → IsFaithful s.tags → (k rows s).0 ≡ g rows) where
    abbrev asking : String → Action World Rows
    asking complete w =
        let (r, w') = query_context c complete params w in (wrapping "error running query" r, w')

    -- What follows the answer of the driver.
    asked :
        (complete : String) (w : World) (log : Log)
        → IsFaithful w.tags
        → w.log ≡ log
        → ((asking complete >>= k) w).0
          ≡ and_then (wrapping "error running query" (c.db.query_context log complete params)) g
    unfolding query_context
    asked complete w log f same =
        bind-returns_at (asking complete) k w _ g
          (ap (λ l. wrapping "error running query" (c.db.query_context l complete params)) same)
          (λ rows _. reads rows _ f)

    tagged_asked :
        (w : World)
        → IsSound w
        → ((get_tag_info t >>= λ info.
              complete_query c t info sql >>= λ complete. asking complete >>= k)
            w).0
          ≡ and_then (answer c t sql params w.log) g
    tagged_asked w sound =
        let tagged = get_tag_info-OnlyTags t w sound.tags in
        bind-returns_at (get_tag_info t) _ w (get_tag_names t)
          (λ info. and_then (statement_for c t info sql) λ complete.
            and_then (wrapping "error running query" (c.db.query_context w.log complete params)) g)
          (get_tag_info-eq-get_tag_names t w sound.tags)
          (λ info read.
            let after = OnlyTags-IsSound tagged sound in
            bind-returns_at (complete_query c t info sql) _ (get_tag_info t w).1
              (statement_for c t info sql) _
              (complete_query-returns info (get_tag_info t w).1 read after)
              (λ complete _.
                asked complete _ w.log
                  ((complete_query-Preserves c.db.begin_tx _ c t info sql read).at
                    (get_tag_info t w).1 (after, refl)).0.tags
                  ((complete_query-IsQuiet c t info sql).at (get_tag_info t w).1 ∙ tagged.log)))
        ∙ and_then_nested (get_tag_names t) (λ info. statement_for c t info sql)
            (λ complete. wrapping "error running query" (c.db.query_context w.log complete params))
            g

-- What the rows of Query make of the elements of the slice.
abbrev pub rows_read : Db → GoType → Bool → List Value → Rows → Result (List Value)
rows_read c t ptrs items rows = and_then (overlay c rows t ptrs rows.rows items) λ final.
    and_then (or_fail rows.failure) λ _. and_then (or_fail rows.close_failure) λ _. ok final

-- What the first row makes of the record of QueryOne.
abbrev pub first_read : Db → Value → Rows → List (List Value) → Result Value
first_read c v rows [] = and_then (or_fail rows.failure) λ _. err record_not_found
first_read c v rows (row ∷ more) =
    and_then (decode c rows row v) λ final. and_then (or_fail rows.close_failure) λ _. ok final

-- The type of the elements of a slice, and whether they are pointers, with what Query makes of the
-- elements that the slice has; a nil slice that gets none stays nil.
abbrev pub slice_read : Db → String → List Value → Log → Value → GoType × Bool → Result Value
slice_read c sql params log v (t, ptrs) =
    and_then
      (and_then (answer c t sql params log) (rows_read c t ptrs (if ptrs then [] else elements v)))
      λ final. ok (filled_slice v (if ptrs then ptr t else t) final)

module _ (c : Db) (sql : String) (params : List Value) where
  query_slice-returns :
      (t : GoType) (ptrs : Bool) (items : List Value) (w : World)
      → IsSound w
      → (query_slice c t ptrs items sql params w).0
        ≡ and_then (answer c t sql params w.log) (rows_read c t ptrs items)
  unfolding query_slice deferring_close
  query_slice-returns t ptrs items w sound =
      tagged_asked c t sql params (λ rows. deferring_close (read_rows c rows t ptrs items))
        (rows_read c t ptrs items) (λ rows s f. read_rows-returns c rows t ptrs items s f) w sound

  query_typed-returns :
      (slice_type : GoType) (v : Value) (w : World)
      → IsSound w
      → (query_typed c slice_type v sql params w).0
        ≡ and_then (decode_as_slice_of_structs slice_type) (slice_read c sql params w.log v)
  unfolding query_typed
  query_typed-returns slice_type v w sound =
      bind-returns_at (lift (decode_as_slice_of_structs slice_type)) _ w
        (decode_as_slice_of_structs slice_type) (slice_read c sql params w.log v) refl
        (λ decoded _.
          let t = decoded.0 in
          let ptrs = decoded.1 in
          bind-returns_at (query_slice c t ptrs (if ptrs then [] else elements v) sql params) _ w
            (and_then (answer c t sql params w.log)
              (rows_read c t ptrs (if ptrs then [] else elements v)))
            (λ final. ok (filled_slice v (if ptrs then ptr t else t) final))
            (query_slice-returns t ptrs _ w sound) (λ final _. refl))

  -- Over sound caches, Query of a pointer to a slice returns what a function with no caches and no
  -- cursor makes of the driver's answer: the type and the tags are read, the statement is the
  -- query behind the type's SELECT clause if it starts with FROM, and the rows are laid over the
  -- slice one by one; the first error of these steps is the result.
  pub query-returns :
      (v : Value) (w : World)
      → IsSound w
      → (query c (ref v) sql params w).0
        ≡ and_then
            (decode_as_slice_of_structs (static_type (type_of v)))
            (slice_read c sql params w.log v)
  unfolding query
  query-returns v w sound = query_typed-returns (static_type (type_of v)) v w sound

  read_first-returns :
      (rows : Rows) (rs : List (List Value)) (v : Value) (s : World)
      → IsFaithful s.tags
      → (read_first c rows rs v s).0 ≡ first_read c v rows rs
  unfolding read_first close
  read_first-returns rows [] v s f =
      bind-returns (lift (or_fail rows.failure)) _ s (or_fail rows.failure)
        (λ _. err record_not_found) refl (λ _ _. refl)
  read_first-returns rows (row ∷ more) v s f =
      bind-returns (scan_rows c rows row (ref v)) _ s (decode c rows row v)
        (λ final. and_then (or_fail rows.close_failure) λ _. ok final)
        (Does-scan_rows c rows row v s f).returns
        (λ final s'.
          bind-returns (close rows) _ s' (or_fail rows.close_failure) (λ _. ok final) refl
            (λ _ _. refl))

  -- Over sound caches, QueryOne of a pointer to a struct returns what a function with no caches
  -- makes of the driver's answer to the statement: the record after the first row was scanned into
  -- it, ErrRecordNotFound if there are no rows and they ended with no error, or the first error of
  -- the steps.
  pub query_one-returns :
      (n : String) (fs : Fields) (vs : Values) (w : World)
      → IsSound w
      → (query_one c (ref (object n fs vs)) sql params w).0
        ≡ and_then
            (answer c (struct n fs) sql params w.log)
            (λ rows. first_read c (object n fs vs) rows rows.rows)
  unfolding query_one query_record deferring_close
  query_one-returns n fs vs w sound =
      tagged_asked c (struct n fs) sql params
        (λ rows. deferring_close (read_first c rows rows.rows (object n fs vs)))
        (λ rows. first_read c (object n fs vs) rows rows.rows)
        (λ rows s f. read_first-returns rows rows.rows (object n fs vs) s f) w sound
