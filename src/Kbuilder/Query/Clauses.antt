-- ===== src/Kbuilder/Query/Clauses.antt =====
-- The text of a query is its clauses, each there or not, with one space between them.
use ksql.Prelude.{
  inl, inr, Bool-cases, zero, suc, String, ◌≡◌, refl, ap, sym, ◌∙◌, false, List, [], ◌∷◌, map, ◌==◌,
  if◌then◌else◌,
}
use ksql.Prelude.Text.{join, itoa, trim_space}
use ksql.Prelude.Sprintf.{Other}
use ksql.Prelude.Result.{Result, ok}
use ksql.Prelude.Action.{bind-ok}
use ksql.Reflect.{Value, text}
use ksql.Dialect.{Dialect}
use ksql.Db.{Int64, pos, negsuc}
use ksql.Kbuilder.Where.Laws.{Condition, query_of, numbered, build-numbered}
use ksql.Kbuilder.Query.{
  Query, OrderByQuery, Caches, select_part, query_text, build_query, conditions, ordering, numeric,
}
use mathlib.Core.List.{◌++◌ as append, flatten}
use Prim.Native.String.{◌++◌}
use package.text.Mathlib.TextLemmas.{nil-append, append-nil, append_assoc}

-- The clauses that a query may have.
abbrev where_clauses : Dialect → List Condition → List String
where_clauses d [] = []
where_clauses d (k ∷ ks) = ("WHERE " ++ join (numbered d 0 (k ∷ ks)) " AND ") ∷ []

abbrev order_clauses : OrderByQuery → List String
order_clauses o =
    if o.fields == ""
    then []
    else ("ORDER BY " ++ (o.fields ++ (if o.desc then " DESC" else ""))) ∷ []

abbrev number_clauses : String → Int64 → List String
number_clauses word (pos zero) = []
number_clauses word (pos (suc n)) = (word ++ itoa (suc n)) ∷ []
number_clauses word (negsuc n) = []

-- The clauses of a query, in the order SQL has them.
unfoldable pub clauses : Dialect → Query → List Condition → String → List String
clauses d q ks columns =
    ("SELECT " ++ columns)
    ∷ ("FROM " ++ q.from)
    ∷ append (where_clauses d ks) (
        append (order_clauses q.order_by)
          (append (number_clauses "LIMIT " q.limit) (number_clauses "OFFSET " q.offset)))

-- Each text after a space.
spaced : List String → String
spaced [] = ""
spaced (c ∷ cs) = " " ++ (c ++ spaced cs)

join-spaced : (c : String) (cs : List String) → join (c ∷ cs) " " ≡ c ++ spaced cs
unfolding join spaced
join-spaced c [] = sym (append-nil c)
join-spaced c (e ∷ cs) = ap (λ t. c ++ (" " ++ t)) (join-spaced e cs)

spaced-append : (cs es : List String) → spaced (append cs es) ≡ spaced cs ++ spaced es
unfolding spaced
spaced-append [] es = sym (nil-append (spaced es))
spaced-append (c ∷ cs) es = ap (λ t. " " ++ (c ++ t)) (spaced-append cs es) ∙ simp append_assoc refl

spaced-one : (word s : String) → spaced ((word ++ s) ∷ []) ≡ (" " ++ word) ++ s
unfolding spaced
spaced-one word s = simp (append_assoc, append-nil) refl

-- What the code writes for each clause is that clause after a space.
numeric-spaced :
    (word : String) (n : Int64) → numeric (" " ++ word) n ≡ spaced (number_clauses word n)
unfolding numeric spaced
numeric-spaced word (pos zero) = refl
numeric-spaced word (pos (suc n)) = sym (spaced-one word (itoa (suc n)))
numeric-spaced word (negsuc n) = refl

ordering-spaced : (o : OrderByQuery) → ordering o ≡ spaced (order_clauses o)
unfolding ordering spaced
ordering-spaced o = elim (Bool-cases (o.fields == "")) [
  | inl blank ↦ rw blank refl
  | inr named ↦
      rw named (sym (spaced-one "ORDER BY " (o.fields ++ (if o.desc then " DESC" else ""))))
]

conditions-spaced :
    (fmt : Other) (d : Dialect) (ks : List Condition)
    → conditions fmt d (map query_of ks)
      ≡ (spaced (where_clauses d ks), flatten (map (λ k. k.params) ks))
unfolding conditions spaced flatten
conditions-spaced fmt d [] = refl
conditions-spaced fmt d (k ∷ ks) = rw (build-numbered fmt d (k ∷ ks)) (
    ap (λ t. (t, flatten (map (λ k. k.params) (k ∷ ks))))
      (sym (spaced-one "WHERE " (join (numbered d 0 (k ∷ ks)) " AND "))))

select_from :
    (columns from more : String)
    → ("SELECT " ++ columns) ++ (" " ++ (("FROM " ++ from) ++ more))
      ≡ "SELECT " ++ (columns ++ (" FROM " ++ (from ++ more)))
select_from columns from more =
    append_assoc "SELECT " columns _
    ∙ ap (λ t. "SELECT " ++ (columns ++ t))
        (ap (λ t. " " ++ t) (append_assoc "FROM " from more)
          ∙ sym (append_assoc " " "FROM " (from ++ more)))

joined-clauses :
    (d : Dialect) (q : Query) (ks : List Condition) (columns : String)
    → join (clauses d q ks columns) " "
      ≡ "SELECT "
        ++ (columns
            ++ (" FROM "
                ++ (q.from
                    ++ (spaced (where_clauses d ks)
                        ++ (ordering q.order_by
                            ++ (numeric " LIMIT " q.limit ++ numeric " OFFSET " q.offset))))))
unfolding clauses spaced
joined-clauses d q ks columns =
    let numbers = append (number_clauses "LIMIT " q.limit) (number_clauses "OFFSET " q.offset) in
    let later = append (order_clauses q.order_by) numbers in
    join-spaced ("SELECT " ++ columns) (("FROM " ++ q.from) ∷ append (where_clauses d ks) later)
    ∙ select_from columns q.from (spaced (append (where_clauses d ks) later))
    ∙ ap (λ t. "SELECT " ++ (columns ++ (" FROM " ++ (q.from ++ t))))
        (spaced-append (where_clauses d ks) later
          ∙ ap (λ t. spaced (where_clauses d ks) ++ t)
              (spaced-append (order_clauses q.order_by) numbers
                ∙ ap (λ t. spaced (order_clauses q.order_by) ++ t)
                    (spaced-append (number_clauses "LIMIT " q.limit) _)
                ∙ rw (ordering-spaced q.order_by) (
                    rw (numeric-spaced "LIMIT " q.limit)
                      (rw (numeric-spaced "OFFSET " q.offset) refl))))

module _ (fmt : Other) (d : Dialect) (q : Query) (ks : List Condition) (columns : String) where
  query_text-clauses :
      q.where_ ≡ map query_of ks
      → query_text fmt q d columns
        ≡ (join (clauses d q ks columns) " ", flatten (map (λ k. k.params) ks))
  unfolding query_text clauses
  query_text-clauses e =
      rw (ap (conditions fmt d) e ∙ conditions-spaced fmt d ks)
        (ap (λ t. (t, flatten (map (λ k. k.params) ks))) (sym (joined-clauses d q ks columns)))

  -- If the From of a Query is not blank, its conditions are given by the texts around their
  -- params, with no percent sign in a text, and its columns are known, BuildQuery returns the
  -- clauses SELECT, FROM, WHERE with the conditions joined by AND and their placeholders numbered
  -- from 0 through all of them, ORDER BY, LIMIT and OFFSET, in this order, each of the last four
  -- only if it is set, with one space between them, and the params of the conditions in order.
  pub build_query-clauses :
      (caches : Caches)
      → q.where_ ≡ map query_of ks
      → (trim_space q.from == "") ≡ false
      → (select_part q.select d caches).0 ≡ ok columns
      → (build_query fmt q d caches).0
        ≡ ok (join (clauses d q ks columns) " ", flatten (map (λ k. k.params) ks))
  unfolding build_query
  build_query-clauses caches e from_given h =
      ap (λ (x : Result (String × List Value) × Caches). x.0)
        (bind-ok (select_part q.select d) _ caches h)
      ∙ rw from_given (ap ok (query_text-clauses e))
