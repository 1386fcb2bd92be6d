-- ===== src/Kbuilder/Where/Laws.antt =====
-- The placeholders of a WHERE clause are numbered through its conditions, as its params are.
use ksql.Prelude.{
  ℕ, suc, ◌+◌, String, ◌≡◌, refl, ap, sym, ◌∙◌, List, [], ◌∷◌, map, length, All, length-append,
}
use ksql.Prelude.Text.{join}
use ksql.Prelude.Sprintf.{Other, sprintf-join, NoPercent, interleave}
use ksql.Reflect.{Value}
use ksql.Dialect.{Dialect}
use ksql.Kbuilder.Where.{WhereQuery, placeholders, conds_from, build}
use mathlib.Core.List.{◌++◌, append_assoc, append-nil, flatten}

-- A condition by the texts around its params: one more than there are params, none with a `%`.
pub record Condition : Type 0 where
  pub head : String
  pub tail : List String
  pub params : List Value
  pub one_each : length params ≡ length tail
  pub plain : All NoPercent (head ∷ tail)

abbrev pub query_of : Condition → WhereQuery
query_of k = record { cond = join (k.head ∷ k.tail) "%s"; params = k.params }

-- The conditions with their placeholders, the first of which has index `i`.
abbrev pub numbered : Dialect → ℕ → List Condition → List String
numbered d i [] = []
numbered d i (k ∷ ks) =
    interleave (k.head ∷ k.tail) (placeholders d i k.params) ∷ numbered d (i + length k.params) ks

length-placeholders :
    (d : Dialect) (i : ℕ) (vs : List Value) → length (placeholders d i vs) ≡ length vs
unfolding placeholders
length-placeholders d i [] = refl
length-placeholders d i (v ∷ vs) = ap suc (length-placeholders d (suc i) vs)

module _ (other : Other) (d : Dialect) where
  conds_from-numbered :
      (params : List Value) (ks : List Condition)
      → conds_from other d params (map query_of ks)
        ≡ (numbered d (length params) ks, params ++ flatten (map (λ k. k.params) ks))
  unfolding conds_from flatten
  conds_from-numbered params [] = ap (λ l. ([], l)) (sym (append-nil params))
  conds_from-numbered params (k ∷ ks) =
      let first =
        sprintf-join other k.head k.tail (placeholders d (length params) k.params) k.plain
          (length-placeholders d (length params) k.params ∙ k.one_each) in
      let later = conds_from-numbered (params ++ k.params) ks in
      λ i. (
        first i
            ∷ ((later
                  ∙ ap
                      (λ n.
                        (numbered d n ks, (params ++ k.params) ++ flatten (map (λ k. k.params) ks)))
                      (length-append params k.params))
                i).0,
        (ap (λ (x : List String × List Value). x.1) later ∙ append_assoc params k.params _) i,
      )

  -- For conditions given by the texts around their params, with no percent sign in a text, the
  -- WHERE clause is the conditions with the placeholders in the place of the params, numbered from
  -- 0 through all conditions, joined by AND, and its params are those of the conditions in order.
  pub build-numbered :
      (ks : List Condition)
      → build other d (map query_of ks)
        ≡ (join (numbered d 0 ks) " AND ", flatten (map (λ k. k.params) ks))
  unfolding build
  build-numbered ks = rw (conds_from-numbered [] ks) refl
