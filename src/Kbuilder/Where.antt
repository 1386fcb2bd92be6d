-- ===== src/Kbuilder/Where.antt =====
-- The WHERE conditions of kbuilder/query.go.
pub mod Laws
use ksql.Prelude.{
  ℕ, zero, suc, ◌+◌, String, Bool, true, false, List, [], ◌∷◌, length, eqb, if◌then◌else◌,
}
use ksql.Prelude.Text.{join}
use ksql.Prelude.Sprintf.{Other, sprintf}
use ksql.Prelude.Result.{Result, ok, err, panic}
use ksql.Reflect.{
  GoType, Value, null, scalar, text, nil_ptr, ref, dict, list, object, json, basic, interface, ptr,
  slice, map_of, func, struct,
}
use ksql.Dialect.{Dialect, placeholder}
use mathlib.Core.List.{◌++◌}

pub record WhereQuery : Type 0 where
  pub cond : String
  pub params : List Value

-- One placeholder for each param of a condition, from index `i`.
unfoldable pub placeholders : Dialect → ℕ → List Value → List String
placeholders d i [] = []
placeholders d i (v ∷ more) = placeholder d i ∷ placeholders d (suc i) more

-- The loop, with the params so far.
conds_from : Other → Dialect → List Value → List WhereQuery → List String × List Value
unfolding placeholders
conds_from other d params [] = ([], params)
conds_from other d params (q ∷ more) =
    let (conds, all) = conds_from other d (params ++ q.params) more in
    (sprintf other q.cond (placeholders d (length params) q.params) ∷ conds, all)

-- WhereQueries.build
unfoldable pub build : Other → Dialect → List WhereQuery → String × List Value
unfolding conds_from
build other d queries =
    let (conds, params) = conds_from other d [] queries in (join conds " AND ", params)

-- WhereQueries.Where, and Where on no conditions
pub add_where : List WhereQuery → String → List Value → List WhereQuery
add_where w cond params = w ++ (record { cond = cond; params = params } ∷ [])

pub where_ : String → List Value → List WhereQuery
where_ cond params = record { cond = cond; params = params } ∷ []

-- Value.IsNil(), which panics on a type that has no nil.
is_nil_scalar : GoType → ℕ → Result Bool
is_nil_scalar (slice t) n = ok (eqb n 0)
is_nil_scalar (map_of k t) n = ok (eqb n 0)
is_nil_scalar (func is os) n = ok (eqb n 0)
is_nil_scalar _ n = panic "reflect: call of reflect.Value.IsNil on a value that is not nillable"

is_nil : Value → Result Bool
unfolding is_nil_scalar
is_nil (scalar t n) = is_nil_scalar t n
is_nil (nil_ptr t) = ok true
is_nil (ref v) = ok false
is_nil (dict es) = ok false
is_nil (list t vs) = ok false
is_nil _ = panic "reflect: call of reflect.Value.IsNil on a value that is not nillable"

unless_nil : Result Bool → List WhereQuery → List WhereQuery → Result (List WhereQuery)
unless_nil (ok nil) w added = ok (if nil then w else added)
unless_nil (err e) w added = err e
unless_nil (panic p) w added = panic p

-- WhereQueries.WhereIf
pub add_where_if : List WhereQuery → String → Value → Result (List WhereQuery)
unfolding unless_nil is_nil add_where
add_where_if w cond null = ok w
add_where_if w cond param = unless_nil (is_nil param) w (add_where w cond (param ∷ []))

-- WhereIf on no conditions
pub where_if : String → Value → Result (List WhereQuery)
unfolding unless_nil is_nil where_
where_if cond null = ok []
where_if cond param = unless_nil (is_nil param) [] (where_ cond (param ∷ []))
