-- ===== src/Sql/Delete/Laws.antt =====
-- The text of a DELETE statement, and which values are its params.
use ksql.Prelude.{ℕ, suc, String, ◌≡◌, refl, ap, sym, ◌∙◌, false, some, List, [], ◌∷◌, map, All}
use ksql.Prelude.Dict.{Dict, lookup}
use ksql.Prelude.Text.{join}
use ksql.Reflect.{Value, is_zero}
use ksql.Dialect.{Dialect, escape, placeholder}
use ksql.Table.{Table}
use ksql.Sql.Ids.Laws.{IsGiven}
use ksql.Sql.Delete.{get_or_null, where_from, build_delete_query}
use Prim.Native.String.{◌++◌}
use package.text.Mathlib.TextLemmas.{append_assoc}

-- Each id equal to its placeholder, all of them required, numbered from `i`.
abbrev pub all_equal : Dialect → ℕ → List String → String
all_equal d i [] = ""
all_equal d i (id ∷ []) = escape d id ++ (" = " ++ placeholder d i)
all_equal d i (id ∷ (id' ∷ ids)) =
    escape d id ++ (" = " ++ (placeholder d i ++ (" AND " ++ all_equal d (suc i) (id' ∷ ids))))

-- The params are the values of the ids in their order, none of them a zero value.
abbrev pub Carries : Dict Value → List String → List Value → Type 0
Carries m [] [] = Unit
Carries m (id ∷ ids) (v ∷ vs) = (lookup id m ≡ some v) × (is_zero v ≡ false) × Carries m ids vs
Carries m _ _ = ⊥

all_equal-where_from :
    (d : Dialect) (i : ℕ) (ids : List String)
    → join (where_from d i ids) " AND " ≡ all_equal d i ids
unfolding join where_from
all_equal-where_from d i [] = refl
all_equal-where_from d i (id ∷ []) = refl
all_equal-where_from d i (id ∷ (id' ∷ ids)) =
    ap (λ t. (escape d id ++ (" = " ++ placeholder d i)) ++ (" AND " ++ t))
      (all_equal-where_from d (suc i) (id' ∷ ids))
    ∙ simp append_assoc refl

pub build_delete_query-text :
    (d : Dialect) (table : Table) (m : Dict Value)
    → (build_delete_query d table m).0
      ≡ "DELETE FROM " ++ (escape d table.name ++ (" WHERE " ++ all_equal d 0 table.id_columns))
unfolding build_delete_query
build_delete_query-text d table m =
    ap (λ t. "DELETE FROM " ++ (escape d table.name ++ (" WHERE " ++ t)))
      (all_equal-where_from d 0 table.id_columns)

carried :
    (m : Dict Value) (ids : List String)
    → All (IsGiven m) ids
    → Carries m ids (map (get_or_null m) ids)
carried m [] h = tt
carried m (id ∷ ids) ((v, found, given), hs) =
    let got : get_or_null m id ≡ v = rw (found, get_or_null) refl in
    (found ∙ ap some (sym got), ap is_zero got ∙ given, carried m ids hs)

pub build_delete_query-Carries :
    (d : Dialect) (table : Table) (m : Dict Value)
    → All (IsGiven m) table.id_columns
    → Carries m table.id_columns (build_delete_query d table m).1
unfolding build_delete_query
build_delete_query-Carries d table m h = carried m table.id_columns h
