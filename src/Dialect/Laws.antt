-- ===== src/Dialect/Laws.antt =====
-- Drivers are found by their names, and numbered placeholders tell positions apart.
use ksql.Prelude.Text.Decimal.{itoa_inj}
use text.Mathlib.TextLemmas.{append_cancel_left}
use ksql.Prelude.{ℕ, ◌+◌, String, ◌≡◌, refl, sym, ◌↔◌, eq_iff, arith}
use ksql.Prelude.Result.{Result, ok}
use ksql.Dialect.{
  Dialect, postgres, sqlite3, mysql, sqlserver, driver_name, get_driver_dialect, placeholder,
}

get_driver_dialect_sound :
    (name : String) (d : Dialect) → get_driver_dialect name ≡ ok d → driver_name d ≡ name
unfolding get_driver_dialect driver_name
get_driver_dialect_sound name d h = ground (
  arith,
  eq_iff name "postgres",
  eq_iff name "sqlite3",
  eq_iff name "mysql",
  eq_iff name "sqlserver",
)

get_driver_dialect-driver_name : (d : Dialect) → get_driver_dialect (driver_name d) ≡ ok d
unfolding get_driver_dialect driver_name
get_driver_dialect-driver_name postgres = refl
get_driver_dialect-driver_name sqlite3 = refl
get_driver_dialect-driver_name mysql = refl
get_driver_dialect-driver_name sqlserver = refl

-- GetDriverDialect returns a dialect if and only if it is asked for the driver name of that
-- dialect.
pub get_driver_dialect_iff :
    (name : String) (d : Dialect) → (get_driver_dialect name ≡ ok d) ↔ (name ≡ driver_name d)
get_driver_dialect_iff name d =
    (λ h. sym (get_driver_dialect_sound name d h), λ e. rw e (get_driver_dialect-driver_name d))

pub driver_name_inj : (d e : Dialect) → driver_name d ≡ driver_name e → d ≡ e
driver_name_inj d e h =
    ok_of ((get_driver_dialect_iff (driver_name e) d).1 (sym h)) (get_driver_dialect-driver_name e)
  where
    ok_of : {r : Result Dialect} → r ≡ ok d → r ≡ ok e → d ≡ e
    ok_of p q = cc (p, q)

-- A dialect whose placeholders have numbers.
abbrev pub IsNumbered : Dialect → Type 0
IsNumbered postgres = Unit
IsNumbered sqlserver = Unit
IsNumbered _ = ⊥

-- In the dialects with numbered placeholders, those of PostgreSQL and SQL Server, two positions
-- with one placeholder are one position.
pub placeholder_inj :
    (d : Dialect) → IsNumbered d → (i j : ℕ) → placeholder d i ≡ placeholder d j → i ≡ j
unfolding placeholder
placeholder_inj postgres _ i j e =
    let h = itoa_inj (i + 1) (j + 1) (append_cancel_left "$" _ _ e) in omega arith
placeholder_inj sqlserver _ i j e =
    let h = itoa_inj (i + 1) (j + 1) (append_cancel_left "@p" _ _ e) in omega arith
placeholder_inj sqlite3 h i j e = absurd h
placeholder_inj mysql h i j e = absurd h
