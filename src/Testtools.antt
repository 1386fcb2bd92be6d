-- ===== src/Testtools.antt =====
-- internal/testtools: the assertions of the tests, over those of testify, which are a parameter. A test that fails stops there, as `FailNow` does.
pub mod Durations
pub mod Laws
use ksql.Prelude.{ℕ, String, Bool, List, [], ◌∷◌, ◌||◌}
use ksql.Reflect.{Value, null, text}
use ksql.Testtools.Durations.{Duration, Time, sub, time_sub, is_within}
use Prim.Native.String.{[], ◌∷◌}
use package.text.Mathlib.Text.{starts_with}

-- What a piece of a test comes to, with the state of the `*testing.T`, and the payload of a panic.
pub data Ran (T : Type 0) : Type 0 where
  goes_on : T → Ran T
  stopped : T → Ran T
  panicked : T → Value → Ran T

abbrev then : {T : Type 0} → Ran T → (T → Ran T) → Ran T
then (goes_on t) next = next t
then (stopped t) next = stopped t
then (panicked t p) next = panicked t p

recovered : {T : Type 0} → Ran T → Ran (T × Value)
recovered (goes_on t) = goes_on (t, null)
recovered (stopped t) = stopped (t, null)
recovered (panicked t payload) = goes_on (t, payload)

-- PanicHandler of internal/testtools/panic.go
pub panic_handler : {T : Type 0} → (T → Ran T) → T → Ran (T × Value)
unfolding recovered
panic_handler fn t = recovered (fn t)

-- The package `require` of testify, with the state that a `*testing.T` has: Equal, NotEqual (on the
-- expected and the actual value) and True, and the message and its args.
pub record Require (T : Type 0) : Type 0 where
  pub equal : T → Value → Value → List Value → Ran T
  pub not_equal : T → Value → Value → List Value → Ran T
  pub is_true : T → Bool → List Value → Ran T

-- strings.Contains
unfoldable pub contains : String → String → Bool
contains [] substr = starts_with [] substr
contains (c ∷ s) substr = starts_with (c ∷ s) substr || contains s substr

module _ {T : Type 0} (require : Require T) where
  open require use {equal, not_equal, is_true}

  pub assert_equal : T → Value → Value → List Value → Ran T
  assert_equal t got expected msg = equal t expected got msg

  pub assert_not_equal : T → Value → Value → List Value → Ran T
  assert_not_equal t got expected msg = not_equal t expected got msg

  pub assert_no_err : T → Value → Ran T
  assert_no_err t error = equal t null error (text "received unexpected error: %s" ∷ error ∷ [])

  -- The loop on the substrings.
  contains_each : String → List String → T → Ran T
  contains_each msg [] t = goes_on t
  contains_each msg (substr ∷ substrs) t =
      then
        (is_true t (contains msg substr)
          (text "missing substring '%s' in error message: '%s'" ∷ text substr ∷ text msg ∷ []))
        (contains_each msg substrs)

  -- What follows the test for nil; `error_text` is the method Error of an error.
  contains_all : (Value → String) → Value → List String → T → Ran T
  unfolding contains_each
  contains_all error_text null substrs t =
      panicked t (text "runtime error: invalid memory address or nil pointer dereference")
  contains_all error_text error substrs t = contains_each (error_text error) substrs t

  pub assert_err_contains : (Value → String) → T → Value → List String → Ran T
  unfolding contains_all
  assert_err_contains error_text t error substrs =
      then (not_equal t null error (text "expected an error but the error is nil" ∷ []))
        (contains_all error_text error substrs)

  -- `formatted` is fmt.Sprintf.
  module _ (formatted : String → List Value → String) where
    pub assert_approx_duration : T → Duration → Duration → Duration → String → List Value → Ran T
    assert_approx_duration t tolerance v1 v2 format args =
        is_true t (is_within tolerance (sub v1 v2)) (text (formatted format args) ∷ [])

    pub assert_approx_time : T → Duration → Time → Time → String → List Value → Ran T
    assert_approx_time t tolerance v1 v2 format args =
        is_true t (is_within tolerance (time_sub v1 v2)) (text (formatted format args) ∷ [])
