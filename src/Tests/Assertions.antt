-- ===== src/Tests/Assertions.antt =====
-- Runs of the assertions of the tests, over a testify that counts the failures.
use ksql.Prelude.{
  ℕ, suc, ◌+◌, ◌-◌, ◌^◌, ◌≤◌, String, Bool, true, false, ◌≡◌, refl, ◌≢◌, ◌↔◌, ◌⊎◌, inl, inr, List,
  [], ◌∷◌, All, if◌then◌else◌, arith,
}
use ksql.Reflect.{Value, null, text}
use ksql.Testtools.{
  Ran, goes_on, stopped, Require, assert_err_contains, assert_approx_duration, assert_approx_time,
}
use ksql.Testtools.Durations.{lifted, max_duration}
use ksql.Testtools.Durations.Laws.{apart}
use ksql.Testtools.Laws.{
  IsPart, Verdict, IsRequire, assert_err_contains-Verdict, assert_approx_duration-passes_iff,
  assert_approx_time-passes_iff,
}

abbrev checked : ℕ → Bool → Ran ℕ
checked t b = if b then goes_on t else stopped (suc t)

-- Equality as far as one side is nil.
abbrev are_nil : Value → Value → Bool
are_nil null null = true
are_nil _ _ = false

abbrev counting : Require ℕ
counting = record {
  equal = λ t expected actual msg. checked t (are_nil expected actual);
  not_equal = λ t expected actual msg. checked t (if are_nil expected actual then false else true);
  is_true = λ t b msg. checked t b;
}

not_nil : (v : Value) → v ≢ null → are_nil null v ≡ false
not_nil null h = absurd (h refl)
not_nil _ h = refl

counting-IsRequire : IsRequire counting
counting-IsRequire = record {
  is_true-goes_on = λ t msg. refl;
  is_true-Stops = λ t msg. (suc t, refl);
  not_equal-goes_on = λ t v msg h. rw (not_nil v h) refl;
  not_equal-Stops = λ t msg. (suc t, refl);
}

abbrev text_of : Value → String
text_of (text s) = s
text_of _ = ""

abbrev as_given : String → List Value → String
as_given format args = format

assert_err_contains-Verdict_example :
    Verdict
      (assert_err_contains counting text_of 0 (text "missing tag name") ("tag" ∷ "name" ∷ []))
      0
      ((text "missing tag name" ≢ null)
        × All (λ s. IsPart s "missing tag name") ("tag" ∷ "name" ∷ []))
assert_err_contains-Verdict_example =
    assert_err_contains-Verdict counting counting-IsRequire text_of 0 (text "missing tag name")
      ("tag" ∷ "name" ∷ [])

-- Four and ten nanoseconds, with a tolerance of six.
assert_approx_duration-passes_iff_example :
    (assert_approx_duration counting as_given 0 6 4 10 "not near" [] ≡ goes_on 0) ↔ (
      (apart (lifted 4) (lifted 10) ≤ 6)
      ⊎ ((2 ^ 64 ≤ apart (lifted 4) (lifted 10) + 6) ⊎ (apart (lifted 4) (lifted 10) ≡ 2 ^ 63)))
assert_approx_duration-passes_iff_example =
    assert_approx_duration-passes_iff counting counting-IsRequire as_given 0 6 4 10 "not near" []
      (omega arith) (omega arith) (omega arith)

-- The first instant and one a thousand years later, with a tolerance of one nanosecond.
assert_approx_time-passes_iff_example :
    (assert_approx_time counting as_given 0 1 0 31556952000000000000 "not near" [] ≡ goes_on 0) ↔ (
      (apart 0 31556952000000000000 ≤ 1)
      ⊎ ((2 ^ 63 ≤ 31556952000000000000 - 0) ⊎ (1 ≡ max_duration)))
assert_approx_time-passes_iff_example =
    assert_approx_time-passes_iff counting counting-IsRequire as_given 0 1 0 31556952000000000000
      "not near" [] (omega arith)

-- So it passes.
far_apart_passes :
    assert_approx_time counting as_given 0 1 0 31556952000000000000 "not near" [] ≡ goes_on 0
far_apart_passes =
    (assert_approx_time-passes_iff counting counting-IsRequire as_given 0 1 0 31556952000000000000
        "not near" [] (omega arith)).1
      (inr (inl (omega arith)))
