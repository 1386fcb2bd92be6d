-- ===== src/Testtools/Laws.antt =====
-- What the assertions accept, if those of testify keep what they promise.
use ksql.Prelude.{
  ◌+◌, ◌-◌, ◌^◌, ◌≤◌, ◌<◌, String, Bool, true, false, ◌||◌, ◌≡◌, refl, sym, ap, ◌∙◌, ◌≢◌, ◌↔◌, ◌⊎◌,
  inl, inr, List, [], ◌∷◌, All, Bool-cases,
}
use ksql.Reflect.{Value, null, text}
use ksql.Testtools.{
  Ran, goes_on, stopped, Require, contains, contains_each, contains_all, assert_err_contains,
  assert_approx_duration, assert_approx_time,
}
use ksql.Testtools.Durations.{Duration, Time, sub, time_sub, is_within, lifted, max_duration}
use ksql.Testtools.Durations.Laws.{apart, is_within-sub_iff, is_within-time_sub_iff}
use Prim.Native.Char.{Char}
use Prim.Native.String.{[], ◌∷◌, ◌++◌}
use package.text.Mathlib.Text.{starts_with}
use package.text.Mathlib.TextEquality.{starts_with_iff}
use package.text.Mathlib.TextLemmas.{nil-append, cons-append, tail-eq_of_cons-eq, nil≢cons}

abbrev pub IsPart : String → String → Type 0
IsPart part whole = (before : String) × (after : String) × (before ++ (part ++ after) ≡ whole)

IsPart-cons : (part whole : String) (c : Char) → IsPart part whole → IsPart part (c ∷ whole)
IsPart-cons part whole c (u, v, e) = (c ∷ u, v, cons-append c u _ ∙ ap (λ s. c ∷ s) e)

starts_with-IsPart : (whole part : String) → starts_with whole part ≡ true → IsPart part whole
starts_with-IsPart whole part h =
    let (v, e) = (starts_with_iff whole part).0 h in ([], v, nil-append (part ++ v) ∙ e)

contains-IsPart : (whole part : String) → contains whole part ≡ true → IsPart part whole
unfolding contains
contains-IsPart [] part h = starts_with-IsPart [] part h
contains-IsPart (c ∷ s) part h = elim (Bool-cases (starts_with (c ∷ s) part)) [
  | inl here ↦ starts_with-IsPart (c ∷ s) part here
  | inr later ↦
      IsPart-cons part s c (contains-IsPart s part (sym (ap (λ b. b || contains s part) later) ∙ h))
]

starts_with-contains :
    (whole part : String) → starts_with whole part ≡ true → contains whole part ≡ true
unfolding contains
starts_with-contains [] part h = h
starts_with-contains (c ∷ s) part h = ap (λ b. b || contains s part) h

append-contains :
    (before part after whole : String)
    → before ++ (part ++ after) ≡ whole
    → contains whole part ≡ true
unfolding contains
append-contains [] part v whole e =
    starts_with-contains whole part
      ((starts_with_iff whole part).1 (v, sym (nil-append (part ++ v)) ∙ e))
append-contains (c ∷ u) part v [] e = absurd (nil≢cons (sym e ∙ cons-append c u (part ++ v)))
append-contains (c ∷ u) part v (d ∷ s) e =
    let later =
      append-contains u part v s (tail-eq_of_cons-eq (sym (cons-append c u (part ++ v)) ∙ e)) in
    elim (Bool-cases (starts_with (d ∷ s) part)) [
      | inl here ↦ ap (λ b. b || contains s part) here
      | inr not_here ↦ ap (λ b. b || contains s part) not_here ∙ later
    ]

contains_iff : (whole part : String) → (contains whole part ≡ true) ↔ IsPart part whole
contains_iff whole part =
    (contains-IsPart whole part, λ (u, v, e). append-contains u part v whole e)

abbrev pub Stops : {T : Type 0} → Ran T → Type 0
Stops {T} r = (t : T) × (r ≡ stopped t)

-- A test that goes on where the condition holds, and else stops.
abbrev pub Verdict : {T : Type 0} → Ran T → T → Type 0 → Type 0
Verdict ran t Holds = ((ran ≡ goes_on t) × Holds) ⊎ (Stops ran × ¬ Holds)

module _ {T : Type 0} where
  -- What testify documents of the assertions that the package uses.
  pub record IsRequire (require : Require T) : Type 0 where
    pub is_true-goes_on : (t : T) (msg : List Value) → require.is_true t true msg ≡ goes_on t
    pub is_true-Stops : (t : T) (msg : List Value) → Stops (require.is_true t false msg)
    pub not_equal-goes_on :
        (t : T) (v : Value) (msg : List Value)
        → v ≢ null
        → require.not_equal t null v msg ≡ goes_on t
    pub not_equal-Stops : (t : T) (msg : List Value) → Stops (require.not_equal t null null msg)

  module _ (require : Require T) (r : IsRequire require) where
    -- An assertion of a test passes just where the test holds.
    is_true_iff :
        (t : T) (b : Bool) (msg : List Value) → (require.is_true t b msg ≡ goes_on t) ↔ (b ≡ true)
    is_true_iff t true msg = (λ _. refl, λ _. r.is_true-goes_on t msg)
    is_true_iff t false msg =
        let (t', e) = r.is_true-Stops t msg in (λ h. absurd (cc (sym e ∙ h)), λ h. absurd (cc h))

    -- The assertions on durations and times.
    module _ (formatted : String → List Value → String) (t : T) where
      -- Over a testify whose True passes just on true, for any two durations and a tolerance that
      -- is not negative, AssertApproxDuration passes just if the durations are no further apart
      -- than the tolerance, or so far that the wrapped difference is, which is 2 ^ 64 less the
      -- tolerance or more, or 2 ^ 63 exactly.
      pub assert_approx_duration-passes_iff :
          (tolerance v1 v2 : Duration) (format : String) (args : List Value)
          → v1 < 2 ^ 64
          → v2 < 2 ^ 64
          → tolerance < 2 ^ 63
          → (assert_approx_duration require formatted t tolerance v1 v2 format args ≡ goes_on t) ↔ (
              (apart (lifted v1) (lifted v2) ≤ tolerance)
              ⊎ ((2 ^ 64 ≤ apart (lifted v1) (lifted v2) + tolerance)
                  ⊎ (apart (lifted v1) (lifted v2) ≡ 2 ^ 63)))
      unfolding assert_approx_duration
      assert_approx_duration-passes_iff tolerance v1 v2 format args h1 h2 h =
          let passes =
            is_true_iff t (is_within tolerance (sub v1 v2)) (text (formatted format args) ∷ []) in
          let near = is_within-sub_iff v1 v2 tolerance h1 h2 h in
          (λ p. near.0 (passes.0 p), λ n. passes.1 (near.1 n))

      -- Over a testify whose True passes just on true, for any two times and a tolerance that is
      -- not negative, AssertApproxTime passes just if the times are no further apart than the
      -- tolerance, or the first is 2 ^ 63 nanoseconds or more before the second, or the tolerance
      -- is the greatest duration.
      pub assert_approx_time-passes_iff :
          (tolerance : Duration) (v1 v2 : Time) (format : String) (args : List Value)
          → tolerance < 2 ^ 63
          → (assert_approx_time require formatted t tolerance v1 v2 format args ≡ goes_on t)
            ↔ ((apart v1 v2 ≤ tolerance) ⊎ ((2 ^ 63 ≤ v2 - v1) ⊎ (tolerance ≡ max_duration)))
      unfolding assert_approx_time
      assert_approx_time-passes_iff tolerance v1 v2 format args h =
          let passes =
            is_true_iff t (is_within tolerance (time_sub v1 v2))
              (text (formatted format args) ∷ []) in
          let near = is_within-time_sub_iff v1 v2 tolerance h in
          (λ p. near.0 (passes.0 p), λ n. passes.1 (near.1 n))

    -- The assertion on the text of an error.
    abbrev no_error : List Value
    no_error = text "expected an error but the error is nil" ∷ []

    contains_each-Verdict :
        (msg : String) (substrs : List String) (t : T)
        → Verdict (contains_each require msg substrs t) t (All (λ s. IsPart s msg) substrs)
    unfolding contains_each
    contains_each-Verdict msg [] t = inl (refl, tt)
    contains_each-Verdict msg (substr ∷ substrs) t =
        let words : List Value =
          text "missing substring '%s' in error message: '%s'" ∷ text substr ∷ text msg ∷ [] in
        elim (Bool-cases (contains msg substr)) [
          | inl there ↦ rw there (
              rw (r.is_true-goes_on t words) (elim (contains_each-Verdict msg substrs t) [
                | inl (e, hs) ↦ inl (e, ((contains_iff msg substr).0 there, hs))
                | inr (stops, n) ↦ inr (stops, λ (h, hs). n hs)
              ]))
          | inr missing ↦
              let (t', e) = r.is_true-Stops t words in
              rw missing (
                rw e (
                  inr (
                    (t', refl),
                    λ (h, hs). absurd (cc (sym missing ∙ (contains_iff msg substr).1 h)),
                  )))
        ]

    -- Over a testify whose True passes just on true and whose NotEqual with nil stops just on nil,
    -- AssertErrContains goes on, with the test as it was, if the error is not nil and each of the
    -- substrings stands somewhere in its text, and else stops the test; it never panics.
    pub assert_err_contains-Verdict :
        (error_text : Value → String) (t : T) (error : Value) (substrs : List String)
        → Verdict
            (assert_err_contains require error_text t error substrs)
            t
            ((error ≢ null) × All (λ s. IsPart s (error_text error)) substrs)
    unfolding assert_err_contains contains_all contains_each
    assert_err_contains-Verdict error_text t null substrs =
        let (t', e) = r.not_equal-Stops t no_error in
        rw e (inr ((t', refl), λ (given, hs). absurd (given refl)))
    assert_err_contains-Verdict error_text t error substrs =
        let given : error ≢ null = λ e. absurd (cc e) in
        rw (r.not_equal-goes_on t error no_error given)
          (elim (contains_each-Verdict (error_text error) substrs t) [
            | inl (e, hs) ↦ inl (e, (given, hs))
            | inr (stops, n) ↦ inr (stops, λ (h, hs). n hs)
          ])
