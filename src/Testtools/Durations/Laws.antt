-- ===== src/Testtools/Durations/Laws.antt =====
-- When two durations or two times pass as near, computed without overflow.
use ksql.Prelude.{ℕ, ◌+◌, ◌-◌, ◌^◌, ◌≤◌, ◌<◌, ◌≡◌, true, ◌↔◌, ◌⊎◌, arith}
use ksql.Testtools.Durations.{
  Time, sub, negated, lifted, at_most, time_sub, is_within, max_duration,
}

-- The distance of two numbers.
abbrev pub apart : ℕ → ℕ → ℕ
apart m n = (m - n) + (n - m)

pub is_within-sub_iff :
    (v1 v2 tolerance : ℕ)
    → v1 < 2 ^ 64
    → v2 < 2 ^ 64
    → tolerance < 2 ^ 63
    → (is_within tolerance (sub v1 v2) ≡ true) ↔ (
        (apart (lifted v1) (lifted v2) ≤ tolerance)
        ⊎ ((2 ^ 64 ≤ apart (lifted v1) (lifted v2) + tolerance)
            ⊎ (apart (lifted v1) (lifted v2) ≡ 2 ^ 63)))
unfolding is_within sub negated at_most
is_within-sub_iff v1 v2 tolerance h1 h2 h = ground arith

pub is_within-time_sub_iff :
    (v1 v2 : Time) (tolerance : ℕ)
    → tolerance < 2 ^ 63
    → (is_within tolerance (time_sub v1 v2) ≡ true)
      ↔ ((apart v1 v2 ≤ tolerance) ⊎ ((2 ^ 63 ≤ v2 - v1) ⊎ (tolerance ≡ max_duration)))
unfolding is_within time_sub negated at_most
is_within-time_sub_iff v1 v2 tolerance h = ground arith
