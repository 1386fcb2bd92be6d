-- ===== src/Testtools/Durations.antt =====
-- time.Duration and time.Time, as assert.go computes with them.
pub mod Laws
use ksql.Prelude.{ℕ, ◌+◌, ◌-◌, ◌^◌, ◌%◌, Bool, not, ltb, leb, if◌then◌else◌}

-- An int64 by its 64 bits in two's complement, as a number below 2 ^ 64.
abbrev pub Duration : Type 0
Duration = ℕ

-- The nanoseconds since an instant before all others, on the clock that the times share.
abbrev pub Time : Type 0
Time = ℕ

abbrev pub max_duration : Duration
max_duration = 2 ^ 63 - 1

abbrev pub min_duration : Duration
min_duration = 2 ^ 63

abbrev pub is_negative : Duration → Bool
is_negative d = leb (2 ^ 63) d

-- `v1 - v2`, which wraps
unfoldable pub sub : Duration → Duration → Duration
sub v1 v2 = (v1 + 2 ^ 64 - v2) % 2 ^ 64

-- `-diff`, which wraps
unfoldable pub negated : Duration → Duration
negated d = (2 ^ 64 - d) % 2 ^ 64

-- The number 2 ^ 63 above an int64.
abbrev pub lifted : Duration → ℕ
lifted d = (d + 2 ^ 63) % 2 ^ 64

-- `v1 <= v2`
unfoldable pub at_most : Duration → Duration → Bool
at_most v1 v2 = leb (lifted v1) (lifted v2)

-- Time.Sub: the difference, or the greatest or the least duration if it is none.
unfoldable pub time_sub : Time → Time → Duration
time_sub v1 v2 =
    if leb v2 v1
    then (if ltb max_duration (v1 - v2) then max_duration else v1 - v2)
    else (if ltb (2 ^ 63) (v2 - v1) then min_duration else 2 ^ 64 - (v2 - v1))

-- `diff <= tolerance`, where `diff` loses its sign first.
unfoldable pub is_within : Duration → Duration → Bool
unfolding negated at_most
is_within tolerance diff = at_most (if is_negative diff then negated diff else diff) tolerance
