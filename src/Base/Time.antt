-- ===== src/Base/Time.antt =====
-- Time as the program reads it. A `time.Time` is the nanoseconds since Go's zero time, a
-- `time.Duration` a signed 64-bit count of nanoseconds.
-- The clock is not part of the sources: it is a parameter that gives the value of each reading.
use cf_app_sd_release.Base.Tests.{leb, if◌then◌else◌}
use cf_app_sd_release.Base.Int.{ℤ, pos, negsuc, ◌≤ℤ◌}
use Prim.Native.Nat.{ℕ, ◌-◌, ◌^◌, ◌≤◌, min}
use native.Mathlib.Omega.{arith}

-- `clock n` is what the reading with number `n` returns.
abbrev pub Clock : Type 0
Clock = ℕ → ℕ

-- Documented of the clock: it does not run backwards.
abbrev pub IsMonotone : Clock → Type 0
IsMonotone clock = (i j : ℕ) → i ≤ j → clock i ≤ clock j

abbrev pub max_duration : ℕ
max_duration = 2 ^ 63 - 1

-- `t.Sub(u)`, which saturates at the least and the greatest duration.
unfoldable pub sub_time : ℕ → ℕ → ℤ
sub_time t u =
    if leb u t then pos (min (t - u) max_duration) else negsuc (min (u - t - 1) max_duration)

pub sub_time-mono : (t t' u : ℕ) → t ≤ t' → sub_time t u ≤ℤ sub_time t' u
unfolding sub_time
sub_time-mono t t' u h = ground arith
