-- ===== src/Process/Durations.antt =====
-- `time.Duration(n) * time.Second`, on 64-bit integers that wrap around.
use cf_app_sd_release.Base.{
  arith, if◌then◌else◌, ltb, neg_part, negsuc, pos, pos_part, ℕ, ℤ, ◌%◌, ◌*◌, ◌+◌, ◌-◌, ◌^◌, ◌≡◌,
  ◌≤◌,
}

-- The bit pattern of an integer, and the integer of a bit pattern.
unfoldable pub to_word : ℤ → ℕ
to_word z = (pos_part z + (2 ^ 64 - neg_part z % 2 ^ 64)) % 2 ^ 64

unfoldable pub from_word : ℕ → ℤ
from_word w = if ltb w (2 ^ 63) then pos w else negsuc (2 ^ 64 - w - 1)

unfoldable pub duration_of_seconds : ℤ → ℤ
unfolding to_word from_word
duration_of_seconds (pos n) = from_word (to_word (pos (n * 10 ^ 9)))
duration_of_seconds (negsuc n) = from_word (to_word (negsuc (n * 10 ^ 9 + 10 ^ 9 - 1)))

-- The greatest number of seconds that does not wrap around.
abbrev pub max_seconds : ℕ
max_seconds = 9223372036

pub duration_of_seconds-pos :
    (n : ℕ) → n ≤ max_seconds → duration_of_seconds (pos n) ≡ pos (n * 10 ^ 9)
unfolding duration_of_seconds
duration_of_seconds-pos n h = ground arith
