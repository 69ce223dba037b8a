-- ===== src/ExampleApps/Numbers.antt =====
-- `strconv.Atoi` and `strings.TrimPrefix`, as the handlers of example-apps use them.
use cf_app_sd_release.Base.{
  Bool, Option, Str, [], arith, if◌then◌else◌, leb, ltb, none, some, ℕ, ℤ, ◌%◌, ◌&&◌, ◌*◌, ◌++◌,
  ◌+◌, ◌-◌, ◌/◌, ◌<◌, ◌==◌, ◌^◌, ◌∷◌, ◌≡◌, pos, negsuc, suc, zero, refl, true, false, ◌≢◌,
}
use cf_app_sd_release.Populator.Job.{decimal, digits_from}

-- Decimal digits behind a value; `none` if another character occurs.
unfoldable pub digits_value : Str → ℕ → Option ℕ
digits_value [] value = some value
digits_value (c ∷ s) value =
    let rest = digits_value s (value * 10 + (c - b'0')) in
    if leb b'0' c && leb c b'9' then rest else none

-- `none` without a digit.
unfoldable pub magnitude : Str → Option ℕ
unfolding digits_value
magnitude [] = none
magnitude (c ∷ s) = digits_value (c ∷ s) 0

unfoldable pub negative : ℕ → ℤ
negative zero = pos 0
negative (suc n) = negsuc n

-- The ranges of an int of 64 bits.
unfoldable pub signed : Bool → Option ℕ → Option ℤ
unfolding negative
signed is_negative none = none
signed true (some value) = if leb value (2 ^ 63) then some (negative value) else none
signed false (some value) = if ltb value (2 ^ 63) then some (pos value) else none

-- `none` is an error.
unfoldable pub atoi : Str → Option ℤ
unfolding signed magnitude
atoi [] = none
atoi (c ∷ s) =
    if c == b'-'
    then signed true (magnitude s)
    else if c == b'+'
    then signed false (magnitude s)
    else signed false (magnitude (c ∷ s))

-- `strings.TrimPrefix(s, prefix)`
unfoldable pub after_prefix : Str → Str → Option Str
after_prefix s [] = some s
after_prefix [] (c ∷ prefix) = none
after_prefix (d ∷ s) (c ∷ prefix) =
    let rest = after_prefix s prefix in if c == d then rest else none

unfoldable pub trim_prefix : Str → Str → Str
unfolding after_prefix
trim_prefix s prefix = elim (after_prefix s prefix) [ none ↦ s | some rest ↦ rest ]

after_prefix-append : (prefix s : Str) → after_prefix (prefix ++ s) prefix ≡ some s
unfolding after_prefix
after_prefix-append [] s = refl
after_prefix-append (c ∷ prefix) s = grind (arith, after_prefix-append prefix s)

pub trim_prefix-append : (prefix s : Str) → trim_prefix (prefix ++ s) prefix ≡ s
unfolding trim_prefix
trim_prefix-append prefix s = rw (after_prefix-append prefix s, trim_prefix) refl

digit_value : (value d : ℕ) → value * 10 + (d + 48 - 48) ≡ value * 10 + d
digit_value value d = omega arith

digits_value-digit :
    (s : Str) (value d : ℕ)
    → d < 10
    → digits_value ((d + b'0') ∷ s) value ≡ digits_value s (value * 10 + d)
unfolding digits_value
digits_value-digit s value d h = ground (arith, digit_value value d)

digits_value-digits_from :
    (fuel n : ℕ) (s : Str) → n < fuel → digits_value (digits_from fuel n s) 0 ≡ digits_value s n
unfolding digits_from
digits_value-digits_from zero n s h = absurd (omega (arith, h))
digits_value-digits_from (suc fuel) n s h =
    let step = digits_value-digits_from fuel (n / 10) ((n % 10 + b'0') ∷ s) in
    let last = digits_value-digit s (n / 10) (n % 10) in
    let small = digits_value-digit s 0 n in
    let whole : n / 10 * 10 + n % 10 ≡ n = omega arith in ground (arith, step, last, small, whole)

digits_from-nonempty : (fuel n : ℕ) (s : Str) → s ≢ [] → digits_from fuel n s ≢ []
unfolding digits_from
digits_from-nonempty zero n s h = h
digits_from-nonempty (suc fuel) n s h =
    ground (arith, digits_from-nonempty fuel (n / 10) ((n % 10 + b'0') ∷ s))

-- Digits have no sign.
atoi-digits :
    (s : Str) (value : ℕ)
    → s ≢ []
    → digits_value s 0 ≡ some value
    → value < 2 ^ 63
    → atoi s ≡ some (pos value)
unfolding atoi signed magnitude digits_value
atoi-digits [] value h e l = absurd (h refl)
atoi-digits (c ∷ s) value h e l = ground arith

decimal-nonempty : (n : ℕ) → decimal n ≢ []
unfolding decimal digits_from
decimal-nonempty n = ground (arith, digits_from-nonempty n (n / 10) ((n % 10 + b'0') ∷ []))

pub digits_value-decimal : (n : ℕ) → digits_value (decimal n) 0 ≡ some n
unfolding decimal digits_value
digits_value-decimal n = digits_value-digits_from (suc n) n [] (omega arith)

-- A number that an int holds is read back from its digits.
pub atoi-decimal : (n : ℕ) → n < 2 ^ 63 → atoi (decimal n) ≡ some (pos n)
atoi-decimal n h = atoi-digits (decimal n) n (decimal-nonempty n) (digits_value-decimal n) h
