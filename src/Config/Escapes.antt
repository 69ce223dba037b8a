-- ===== src/Config/Escapes.antt =====
-- Escaping as `net/url` does it, for the user information and for the host of a URL.
use cf_app_sd_release.Base.{
  Bool, Str, [], bytes, false, if◌then◌else◌, leb, ltb, not, ℕ, ◌%◌, ◌&&◌, ◌+◌, ◌-◌, ◌/◌, ◌==◌,
  ◌||◌, ◌∷◌,
}

abbrev pub in_range : ℕ → ℕ → ℕ → Bool
in_range lo hi c = leb lo c && leb c hi

unfoldable pub is_alphanumeric : ℕ → Bool
is_alphanumeric c = in_range b'a' b'z' c || in_range b'A' b'Z' c || in_range b'0' b'9' c

unfoldable pub contains : Str → ℕ → Bool
contains [] c = false
contains (d ∷ s) c = d == c || contains s c

-- `shouldEscape(c, encodeUserPassword)`
unfoldable pub escapes_in_user : ℕ → Bool
unfolding is_alphanumeric contains
escapes_in_user c = not (is_alphanumeric c || contains (bytes "-_.~$&+,;=") c)

-- `shouldEscape(c, encodeHost)`
unfoldable pub escapes_in_host : ℕ → Bool
unfolding is_alphanumeric contains
escapes_in_host c = not (is_alphanumeric c || contains (bytes "!$&'()*+,;=:[]<>\"-_.~") c)

-- A digit of `upperhex`.
unfoldable pub hex_digit : ℕ → ℕ
hex_digit d = if ltb d 10 then d + b'0' else d - 10 + b'A'

unfoldable pub escape : (ℕ → Bool) → Str → Str
escape escapes [] = []
escape escapes (c ∷ s) =
    if escapes c
    then b'%' ∷ hex_digit (c / 16) ∷ hex_digit (c % 16) ∷ escape escapes s
    else c ∷ escape escapes s
