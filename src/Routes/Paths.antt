-- ===== src/Routes/Paths.antt =====
-- The last element of a request's path, which names the host.
use mathlib.Core.List.{reverse, reverse-append, reverse-reverse, reverse-cons, append_assoc}
use cf_app_sd_release.Base.{
  All, All-append, Str, [], ap, arith, false, refl, str_eq, sym, ℕ, ◌++◌, ◌==◌, ◌∙◌, ◌∷◌, ◌≡◌, ◌≢◌,
}
use cf_app_sd_release.Routes.Server.{base, drop_slashes, until_slash}

abbrev pub NoSlash : Str → Type 0
NoSlash = All (λ c. (c == b'/') ≡ false)

until_slash-append : (s t : Str) → NoSlash s → until_slash (s ++ b'/' ∷ t) ≡ s
unfolding until_slash
until_slash-append [] t h = refl
until_slash-append (c ∷ s) t h = ground (arith, until_slash-append s t h.1)

reverse-NoSlash : (s : Str) → NoSlash s → NoSlash (reverse s)
reverse-NoSlash [] h = h
reverse-NoSlash (c ∷ s) h =
    rw (reverse-cons c s) (All-append _ (reverse s) (c ∷ []) (reverse-NoSlash s h.1) (h.0, tt))

drop_slashes-NoSlash :
    (c : ℕ) (s t : Str) → (c == b'/') ≡ false → drop_slashes (c ∷ s ++ t) ≡ c ∷ s ++ t
unfolding drop_slashes
drop_slashes-NoSlash c s t h = ground arith

reverse-nonempty : (s : Str) → s ≢ [] → (c : ℕ) × (r : Str) × (reverse s ≡ c ∷ r)
reverse-nonempty s h = go (reverse s) refl
  where
    go : (l : Str) → reverse s ≡ l → (c : ℕ) × (r : Str) × (reverse s ≡ c ∷ r)
    go [] e = absurd (h (sym (reverse-reverse s) ∙ ap reverse e))
    go (c ∷ r) e = (c, r, e)

str_eq-nonempty : (p : Str) (c : ℕ) (s : Str) → str_eq (p ++ c ∷ s) [] ≡ false
unfolding str_eq
str_eq-nonempty [] c s = refl
str_eq-nonempty (b ∷ p) c s = refl

base-stripped :
    (path : Str) (c : ℕ) (r : Str)
    → str_eq path [] ≡ false
    → drop_slashes (reverse path) ≡ c ∷ r
    → base path ≡ reverse (until_slash (c ∷ r))
unfolding base str_eq
base-stripped path c r e d = rw (e, d, base) refl

reverse-path : (p name : Str) → reverse (p ++ b'/' ∷ name) ≡ reverse name ++ b'/' ∷ reverse p
reverse-path p name =
    reverse-append p (b'/' ∷ name)
    ∙ ap (λ l. l ++ reverse p) (reverse-cons b'/' name)
    ∙ append_assoc (reverse name) (b'/' ∷ []) (reverse p)

-- The name behind the last slash.
pub base-append : (p name : Str) → name ≢ [] → NoSlash name → base (p ++ b'/' ∷ name) ≡ name
base-append p name ne h =
    let (c, r, e) = reverse-nonempty name ne in
    let plain = rw e at (reverse-NoSlash name h) in
    let stripped =
      ap drop_slashes (reverse-path p name ∙ ap (λ l. l ++ b'/' ∷ reverse p) e)
      ∙ drop_slashes-NoSlash c r (b'/' ∷ reverse p) plain.0 in
    base-stripped (p ++ b'/' ∷ name) c (r ++ b'/' ∷ reverse p) (str_eq-nonempty p b'/' name)
      stripped
    ∙ ap reverse (until_slash-append (c ∷ r) (reverse p) plain)
    ∙ ap reverse (sym e)
    ∙ reverse-reverse name
