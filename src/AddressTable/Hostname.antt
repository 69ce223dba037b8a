-- ===== src/AddressTable/Hostname.antt =====
-- Fully qualified host names: `isFqdn` and `fqdn` of address_table.go.
use cf_app_sd_release.Base.{
  ◌-◌, ◌≡◌, refl, Bool, true, false, none, some, List, [], ◌∷◌, ◌++◌, arith, ◌==◌, if◌then◌else◌,
  Str, length, get_elem?, length-append,
}

unfoldable pub is_fqdn : Str → Bool
is_fqdn s =
    let l = length s in
    if l == 0 then false else elim (get_elem? s (l - 1)) [ some c ↦ c == b'.' | none ↦ false ]

unfoldable pub fqdn : Str → Str
fqdn s = if is_fqdn s then s else s ++ b'.' ∷ []

get_elem?-append_end :
    {A : Type 0} (s : List A) (c : A) → get_elem? (s ++ c ∷ []) (length s) ≡ some c
get_elem?-append_end [] c = refl
get_elem?-append_end (d ∷ s) c = get_elem?-append_end s c

is_fqdn-append_dot : (s : Str) → is_fqdn (s ++ b'.' ∷ []) ≡ true
unfolding is_fqdn
is_fqdn-append_dot s =
    let e : length (s ++ b'.' ∷ []) - 1 ≡ length s = omega (arith, length-append s (b'.' ∷ [])) in
    rw (e, get_elem?-append_end s b'.') (ground (arith, length-append s (b'.' ∷ [])))

pub is_fqdn-fqdn : (s : Str) → is_fqdn (fqdn s) ≡ true
unfolding fqdn
is_fqdn-fqdn s = ground (arith, is_fqdn-append_dot s)

pub fqdn_of_is_fqdn : (s : Str) → is_fqdn s ≡ true → fqdn s ≡ s
unfolding fqdn
fqdn_of_is_fqdn s h = ground arith

-- A name and the same name with its dot stand for one host.
fqdn-append_dot : (s : Str) → is_fqdn s ≡ false → fqdn (s ++ b'.' ∷ []) ≡ fqdn s
unfolding fqdn
fqdn-append_dot s h = ground (arith, is_fqdn-append_dot s)
