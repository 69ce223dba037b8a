-- ===== src/AddressTable/Addresses.antt =====
-- The addresses of one host as a list without repetitions, and how the entries implement it.
use mathlib.Core.List.{map-append}
use cf_app_sd_release.Base.{
  ℕ, zero, suc, ◌<◌, ◌≡◌, refl, ap, Bool, true, false, ◌||◌, none, some, List, [], ◌∷◌, ◌++◌, arith,
  if◌then◌else◌, Str, str_eq, str_eq_iff, length, ◌⊎◌, inl,
}
use cf_app_sd_release.AddressTable.Entries.{
  Entry, index_of, entries_to_ips, set_update_time, remove_at,
}

unfoldable pub member : Str → List Str → Bool
member a [] = false
member a (b ∷ l) = str_eq b a || member a l

unfoldable pub insert_ip : Str → List Str → List Str
insert_ip a l = if member a l then l else l ++ a ∷ []

unfoldable pub erase_ip : Str → List Str → List Str
erase_ip a [] = []
erase_ip a (b ∷ l) = if str_eq b a then l else b ∷ erase_ip a l

abbrev pub Distinct : List Str → Type 0
Distinct [] = Unit
Distinct (a ∷ l) = (member a l ≡ false) × Distinct l

pub index_of-member :
    (es : List Entry) (a : Str)
    → ((index_of es a ≡ none) × (member a (entries_to_ips es) ≡ false))
      ⊎ ((i : ℕ) × (index_of es a ≡ some i)
          × (member a (entries_to_ips es) ≡ true)
          × (i < length es))
unfolding index_of member entries_to_ips
index_of-member [] a = inl (refl, refl)
index_of-member (e ∷ es) a = ground (arith, index_of-member es a)

pub ips-append :
    (es : List Entry) (e : Entry) → entries_to_ips (es ++ e ∷ []) ≡ entries_to_ips es ++ e.ip ∷ []
unfolding entries_to_ips
ips-append es e = map-append _ es (e ∷ [])

pub ips-set_update_time :
    (es : List Entry) (i now : ℕ) → entries_to_ips (set_update_time es i now) ≡ entries_to_ips es
unfolding entries_to_ips set_update_time
ips-set_update_time [] i now = refl
ips-set_update_time (e ∷ es) zero now = refl
ips-set_update_time (e ∷ es) (suc i) now = ap (◌∷◌ e.ip) (ips-set_update_time es i now)

pub ips-remove_at :
    (es : List Entry) (a : Str) (i : ℕ)
    → index_of es a ≡ some i
    → entries_to_ips (remove_at es i) ≡ erase_ip a (entries_to_ips es)
unfolding entries_to_ips remove_at index_of erase_ip
ips-remove_at [] a i h = cc
ips-remove_at (e ∷ es) a zero h = ground arith
ips-remove_at (e ∷ es) a (suc i) h = ground (arith, ips-remove_at es a i)

pub erase_ip-absent : (a : Str) (l : List Str) → member a l ≡ false → erase_ip a l ≡ l
unfolding erase_ip member
erase_ip-absent a [] h = refl
erase_ip-absent a (b ∷ l) h = ground (arith, erase_ip-absent a l)

pub member-append : (a b : Str) (l : List Str) → member a (l ++ b ∷ []) ≡ (member a l || str_eq b a)
unfolding member
member-append a b [] = ground arith
member-append a b (c ∷ l) = ground (arith, member-append a b l)

pub member-insert_ip :
    (a b : Str) (l : List Str) → member b (insert_ip a l) ≡ (member b l || str_eq a b)
unfolding insert_ip
member-insert_ip a b l = ground (arith, member-append b a l, str_eq_iff a b)

member-erase_ip : (a b : Str) (l : List Str) → member b l ≡ false → member b (erase_ip a l) ≡ false
unfolding member erase_ip
member-erase_ip a b [] h = refl
member-erase_ip a b (c ∷ l) h = ground (arith, member-erase_ip a b l)

pub member-erase_ip_self : (a : Str) (l : List Str) → Distinct l → member a (erase_ip a l) ≡ false
unfolding member erase_ip
member-erase_ip_self a [] h = refl
member-erase_ip_self a (c ∷ l) h = ground (arith, str_eq_iff c a, member-erase_ip_self a l h.1)

Distinct-append :
    (a : Str) (l : List Str) → member a l ≡ false → Distinct l → Distinct (l ++ a ∷ [])
unfolding member
Distinct-append a [] h d = (refl, tt)
Distinct-append a (b ∷ l) h d =
    ground (arith, str_eq_iff a b, str_eq_iff b a, member-append b a l, Distinct-append a l)

pub insert_ip-Distinct : (a : Str) (l : List Str) → Distinct l → Distinct (insert_ip a l)
unfolding insert_ip
insert_ip-Distinct a l d = ground (arith, Distinct-append a l)

pub erase_ip-Distinct : (a : Str) (l : List Str) → Distinct l → Distinct (erase_ip a l)
unfolding erase_ip
erase_ip-Distinct a [] d = d
erase_ip-Distinct a (b ∷ l) d = ground (arith, member-erase_ip a b l d.0, erase_ip-Distinct a l d.1)
