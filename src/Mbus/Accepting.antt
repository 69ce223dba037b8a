-- ===== src/Mbus/Accepting.antt =====
-- Register messages that pass the check of the register handler.
use mathlib.Core.Bool.{false≢true}
use cf_app_sd_release.AddressTable.Addresses.{member}
use cf_app_sd_release.AddressTable.Hostname.{fqdn}
use cf_app_sd_release.Base.{
  List, Str, [], arith, false, length, map, str_eq, str_eq_iff, true, ◌==◌, ◌||◌, ◌∷◌, ◌≡◌, ◌≢◌,
}

-- A message with an address and a name is not turned away.
pub accepted :
    (ip : Str) (names : List Str) (k : Str)
    → ip ≢ []
    → member k (map fqdn names) ≡ true
    → (str_eq ip [] || length names == 0) ≡ false
unfolding member
accepted ip [] k has_ip named = absurd (false≢true named)
accepted ip (n ∷ names) k has_ip named = ground (arith, str_eq_iff ip [])
