-- ===== src/AddressTable/Entries.antt =====
-- The entries of one host name: `entry`, `indexOf` and `entriesToIPs` of address_table.go.
use mathlib.Core.Option
use cf_app_sd_release.Base.{
  ℕ, zero, suc, Option, none, some, List, [], ◌∷◌, ◌++◌, map, if◌then◌else◌, Str, str_eq, take,
  drop,
}

pub record Entry : Type 0 where
  pub ip : Str
  pub update_time : ℕ

-- The -1 of the source is `none`.
unfoldable pub index_of : List Entry → Str → Option ℕ
index_of [] value = none
index_of (e ∷ es) value = if str_eq e.ip value then some 0 else Option.map suc (index_of es value)

unfoldable pub entries_to_ips : List Entry → List Str
entries_to_ips = map (λ e. e.ip)

-- `entries[i].updateTime = now`
unfoldable pub set_update_time : List Entry → ℕ → ℕ → List Entry
set_update_time [] i now = []
set_update_time (e ∷ es) zero now = record e { update_time = now } ∷ es
set_update_time (e ∷ es) (suc i) now = e ∷ set_update_time es i now

-- `append(entries[:index], entries[index+1:]...)`
unfoldable pub remove_at : List Entry → ℕ → List Entry
remove_at es i = take i es ++ drop (suc i) es
