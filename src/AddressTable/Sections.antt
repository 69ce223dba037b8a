-- ===== src/AddressTable/Sections.antt =====
-- service-discovery-controller/addresstable/address_table.go: the pruning goroutine as a function, one
-- critical section at a time.
use cf_app_sd_release.AddressTable.Entries.{Entry}
use cf_app_sd_release.AddressTable.Interleaving.{
  Pruner, Step, System, checked, collected, collects, may_prune-addresses, prune_addresses-IsValid,
  prunes, skips, starts, waiting,
}
use cf_app_sd_release.AddressTable.Prune.{
  addresses_with_stale_entries, may_prune, prune_addresses, prune_stale_entries,
}
use cf_app_sd_release.AddressTable.Pruned.{prune_addresses-sub}
use cf_app_sd_release.AddressTable.Staleness.{Holds}
use cf_app_sd_release.AddressTable.Table.{AddressTable, entries_for_hostname}
use cf_app_sd_release.AddressTable.Ticks.{no_totals, prune_stale_entries-table}
use cf_app_sd_release.AddressTable.Validity.{IsValid, same-IsValid}
use cf_app_sd_release.AddressTable.Traces.{IsSection}
use cf_app_sd_release.Base.{
  Bool-cases, Clock, IsMonotone, List, Str, arith, false, if◌then◌else◌, inl, inr, refl, ◌≡◌, ◌⊎◌,
}

-- The next section, for a table and the place where the goroutine stands.
unfoldable pub section_at : Clock → AddressTable → Pruner → System
section_at clock t waiting =
    let go = may_prune clock t in
    if t.ticker_stopped
    then record { table = t; pruner = waiting }
    else record { table = go.1; pruner = if go.0 then checked else waiting }
section_at clock t checked =
    let found = addresses_with_stale_entries clock t in
    record { table = found.1; pruner = collected found.0 }
section_at clock t (collected candidates) = record {
  table = (prune_stale_entries clock t candidates).0;
  pruner = waiting;
}

waiting-Step :
    (clock : Clock) (t : AddressTable)
    → t.ticker_stopped ≡ false
    → (st : Step clock (record { table = t; pruner = waiting }) (section_at clock t waiting))
      × IsSection st
unfolding section_at
waiting-Step clock t going = elim (Bool-cases (may_prune clock t).0) [
  | inl go ↦ (starts refl going go (ground arith), tt)
  | inr stop ↦ (skips refl going stop (ground arith), tt)
]

-- While the ticker runs, a section is a step of the goroutine.
pub section_at-Step :
    (clock : Clock) (t : AddressTable) (p : Pruner)
    → t.ticker_stopped ≡ false
    → (st : Step clock (record { table = t; pruner = p }) (section_at clock t p)) × IsSection st
unfolding section_at
section_at-Step clock t waiting going = waiting-Step clock t going
section_at-Step clock t checked going = (collects refl refl, tt)
section_at-Step clock t (collected cs) going = (prunes cs refl refl, tt)

-- A section leaves the addresses as they are, or takes the stale ones of the candidates.
section_at-addresses :
    (clock : Clock) (t : AddressTable) (p : Pruner)
    → ((section_at clock t p).table.addresses ≡ t.addresses)
      ⊎ ((cs : List Str) × ((section_at clock t p).table
            ≡ (prune_addresses clock (t, no_totals) cs).0))
unfolding section_at addresses_with_stale_entries
section_at-addresses clock t waiting = inl (ground (arith, may_prune-addresses clock t))
section_at-addresses clock t checked = inl refl
section_at-addresses clock t (collected cs) = inr (cs, prune_stale_entries-table clock t cs)

pub section_at-IsValid :
    (clock : Clock) (t : AddressTable) (p : Pruner)
    → IsValid t
    → IsValid (section_at clock t p).table
section_at-IsValid clock t p h = elim (section_at-addresses clock t p) [
  | inl e ↦ same-IsValid t _ e h
  | inr (cs, e) ↦ rw e (prune_addresses-IsValid clock t no_totals cs h)
]

-- With a clock that does not run backwards, a section brings no entry in.
pub section_at-sub :
    (clock : Clock) (t : AddressTable) (p : Pruner) (k : Str) (e : Entry)
    → IsMonotone clock
    → Holds e (entries_for_hostname (section_at clock t p).table k)
    → Holds e (entries_for_hostname t k)
unfolding entries_for_hostname
section_at-sub clock t p k e monotone h = elim (section_at-addresses clock t p) [
  | inl same ↦ rw (same, entries_for_hostname) at h
  | inr (cs, same) ↦
      prune_addresses-sub clock monotone t no_totals cs k e (rw (same, entries_for_hostname) at h)
]
