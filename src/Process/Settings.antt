-- ===== src/Process/Settings.antt =====
-- The settings of the table through calls and sections of the pruning goroutine.
use cf_app_sd_release.AddressTable.Interleaving.{Pruner, checked, collected, waiting}
use cf_app_sd_release.AddressTable.Prune.{
  Totals, addresses_with_stale_entries, may_prune, prune_address, prune_addresses,
}
use cf_app_sd_release.AddressTable.Sections.{section_at}
use cf_app_sd_release.AddressTable.Table.{AddressTable, add, add_host, remove, remove_host}
use cf_app_sd_release.AddressTable.Ticks.{no_totals, prune_stale_entries-table}
use cf_app_sd_release.Base.{Clock, List, Str, [], arith, refl, ℤ, ◌∷◌, ◌≡◌}

-- The settings of a table, which nothing changes.
abbrev pub settings : AddressTable → ℤ × ℤ × ℤ
settings t = (t.staleness_threshold, t.pruning_interval, t.resume_pruning_delay)

pub add-settings :
    (clock : Clock) (t : AddressTable) (hostnames : List Str) (ip : Str)
    → (settings (add clock t hostnames ip) ≡ settings t)
      × ((add clock t hostnames ip).ticker_stopped ≡ t.ticker_stopped)
unfolding add add_host
add-settings clock t [] ip = (refl, refl)
add-settings clock t (h ∷ hs) ip = ground (arith, add-settings clock (add_host clock ip t h) hs ip)

pub remove-settings :
    (t : AddressTable) (hostnames : List Str) (ip : Str)
    → (settings (remove t hostnames ip) ≡ settings t)
      × ((remove t hostnames ip).ticker_stopped ≡ t.ticker_stopped)
unfolding remove remove_host
remove-settings t [] ip = (refl, refl)
remove-settings t (h ∷ hs) ip = ground (arith, remove-settings (remove_host ip t h) hs ip)

prune_addresses-settings :
    (clock : Clock) (t : AddressTable) (totals : Totals) (cs : List Str)
    → (settings (prune_addresses clock (t, totals) cs).0 ≡ settings t)
      × ((prune_addresses clock (t, totals) cs).0.ticker_stopped ≡ t.ticker_stopped)
unfolding prune_addresses prune_address
prune_addresses-settings clock t totals [] = (refl, refl)
prune_addresses-settings clock t totals (c ∷ cs) =
    let s = prune_address clock (t, totals) c in
    ground (arith, prune_addresses-settings clock s.0 s.1 cs)

pub section_at-settings :
    (clock : Clock) (t : AddressTable) (p : Pruner)
    → (settings (section_at clock t p).table ≡ settings t)
      × ((section_at clock t p).table.ticker_stopped ≡ t.ticker_stopped)
unfolding section_at may_prune addresses_with_stale_entries
section_at-settings clock t waiting = ground arith
section_at-settings clock t checked = (refl, refl)
section_at-settings clock t (collected cs) =
    rw (prune_stale_entries-table clock t cs) (prune_addresses-settings clock t no_totals cs)
