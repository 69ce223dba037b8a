-- ===== src/Tests/Table.antt =====
-- The address table at concrete inputs.
use cf_app_sd_release.AddressTable.Addresses.{member}
use cf_app_sd_release.AddressTable.Calls.{Call, adds, apply, pauses, removes, run, view_run}
use cf_app_sd_release.AddressTable.Entries.{
  Entry, entries_to_ips, index_of, remove_at, set_update_time,
}
use cf_app_sd_release.AddressTable.History.{lookup_ips-run}
use cf_app_sd_release.AddressTable.Hostname.{fqdn, is_fqdn}
use cf_app_sd_release.AddressTable.Interleaving.{
  Reach-IsValid, Step, System, collected, here, next, prunes, skips, waiting,
}
use cf_app_sd_release.AddressTable.Lookups.{ips_at}
use cf_app_sd_release.AddressTable.Losses.{Loss, Step-Loss}
use cf_app_sd_release.AddressTable.Pausing.{IsQuiet, Kept, QuietReach-Kept, continued, started}
use cf_app_sd_release.AddressTable.Prune.{
  addresses_with_stale_entries, fresh_entries, has_stale, is_stale, may_prune, prune_address,
  prune_addresses, prune_stale_entries, stale_addresses, tick,
}
use cf_app_sd_release.AddressTable.Pruned.{IsFreshAt}
use cf_app_sd_release.AddressTable.Staleness.{Holds}
use cf_app_sd_release.AddressTable.Table.{
  AddressTable, add, add_host, all_addresses, entries_for_hostname, get_all_addresses, lookup_ips,
  new_address_table, pause_pruning, remove, remove_host,
}
use cf_app_sd_release.AddressTable.Ticks.{tick_drops, tick_keeps}
use cf_app_sd_release.AddressTable.Validity.{
  IsValid, add-IsValid, apply-IsValid, new_address_table-IsValid,
}
use cf_app_sd_release.Base.{
  Clock, IsMonotone, List, Str, [], arith, bytes, delete, false, inl, insert, lookup, pos, refl,
  some, str_eq, sub_time, suc, true, ℕ, ◌*◌, ◌∷◌, ◌≡◌,
}

-- A clock that reads ten more each time.
abbrev pub ticking : Clock
ticking n = n * 10

pub ticking-IsMonotone : IsMonotone ticking
ticking-IsMonotone i j h = omega arith

abbrev pub app : Str
app = bytes "app.local."

abbrev first_ip : Str
first_ip = bytes "10.0.0.1"

abbrev pub second_ip : Str
second_ip = bytes "10.0.0.2"

-- A table with the staleness threshold `threshold`, and one host with one address.
abbrev empty_table : ℕ → AddressTable
empty_table threshold = new_address_table (pos threshold) (pos 5) (pos 0)

abbrev pub one_host : ℕ → AddressTable
one_host threshold = add ticking (empty_table threshold) (app ∷ []) first_ip

pub one_host-IsValid : (threshold : ℕ) → IsValid (one_host threshold)
one_host-IsValid threshold =
    add-IsValid ticking (empty_table threshold) (app ∷ []) first_ip
      (new_address_table-IsValid _ _ _)

abbrev history : List Call
history =
    adds (bytes "app.local" ∷ []) first_ip
    ∷ adds (app ∷ bytes "web.local" ∷ []) second_ip
    ∷ pauses
    ∷ removes (app ∷ []) first_ip
    ∷ []

all_table : Unit {0}
unfolding new_address_table add add_host remove remove_host lookup_ips entries_for_hostname
    entries_to_ips index_of set_update_time remove_at fqdn is_fqdn lookup insert delete str_eq
    may_prune is_stale has_stale stale_addresses addresses_with_stale_entries fresh_entries
    prune_address prune_addresses prune_stale_entries tick apply run pause_pruning sub_time member
    all_addresses get_all_addresses
all_table = tt

lookup_test : lookup_ips (run ticking (empty_table 5) history) (bytes "app.local") ≡ second_ip ∷ []
unfolding all_table
lookup_test = refl

lookup_ips-run_example :
    lookup_ips (run ticking (empty_table 5) history) app
    ≡ view_run (ips_at (empty_table 5)) history (fqdn app)
lookup_ips-run_example =
    lookup_ips-run ticking (empty_table 5) history app (new_address_table-IsValid _ _ _)

-- The table with a stale entry, before and after the last section of a tick.
abbrev stale_system : System
stale_system = record { table = one_host 5; pruner = collected (app ∷ []) }

abbrev pruned_system : System
pruned_system = record {
  table = (prune_stale_entries ticking (one_host 5) (app ∷ [])).0;
  pruner = waiting;
}

Reach-IsValid_example : IsValid pruned_system.table
Reach-IsValid_example =
    Reach-IsValid {clock = ticking} {s = stale_system} {u = pruned_system} (one_host-IsValid 5)
      (next here (prunes (app ∷ []) refl refl))

stale_before : member first_ip (ips_at (one_host 5) app) ≡ true
unfolding all_table
stale_before = refl

stale_after : member first_ip (ips_at pruned_system.table app) ≡ false
unfolding all_table
stale_after = refl

Step-Loss_example : Loss ticking stale_system pruned_system app first_ip
Step-Loss_example =
    Step-Loss {clock = ticking} {s = stale_system} {u = pruned_system} app first_ip
      ticking-IsMonotone (one_host-IsValid 5) (prunes (app ∷ []) refl refl) stale_before stale_after

-- The same table with pruning paused, and a tick that comes then.
abbrev paused_system : System
paused_system = record { table = pause_pruning (one_host 5); pruner = waiting }

paused-Kept : Kept app first_ip paused_system
unfolding all_table
paused-Kept = record {
  valid = apply-IsValid ticking (one_host 5) pauses (one_host-IsValid 5);
  held = record { paused = refl; idle = refl };
  there = refl;
}

skipped : Step ticking paused_system paused_system
unfolding all_table
skipped = skips refl refl refl refl

skipped-IsQuiet : IsQuiet app first_ip skipped
unfolding skipped
skipped-IsQuiet = tt

QuietReach-Kept_example : Kept app first_ip paused_system
QuietReach-Kept_example =
    QuietReach-Kept {clock = ticking} {s = paused_system} app first_ip {u = paused_system}
      paused-Kept (continued {t = paused_system} started skipped skipped-IsQuiet)

abbrev first_entry : Entry
first_entry = record { ip = first_ip; update_time = 0 }

goes : (may_prune ticking (one_host 100)).0 ≡ true
unfolding all_table
goes = refl

kept_entry : Holds first_entry (entries_for_hostname (tick ticking (one_host 100)) app)
unfolding all_table
kept_entry = inl refl

held_entry : Holds first_entry (entries_for_hostname (one_host 100) app)
unfolding all_table
held_entry = inl refl

still_fresh : IsFreshAt ticking (one_host 100) (tick ticking (one_host 100)).reads first_entry
unfolding all_table
still_fresh = refl

tick_drops_example :
    Holds first_entry (entries_for_hostname (one_host 100) app)
    × IsFreshAt ticking (one_host 100) (suc (one_host 100).reads) first_entry
tick_drops_example =
    tick_drops ticking (one_host 100) app first_entry ticking-IsMonotone goes kept_entry

tick_keeps_example : Holds first_entry (entries_for_hostname (tick ticking (one_host 100)) app)
tick_keeps_example =
    tick_keeps ticking (one_host 100) app first_entry ticking-IsMonotone held_entry still_fresh

get_all : lookup app (get_all_addresses (one_host 5)) ≡ some (first_ip ∷ [])
unfolding all_table
get_all = refl
