-- ===== src/AddressTable/Interleaving.antt =====
-- The table used by many goroutines: every exported call is one step, and the pruning goroutine
-- makes three, between which any calls may come.
use cf_app_sd_release.AddressTable.Addresses.{Distinct}
use cf_app_sd_release.AddressTable.Calls.{Call, apply}
use cf_app_sd_release.AddressTable.Entries.{Entry, entries_to_ips}
use cf_app_sd_release.AddressTable.Prune.{
  Totals, addresses_with_stale_entries, fresh_entries, may_prune, prune_address, prune_addresses,
  prune_stale_entries,
}
use cf_app_sd_release.AddressTable.Staleness.{fresh_entries-member}
use cf_app_sd_release.AddressTable.Table.{AddressTable, entries_for_hostname}
use cf_app_sd_release.AddressTable.Ticks.{prune_stale_entries-table}
use cf_app_sd_release.AddressTable.Validity.{IsValid, apply-IsValid, insert-IsValid, same-IsValid}
use cf_app_sd_release.Base.{
  Clock, List, Option-cases, Str, [], arith, false, inl, inr, lookup, refl, suc, true, ℕ, ℤ, ◌∷◌,
  ◌≡◌,
}

-- Where the pruning goroutine stands: at its ticker, before the search, or with its candidates.
pub data Pruner : Type 0 where
  waiting : Pruner
  checked : Pruner
  collected : List Str → Pruner

pub record System : Type 0 where
  pub table : AddressTable
  pub pruner : Pruner

-- A stopped ticker sends no tick.
pub data Step (clock : Clock) (s u : System) : Type 0 where
  calls : (c : Call) → u ≡ record s { table = apply clock s.table c } → Step clock s u
  skips :
      s.pruner ≡ waiting
      → s.table.ticker_stopped ≡ false
      → (may_prune clock s.table).0 ≡ false
      → u ≡ record s { table = (may_prune clock s.table).1 }
      → Step clock s u
  starts :
      s.pruner ≡ waiting
      → s.table.ticker_stopped ≡ false
      → (may_prune clock s.table).0 ≡ true
      → u ≡ record { table = (may_prune clock s.table).1; pruner = checked }
      → Step clock s u
  collects :
      s.pruner ≡ checked
      → u ≡ record {
        table = (addresses_with_stale_entries clock s.table).1;
        pruner = collected (addresses_with_stale_entries clock s.table).0;
      }
      → Step clock s u
  prunes :
      (candidates : List Str)
      → s.pruner ≡ collected candidates
      → u ≡ record { table = (prune_stale_entries clock s.table candidates).0; pruner = waiting }
      → Step clock s u

pub data Reach (clock : Clock) (s : System) : System → Type 0 where
  here : Reach clock s s
  next : {t u : System} → Reach clock s t → Step clock t u → Reach clock s u

fresh_entries-Distinct :
    (clock : Clock) (threshold : ℤ) (n : ℕ) (es : List Entry)
    → Distinct (entries_to_ips es)
    → Distinct (entries_to_ips (fresh_entries clock threshold n es).0)
unfolding fresh_entries entries_to_ips
fresh_entries-Distinct clock threshold n [] d = d
fresh_entries-Distinct clock threshold n (e ∷ es) d = ground (
  arith,
  fresh_entries-Distinct clock threshold (suc n) es d.1,
  fresh_entries-member clock threshold (suc n) es e.ip d.0,
)

prune_address-IsValid :
    (clock : Clock) (t : AddressTable) (totals : Totals) (a : Str)
    → IsValid t
    → IsValid (prune_address clock (t, totals) a).0
unfolding prune_address entries_for_hostname
prune_address-IsValid clock t totals a h = elim (Option-cases (lookup a t.addresses)) [
  | inl e ↦ rw (e, prune_address) h
  | inr (es, e) ↦
      rw (e, prune_address)
        (insert-IsValid t _ a _ refl (h.qualified a es e)
          (fresh_entries-Distinct clock t.staleness_threshold t.reads es
            (rw (e, entries_for_hostname) at (h.no_repeats a)))
          h)
]

pub prune_addresses-IsValid :
    (clock : Clock) (t : AddressTable) (totals : Totals) (cs : List Str)
    → IsValid t
    → IsValid (prune_addresses clock (t, totals) cs).0
unfolding prune_addresses
prune_addresses-IsValid clock t totals [] h = h
prune_addresses-IsValid clock t totals (a ∷ cs) h =
    let s = prune_address clock (t, totals) a in
    prune_addresses-IsValid clock s.0 s.1 cs (prune_address-IsValid clock t totals a h)

pub may_prune-addresses :
    (clock : Clock) (t : AddressTable) → (may_prune clock t).1.addresses ≡ t.addresses
unfolding may_prune
may_prune-addresses clock t = ground arith

Step-IsValid : {clock : Clock} {s u : System} → Step clock s u → IsValid s.table → IsValid u.table
unfolding addresses_with_stale_entries
Step-IsValid {clock} {s} {u} (calls c e) h = rw e (apply-IsValid clock s.table c h)
Step-IsValid {clock} {s} {u} (skips w r m e) h =
    rw e (same-IsValid s.table _ (may_prune-addresses clock s.table) h)
Step-IsValid {clock} {s} {u} (starts w r m e) h =
    rw e (same-IsValid s.table _ (may_prune-addresses clock s.table) h)
Step-IsValid {clock} {s} {u} (collects w e) h = rw e (same-IsValid s.table _ refl h)
Step-IsValid {clock} {s} {u} (prunes cs w e) h =
    rw (e, prune_stale_entries-table clock s.table cs)
      (prune_addresses-IsValid clock s.table _ cs h)

-- In every state that a valid table can reach, whatever calls come between the sections of a tick,
-- the map keys are unique and fully qualified, and no host has an address twice.
pub Reach-IsValid :
    {clock : Clock} {s u : System} → IsValid s.table → Reach clock s u → IsValid u.table
Reach-IsValid h here = h
Reach-IsValid h (next r st) = Step-IsValid st (Reach-IsValid h r)
