-- ===== src/AddressTable/Pausing.antt =====
-- What pausing promises: no address is lost by age until pruning is resumed.
use mathlib.Core.Bool.{false≢true}
use cf_app_sd_release.AddressTable.Addresses.{member}
use cf_app_sd_release.AddressTable.Calls.{
  Call, adds, apply, pauses, removes, resumes, shuts_down, warms,
}
use cf_app_sd_release.AddressTable.Hostname.{fqdn}
use cf_app_sd_release.AddressTable.Interleaving.{
  Step, System, calls, collects, prunes, skips, starts, waiting,
}
use cf_app_sd_release.AddressTable.Lookups.{ips_at, remove-ips}
use cf_app_sd_release.AddressTable.Losses.{add-keeps, member-erase_ip_ne}
use cf_app_sd_release.AddressTable.Prune.{may_prune}
use cf_app_sd_release.AddressTable.Table.{
  AddressTable, add, add_host, entries_for_hostname, pause_pruning, remove, remove_host, set_warm,
  shutdown,
}
use cf_app_sd_release.AddressTable.Validity.{IsValid, apply-IsValid}
use cf_app_sd_release.Base.{
  Clock, List, Str, [], arith, false, map, refl, str_eq, sym, true, ◌&&◌, ◌∙◌, ◌∷◌, ◌≡◌,
}

-- No `ResumePruning`, and no `Remove` of the address `ip` of the host `k`.
abbrev pub IsQuietCall : Str → Str → Call → Type 0
IsQuietCall k ip resumes = ⊥
IsQuietCall k ip (removes hostnames a) = (member k (map fqdn hostnames) && str_eq a ip) ≡ false
IsQuietCall k ip _ = Unit

abbrev pub IsQuiet : {clock : Clock} {s u : System} → Str → Str → Step clock s u → Type 0
IsQuiet k ip (calls c e) = IsQuietCall k ip c
IsQuiet k ip _ = Unit

pub data QuietReach (clock : Clock) (k ip : Str) (s : System) : System → Type 0 where
  started : QuietReach clock k ip s s
  continued :
      {t u : System}
      → QuietReach clock k ip s t
      → (st : Step clock t u) → IsQuiet k ip st
      → QuietReach clock k ip s u

-- The goroutine waits at its ticker, and finds pruning paused if a tick comes.
pub record IsHeld (s : System) : Type 0 where
  pub paused : s.table.paused_pruning ≡ true
  pub idle : s.pruner ≡ waiting

add-paused_pruning :
    (clock : Clock) (t : AddressTable) (hostnames : List Str) (ip : Str)
    → (add clock t hostnames ip).paused_pruning ≡ t.paused_pruning
unfolding add add_host
add-paused_pruning clock t [] ip = refl
add-paused_pruning clock t (h ∷ hs) ip =
    ground (arith, add-paused_pruning clock (add_host clock ip t h) hs ip)

remove-paused_pruning :
    (t : AddressTable) (hostnames : List Str) (ip : Str)
    → (remove t hostnames ip).paused_pruning ≡ t.paused_pruning
unfolding remove remove_host
remove-paused_pruning t [] ip = refl
remove-paused_pruning t (h ∷ hs) ip =
    ground (arith, remove-paused_pruning (remove_host ip t h) hs ip)

may_prune-paused :
    (clock : Clock) (t : AddressTable)
    → t.paused_pruning ≡ true
    → ((may_prune clock t).0 ≡ false) × ((may_prune clock t).1 ≡ t)
unfolding may_prune
may_prune-paused clock t h = ground arith

calls-IsHeld :
    (clock : Clock) (s : System) (k ip : Str) (c : Call)
    → IsQuietCall k ip c
    → IsHeld s
    → IsHeld (record s { table = apply clock s.table c })
unfolding apply set_warm pause_pruning shutdown
calls-IsHeld clock s k ip (adds hostnames a) q h = record {
  paused = add-paused_pruning clock s.table hostnames a ∙ h.paused;
  idle = h.idle;
}
calls-IsHeld clock s k ip (removes hostnames a) q h = record {
  paused = remove-paused_pruning s.table hostnames a ∙ h.paused;
  idle = h.idle;
}
calls-IsHeld clock s k ip warms q h = record { paused = h.paused; idle = h.idle }
calls-IsHeld clock s k ip pauses q h = record { paused = refl; idle = h.idle }
calls-IsHeld clock s k ip resumes q h = elim q [ ]
calls-IsHeld clock s k ip shuts_down q h = record { paused = h.paused; idle = h.idle }

calls-keeps :
    (clock : Clock) (t : AddressTable) (k ip : Str) (c : Call)
    → IsQuietCall k ip c
    → IsValid t
    → member ip (ips_at t k) ≡ true
    → member ip (ips_at (apply clock t c) k) ≡ true
unfolding apply set_warm pause_pruning shutdown entries_for_hostname
calls-keeps clock t k ip (adds hostnames a) q h was = add-keeps clock t hostnames a k ip was
calls-keeps clock t k ip (removes hostnames a) q h was =
    ground
      (arith, remove-ips t hostnames a k (h.no_repeats k), member-erase_ip_ne a ip (ips_at t k))
calls-keeps clock t k ip warms q h was = was
calls-keeps clock t k ip pauses q h was = was
calls-keeps clock t k ip resumes q h was = elim q [ ]
calls-keeps clock t k ip shuts_down q h was = was

-- What the theorem below carries along.
pub record Kept (k ip : Str) (s : System) : Type 0 where
  pub valid : IsValid s.table
  pub held : IsHeld s
  pub there : member ip (ips_at s.table k) ≡ true

Step-Kept :
    {clock : Clock} {s u : System} (k ip : Str) (st : Step clock s u)
    → IsQuiet k ip st
    → Kept k ip s
    → Kept k ip u
Step-Kept {clock} {s} k ip (calls c e) q h = rw e (record {
  valid = apply-IsValid clock s.table c h.valid;
  held = calls-IsHeld clock s k ip c q h.held;
  there = calls-keeps clock s.table k ip c q h.valid h.there;
})
Step-Kept {clock} {s} k ip (skips w r m e) q h =
    rw (e, (may_prune-paused clock s.table h.held.paused).1) h
Step-Kept {clock} {s} k ip (starts w r m e) q h =
    absurd (false≢true (sym (may_prune-paused clock s.table h.held.paused).0 ∙ m))
Step-Kept {clock} {s} k ip (collects w e) q h = absurd (ground (arith, h.held.idle))
Step-Kept {clock} {s} k ip (prunes cs w e) q h = absurd (ground (arith, h.held.idle))

-- While the pruning goroutine waits and pruning is paused, no registered address of a host is lost by
-- age: over any steps without `ResumePruning` and without a `Remove` of that address which names the
-- host, whatever time passes and whatever ticks come, the table stays valid, pruning stays paused and
-- the address stays under its host.
pub QuietReach-Kept :
    {clock : Clock} {s : System} (k ip : Str) {u : System}
    → Kept k ip s
    → QuietReach clock k ip s u
    → Kept k ip u
QuietReach-Kept k ip h started = h
QuietReach-Kept k ip h (continued r st q) = Step-Kept k ip st q (QuietReach-Kept k ip h r)
