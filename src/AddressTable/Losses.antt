-- ===== src/AddressTable/Losses.antt =====
-- How an address can be lost: only by a `Remove` that names it, or by being stale.
use mathlib.Core.Bool.{false≢true}
use cf_app_sd_release.AddressTable.Addresses.{erase_ip, member, member-insert_ip}
use cf_app_sd_release.AddressTable.Calls.{
  Call, adds, apply, pauses, removes, resumes, shuts_down, warms,
}
use cf_app_sd_release.AddressTable.Entries.{Entry, entries_to_ips}
use cf_app_sd_release.AddressTable.Hostname.{fqdn}
use cf_app_sd_release.AddressTable.Interleaving.{
  Step, System, calls, collects, may_prune-addresses, prunes, skips, starts,
}
use cf_app_sd_release.AddressTable.Lookups.{add-ips, ips_at, remove-ips}
use cf_app_sd_release.AddressTable.Prune.{
  addresses_with_stale_entries, is_stale, prune_stale_entries,
}
use cf_app_sd_release.AddressTable.Pruned.{prune_addresses-keeps}
use cf_app_sd_release.AddressTable.Staleness.{Holds}
use cf_app_sd_release.AddressTable.Table.{
  AddressTable, add, entries_for_hostname, pause_pruning, remove, resume_pruning, set_warm,
  shutdown,
}
use cf_app_sd_release.AddressTable.Ticks.{no_totals, prune_stale_entries-table}
use cf_app_sd_release.AddressTable.Validity.{IsValid}
use cf_app_sd_release.Base.{
  Bool-cases, Clock, IsMonotone, List, Str, [], ap, arith, false, inl, inr, map, refl, str_eq,
  str_eq_iff, sym, true, ◌∙◌, ◌∷◌, ◌≡◌,
}

pub member-Holds :
    (a : Str) (es : List Entry)
    → member a (entries_to_ips es) ≡ true
    → (e : Entry) × Holds e es × (e.ip ≡ a)
unfolding member entries_to_ips
member-Holds a [] h = cc
member-Holds a (e ∷ es) h = elim (Bool-cases (str_eq e.ip a)) [
  | inl same ↦ (e, inl refl, (str_eq_iff e.ip a).0 same)
  | inr other ↦ let (d, held, named) = member-Holds a es (ground arith) in (d, inr held, named)
]

pub Holds-member :
    (a : Str) (es : List Entry) (e : Entry)
    → Holds e es
    → e.ip ≡ a
    → member a (entries_to_ips es) ≡ true
unfolding member entries_to_ips
Holds-member a [] e h n = elim h [ ]
Holds-member a (d ∷ es) e h n = ground (arith, Holds-member a es e, str_eq_iff d.ip a)

pub member-erase_ip_ne :
    (a b : Str) (l : List Str) → str_eq a b ≡ false → member b (erase_ip a l) ≡ member b l
unfolding member erase_ip
member-erase_ip_ne a b [] h = refl
member-erase_ip_ne a b (c ∷ l) h =
    ground (arith, member-erase_ip_ne a b l h, str_eq_iff c a, str_eq_iff c b, str_eq_iff a b)

-- What a step can have done to an address that is gone after it.
pub data Loss (clock : Clock) (s u : System) (k ip : Str) : Type 0 where
  removed :
      (hostnames : List Str)
      → member k (map fqdn hostnames) ≡ true
      → u.table ≡ remove s.table hostnames ip
      → Loss clock s u k ip
  expired :
      (e : Entry)
      → Holds e (entries_for_hostname s.table k)
      → e.ip ≡ ip
      → is_stale clock s.table.staleness_threshold u.table.reads e ≡ true
      → Loss clock s u k ip

pub same-ips :
    (t t' : AddressTable) (k : Str) → t'.addresses ≡ t.addresses → ips_at t' k ≡ ips_at t k
unfolding entries_for_hostname
same-ips t t' k e = rw (e, entries_for_hostname)

-- An address that the third section takes has an entry that is stale.
pub prunes-stale :
    (clock : Clock) (t u : AddressTable) (cs : List Str) (k ip : Str)
    → IsMonotone clock
    → u ≡ (prune_stale_entries clock t cs).0
    → member ip (ips_at t k) ≡ true
    → member ip (ips_at u k) ≡ false
    → (e : Entry) × Holds e (entries_for_hostname t k)
      × (e.ip ≡ ip)
      × (is_stale clock t.staleness_threshold u.reads e ≡ true)
prunes-stale clock t u cs k ip monotone e was gone =
    let (d, held, named) = member-Holds ip (entries_for_hostname t k) was in
    elim (Bool-cases (is_stale clock t.staleness_threshold u.reads d)) [
      | inl stale ↦ (d, held, named, stale)
      | inr fresh ↦
          let e' = e ∙ prune_stale_entries-table clock t cs in
          let kept =
            prune_addresses-keeps clock monotone u.reads t no_totals cs k d
              (rw (← e') (omega arith)) fresh held in
          absurd (
            false≢true (sym gone ∙ Holds-member ip (entries_for_hostname u k) d (rw e' kept) named))
    ]

prunes-Loss :
    {clock : Clock} {s u : System} (cs : List Str) (k ip : Str)
    → IsMonotone clock
    → u.table ≡ (prune_stale_entries clock s.table cs).0
    → member ip (ips_at s.table k) ≡ true
    → member ip (ips_at u.table k) ≡ false
    → Loss clock s u k ip
prunes-Loss {clock} {s} {u} cs k ip monotone e was gone =
    let (d, held, named, stale) = prunes-stale clock s.table u.table cs k ip monotone e was gone in
    expired d held named stale

same-Loss :
    {clock : Clock} {s u : System} (k ip : Str)
    → u.table.addresses ≡ s.table.addresses
    → member ip (ips_at s.table k) ≡ true
    → member ip (ips_at u.table k) ≡ false
    → Loss clock s u k ip
same-Loss {s} {u} k ip e was gone =
    absurd (false≢true (sym gone ∙ ap (member ip) (same-ips s.table u.table k e) ∙ was))

pub add-keeps :
    (clock : Clock) (t : AddressTable) (hostnames : List Str) (a k ip : Str)
    → member ip (ips_at t k) ≡ true
    → member ip (ips_at (add clock t hostnames a) k) ≡ true
add-keeps clock t hostnames a k ip was =
    rw (add-ips clock t hostnames a k) (ground (arith, member-insert_ip a ip (ips_at t k)))

-- An address that a `Remove` takes is the one it is about, and the host is named.
pub remove-lost :
    (t : AddressTable) (hostnames : List Str) (a k ip : Str)
    → IsValid t
    → member ip (ips_at t k) ≡ true
    → member ip (ips_at (remove t hostnames a) k) ≡ false
    → (member k (map fqdn hostnames) ≡ true) × (a ≡ ip)
remove-lost t hostnames a k ip h was gone =
    let after = remove-ips t hostnames a k (h.no_repeats k) in
    elim (Bool-cases (member k (map fqdn hostnames))) [
      | inl named ↦ elim (Bool-cases (str_eq a ip)) [
        | inl same ↦ (named, (str_eq_iff a ip).0 same)
        | inr other ↦ absurd (
            false≢true (
              sym gone
              ∙ ap (member ip) (after ∙ (rw named))
              ∙ member-erase_ip_ne a ip _ other
              ∙ was))
      ]
      | inr unnamed ↦ absurd (false≢true (sym gone ∙ ap (member ip) (after ∙ (rw unnamed)) ∙ was))
    ]

calls-Loss :
    {clock : Clock} {s u : System} (c : Call) (k ip : Str)
    → IsValid s.table
    → u.table ≡ apply clock s.table c
    → member ip (ips_at s.table k) ≡ true
    → member ip (ips_at u.table k) ≡ false
    → Loss clock s u k ip
unfolding apply set_warm pause_pruning resume_pruning shutdown
calls-Loss {clock} {s} {u} (adds hostnames a) k ip h e was gone = absurd (
    false≢true (
      sym gone ∙ ap (λ t. member ip (ips_at t k)) e ∙ add-keeps clock s.table hostnames a k ip was))
calls-Loss {clock} {s} {u} (removes hostnames a) k ip h e was gone =
    let after = sym (ap (λ t. member ip (ips_at t k)) e) ∙ gone in
    let (named, same) = remove-lost s.table hostnames a k ip h was after in
    removed hostnames named (e ∙ ap (remove s.table hostnames) same)
calls-Loss {s} {u} warms k ip h e was gone = same-Loss k ip (ap (λ t. t.addresses) e) was gone
calls-Loss {s} {u} pauses k ip h e was gone = same-Loss k ip (ap (λ t. t.addresses) e) was gone
calls-Loss {s} {u} resumes k ip h e was gone = same-Loss k ip (ap (λ t. t.addresses) e) was gone
calls-Loss {s} {u} shuts_down k ip h e was gone = same-Loss k ip (ap (λ t. t.addresses) e) was gone

-- With a clock that does not run backwards, and from a valid table: if a step of the system takes an
-- address from a name, then either the step is a `Remove` of that address which names the host, or the
-- address had an entry that is stale by the clock as it stands after the step.
pub Step-Loss :
    {clock : Clock} {s u : System} (k ip : Str)
    → IsMonotone clock
    → IsValid s.table
    → Step clock s u
    → member ip (ips_at s.table k) ≡ true
    → member ip (ips_at u.table k) ≡ false
    → Loss clock s u k ip
unfolding addresses_with_stale_entries
Step-Loss k ip monotone h (calls c e) was gone =
    calls-Loss c k ip h (ap (λ (x : System). x.table) e) was gone
Step-Loss {clock} {s} k ip monotone h (skips w r m e) was gone =
    same-Loss k ip (ap (λ (x : System). x.table.addresses) e ∙ may_prune-addresses clock s.table)
      was gone
Step-Loss {clock} {s} k ip monotone h (starts w r m e) was gone =
    same-Loss k ip (ap (λ (x : System). x.table.addresses) e ∙ may_prune-addresses clock s.table)
      was gone
Step-Loss k ip monotone h (collects w e) was gone =
    same-Loss k ip (ap (λ (x : System). x.table.addresses) e) was gone
Step-Loss k ip monotone h (prunes cs w e) was gone =
    prunes-Loss cs k ip monotone (ap (λ (x : System). x.table) e) was gone
