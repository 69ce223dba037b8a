-- ===== src/AddressTable/History.antt =====
-- The table implements the abstract one over every history of calls without a tick.
use mathlib.Core.Path.{fun_ext}
use cf_app_sd_release.AddressTable.Calls.{
  Call, adds, apply, pauses, removes, resumes, run, shuts_down, view_apply, view_run, warms,
}
use cf_app_sd_release.AddressTable.Hostname.{fqdn}
use cf_app_sd_release.AddressTable.Lookups.{add-ips, ips_at, remove-ips}
use cf_app_sd_release.AddressTable.Table.{
  AddressTable, entries_for_hostname, lookup_ips, pause_pruning, resume_pruning, set_warm, shutdown,
}
use cf_app_sd_release.AddressTable.Validity.{IsValid, apply-IsValid}
use cf_app_sd_release.Base.{Clock, List, Str, [], ap, refl, ◌∙◌, ◌∷◌, ◌≡◌}

pub apply-ips :
    (clock : Clock) (t : AddressTable) (c : Call) (k : Str)
    → IsValid t
    → ips_at (apply clock t c) k ≡ view_apply (ips_at t) c k
unfolding apply view_apply set_warm pause_pruning resume_pruning shutdown entries_for_hostname
apply-ips clock t (adds hostnames ip) k h = add-ips clock t hostnames ip k
apply-ips clock t (removes hostnames ip) k h = remove-ips t hostnames ip k (h.no_repeats k)
apply-ips clock t warms k h = refl
apply-ips clock t pauses k h = refl
apply-ips clock t resumes k h = refl
apply-ips clock t shuts_down k h = refl

run-ips :
    (clock : Clock) (t : AddressTable) (cs : List Call) (k : Str)
    → IsValid t
    → ips_at (run clock t cs) k ≡ view_run (ips_at t) cs k
unfolding run view_run
run-ips clock t [] k h = refl
run-ips clock t (c ∷ cs) k h =
    run-ips clock (apply clock t c) cs k (apply-IsValid clock t c h)
    ∙ ap (λ v. view_run v cs k) (fun_ext (λ j. apply-ips clock t c j h))

-- In a valid table, after any list of calls, `Lookup` of a name returns what the abstract table holds
-- for its qualified form: each `Add` that names the host appends the address unless it is there, each
-- `Remove` that names it takes the address out, and nothing else changes the list or its order.
pub lookup_ips-run :
    (clock : Clock) (t : AddressTable) (cs : List Call) (hostname : Str)
    → IsValid t
    → lookup_ips (run clock t cs) hostname ≡ view_run (ips_at t) cs (fqdn hostname)
unfolding lookup_ips
lookup_ips-run clock t cs hostname h = run-ips clock t cs (fqdn hostname) h
