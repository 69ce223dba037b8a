-- ===== src/AddressTable/Calls.antt =====
-- The exported operations that change the table, as data, and runs of them.
use cf_app_sd_release.AddressTable.Addresses.{erase_ip, insert_ip, member}
use cf_app_sd_release.AddressTable.Hostname.{fqdn}
use cf_app_sd_release.AddressTable.Table.{
  AddressTable, add, pause_pruning, remove, resume_pruning, set_warm, shutdown,
}
use cf_app_sd_release.Base.{Clock, List, Str, [], if◌then◌else◌, map, ◌∷◌}

pub data Call : Type 0 where
  adds : List Str → Str → Call
  removes : List Str → Str → Call
  warms : Call
  pauses : Call
  resumes : Call
  shuts_down : Call

unfoldable pub apply : Clock → AddressTable → Call → AddressTable
apply clock t (adds hostnames ip) = add clock t hostnames ip
apply clock t (removes hostnames ip) = remove t hostnames ip
apply clock t warms = set_warm t
apply clock t pauses = pause_pruning t
apply clock t resumes = resume_pruning clock t
apply clock t shuts_down = shutdown t

unfoldable pub run : Clock → AddressTable → List Call → AddressTable
run clock t [] = t
run clock t (c ∷ cs) = run clock (apply clock t c) cs

-- The abstract table: for each fully qualified name a list of addresses without repetitions.
abbrev pub View : Type 0
View = Str → List Str

unfoldable pub view_apply : View → Call → View
view_apply v (adds hostnames ip) k =
    if member k (map fqdn hostnames) then insert_ip ip (v k) else v k
view_apply v (removes hostnames ip) k =
    if member k (map fqdn hostnames) then erase_ip ip (v k) else v k
view_apply v warms k = v k
view_apply v pauses k = v k
view_apply v resumes k = v k
view_apply v shuts_down k = v k

unfoldable pub view_run : View → List Call → View
view_run v [] = v
view_run v (c ∷ cs) = view_run (view_apply v c) cs
