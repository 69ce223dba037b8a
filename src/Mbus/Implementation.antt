-- ===== src/Mbus/Implementation.antt =====
-- The address table implements the interface of the subscriber.
use cf_app_sd_release.AddressTable.Addresses.{erase_ip, insert_ip, member}
use cf_app_sd_release.AddressTable.Hostname.{fqdn}
use cf_app_sd_release.AddressTable.Lookups.{add-ips, remove-ips}
use cf_app_sd_release.AddressTable.Table.{
  AddressTable, add, lookup_ips, pause_pruning, remove, resume_pruning, set_warm,
}
use cf_app_sd_release.AddressTable.Validity.{IsValid, add-IsValid, remove-IsValid}
use cf_app_sd_release.Base.{Clock, List, Str, false, if◌then◌else◌, map, refl, true, ◌≡◌}
use cf_app_sd_release.Mbus.Table.{TableOps}

pub table_lookup-add :
    (clock : Clock) (t : AddressTable) (hosts : List Str) (ip h : Str)
    → lookup_ips (add clock t hosts ip) h
      ≡ (if member (fqdn h) (map fqdn hosts) then insert_ip ip (lookup_ips t h) else lookup_ips t h)
unfolding lookup_ips
table_lookup-add clock t hosts ip h = add-ips clock t hosts ip (fqdn h)

pub table_lookup-remove :
    (t : AddressTable) (hosts : List Str) (ip h : Str)
    → IsValid t
    → lookup_ips (remove t hosts ip) h
      ≡ (if member (fqdn h) (map fqdn hosts) then erase_ip ip (lookup_ips t h) else lookup_ips t h)
unfolding lookup_ips
table_lookup-remove t hosts ip h v = remove-ips t hosts ip (fqdn h) (v.no_repeats (fqdn h))

pub paused : (t : AddressTable) → (pause_pruning t).paused_pruning ≡ true
unfolding pause_pruning
paused t = refl

pub resumed : (clock : Clock) (t : AddressTable) → (resume_pruning clock t).paused_pruning ≡ false
unfolding resume_pruning
resumed clock t = refl

abbrev pub table_ops : Clock → TableOps
table_ops clock = record {
  Table = AddressTable;
  add = add clock;
  remove = remove;
  pause_pruning = pause_pruning;
  resume_pruning = resume_pruning clock;
  set_warm = set_warm;
  lookup_ips = lookup_ips;
  is_paused = λ t. t.paused_pruning;
  IsSound = IsValid;
  add-sound = add-IsValid clock;
  remove-sound = remove-IsValid;
  lookup-add = table_lookup-add clock;
  lookup-remove = table_lookup-remove;
  is_paused-pause = paused;
  is_paused-resume = resumed clock;
}
