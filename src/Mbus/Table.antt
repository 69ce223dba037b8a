-- ===== src/Mbus/Table.antt =====
-- The interface `AddressTable` of service-discovery-controller/mbus/subscriber.go, with the laws that
-- the promises of the subscriber rest on.
use cf_app_sd_release.AddressTable.Addresses.{erase_ip, insert_ip, member}
use cf_app_sd_release.AddressTable.Hostname.{fqdn}
use cf_app_sd_release.Base.{Bool, List, Str, false, if◌then◌else◌, map, true, ◌≡◌}

pub record TableOps : Type 1 where
  pub Table : Type 0
  pub add : Table → List Str → Str → Table
  pub remove : Table → List Str → Str → Table
  pub pause_pruning : Table → Table
  pub resume_pruning : Table → Table
  pub set_warm : Table → Table
  pub lookup_ips : Table → Str → List Str
  pub is_paused : Table → Bool
  pub IsSound : Table → Type 0
  pub add-sound : (t : Table) (hosts : List Str) (ip : Str) → IsSound t → IsSound (add t hosts ip)
  pub remove-sound :
      (t : Table) (hosts : List Str) (ip : Str) → IsSound t → IsSound (remove t hosts ip)
  pub lookup-add :
      (t : Table) (hosts : List Str) (ip h : Str)
      → lookup_ips (add t hosts ip) h ≡ (
          if member (fqdn h) (map fqdn hosts)
          then insert_ip ip (lookup_ips t h)
          else lookup_ips t h)
  pub lookup-remove :
      (t : Table) (hosts : List Str) (ip h : Str)
      → IsSound t
      → lookup_ips (remove t hosts ip) h ≡ (
          if member (fqdn h) (map fqdn hosts) then erase_ip ip (lookup_ips t h) else lookup_ips t h)
  pub is_paused-pause : (t : Table) → is_paused (pause_pruning t) ≡ true
  pub is_paused-resume : (t : Table) → is_paused (resume_pruning t) ≡ false
