-- ===== src/AddressTable/Table.antt =====
-- `AddressTable` and its operations, but for pruning. The methods hold the mutex throughout, so each
-- is one step. `clock` is the table's clock, and `reads` counts the readings made so far.
use cf_app_sd_release.Base.{
  ℕ, suc, Bool, true, false, none, some, List, [], ◌∷◌, ◌++◌, ◌==◌, if◌then◌else◌, Str, length,
  GoMap, lookup, insert, delete, ℤ, Clock,
}
use cf_app_sd_release.AddressTable.Hostname.{fqdn}
use cf_app_sd_release.AddressTable.Entries.{
  Entry, index_of, entries_to_ips, set_update_time, remove_at,
}

pub record AddressTable : Type 0 where
  pub addresses : GoMap (List Entry)
  pub reads : ℕ
  pub staleness_threshold : ℤ
  pub pruning_interval : ℤ
  pub ticker_stopped : Bool
  pub paused_pruning : Bool
  pub last_resume : ℕ
  pub resume_pruning_delay : ℤ
  pub warm : Bool

unfoldable pub new_address_table : ℤ → ℤ → ℤ → AddressTable
new_address_table staleness_threshold pruning_interval resume_pruning_delay = record {
  addresses = [];
  reads = 0;
  staleness_threshold = staleness_threshold;
  pruning_interval = pruning_interval;
  ticker_stopped = false;
  paused_pruning = false;
  last_resume = 0;
  resume_pruning_delay = resume_pruning_delay;
  warm = false;
}

unfoldable pub entries_for_hostname : AddressTable → Str → List Entry
entries_for_hostname t hostname = elim (lookup hostname t.addresses) [
  | some existing ↦ existing
  | none ↦ []
]

-- One round of the loop of `Add`.
unfoldable pub add_host : Clock → Str → AddressTable → Str → AddressTable
add_host clock ip t hostname =
    let fq_hostname = fqdn hostname in
    let entries = entries_for_hostname t fq_hostname in
    let now = clock t.reads in
    elim (index_of entries ip) [
      | none ↦ record t {
        addresses =
            insert fq_hostname (entries ++ record { ip = ip; update_time = now } ∷ []) t.addresses;
        reads = suc t.reads;
      }
      | some entry_index ↦ record t {
        addresses = insert fq_hostname (set_update_time entries entry_index now) t.addresses;
        reads = suc t.reads;
      }
    ]

unfoldable pub add : Clock → AddressTable → List Str → Str → AddressTable
add clock t [] ip = t
add clock t (hostname ∷ hostnames) ip = add clock (add_host clock ip t hostname) hostnames ip

-- One round of the loop of `Remove`.
unfoldable pub remove_host : Str → AddressTable → Str → AddressTable
remove_host ip t hostname =
    let fq_hostname = fqdn hostname in
    let entries = entries_for_hostname t fq_hostname in
    elim (index_of entries ip) [
      | none ↦ t
      | some index ↦
          if length entries == 1
          then record t { addresses = delete fq_hostname t.addresses }
          else record t { addresses = insert fq_hostname (remove_at entries index) t.addresses }
    ]

unfoldable pub remove : AddressTable → List Str → Str → AddressTable
remove t [] ip = t
remove t (hostname ∷ hostnames) ip = remove (remove_host ip t hostname) hostnames ip

unfoldable pub lookup_ips : AddressTable → Str → List Str
lookup_ips t hostname = entries_to_ips (entries_for_hostname t (fqdn hostname))

unfoldable pub all_addresses : GoMap (List Entry) → GoMap (List Str)
all_addresses [] = []
all_addresses ((address, entries) ∷ m) = (address, entries_to_ips entries) ∷ all_addresses m

unfoldable pub get_all_addresses : AddressTable → GoMap (List Str)
unfolding all_addresses
get_all_addresses t = all_addresses t.addresses

unfoldable pub set_warm : AddressTable → AddressTable
set_warm t = record t { warm = true }

unfoldable pub is_warm : AddressTable → Bool
is_warm t = t.warm

unfoldable pub shutdown : AddressTable → AddressTable
shutdown t = record t { ticker_stopped = true }

unfoldable pub pause_pruning : AddressTable → AddressTable
pause_pruning t = record t { paused_pruning = true }

unfoldable pub resume_pruning : Clock → AddressTable → AddressTable
resume_pruning clock t = record t {
  last_resume = clock t.reads;
  paused_pruning = false;
  reads = suc t.reads;
}
