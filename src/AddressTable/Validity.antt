-- ===== src/AddressTable/Validity.antt =====
-- The invariant of the address table, and that the exported operations keep it.
use cf_app_sd_release.AddressTable.Addresses.{
  Distinct, erase_ip-Distinct, index_of-member, insert_ip, insert_ip-Distinct, ips-append,
  ips-remove_at, ips-set_update_time,
}
use cf_app_sd_release.AddressTable.Calls.{
  Call, adds, apply, pauses, removes, resumes, shuts_down, warms,
}
use cf_app_sd_release.AddressTable.Entries.{Entry, entries_to_ips, index_of}
use cf_app_sd_release.AddressTable.Hostname.{fqdn, is_fqdn, is_fqdn-fqdn}
use cf_app_sd_release.AddressTable.Lookups.{ips_at, ips_at-delete, ips_at-insert}
use cf_app_sd_release.AddressTable.Table.{
  AddressTable, add, add_host, entries_for_hostname, new_address_table, pause_pruning, remove,
  remove_host, resume_pruning, set_warm, shutdown,
}
use cf_app_sd_release.Base.{
  Bool, Bool-cases, Clock, IsMap, List, Option-cases, Str, [], arith, delete, delete-IsMap, false,
  if◌then◌else◌, inl, inr, insert, insert-IsMap, length, lookup, lookup-delete, lookup-insert, refl,
  some, str_eq, str_eq_iff, true, ℤ, ◌==◌, ◌∷◌, ◌≡◌,
}

-- Map keys are unique and fully qualified, and no host has an address twice.
pub record IsValid (t : AddressTable) : Type 0 where
  pub distinct_keys : IsMap t.addresses
  pub qualified : (k : Str) (es : List Entry) → lookup k t.addresses ≡ some es → is_fqdn k ≡ true
  pub no_repeats : (k : Str) → Distinct (ips_at t k)

pub new_address_table-IsValid : (a b c : ℤ) → IsValid (new_address_table a b c)
unfolding new_address_table lookup entries_for_hostname entries_to_ips
new_address_table-IsValid a b c = record {
  distinct_keys = tt;
  qualified = λ k es e. cc;
  no_repeats = λ k. tt;
}

if-Distinct :
    (b : Bool) (l l' : List Str) → Distinct l → Distinct l' → Distinct (if b then l else l')
if-Distinct true l l' d d' = d
if-Distinct false l l' d d' = d'

-- Fields other than the addresses play no part.
pub same-IsValid : (t t' : AddressTable) → t'.addresses ≡ t.addresses → IsValid t → IsValid t'
unfolding entries_for_hostname
same-IsValid t t' e h = record {
  distinct_keys = rw e h.distinct_keys;
  qualified = λ k es p. h.qualified k es (ground arith);
  no_repeats = λ k. rw (e, entries_for_hostname) (h.no_repeats k);
}

-- Entries with distinct addresses may be written under a qualified name.
pub insert-IsValid :
    (t t' : AddressTable) (k : Str) (es : List Entry)
    → t'.addresses ≡ insert k es t.addresses
    → is_fqdn k ≡ true
    → Distinct (entries_to_ips es)
    → IsValid t
    → IsValid t'
insert-IsValid t t' k es e q d h = record {
  distinct_keys = rw e (insert-IsMap k es t.addresses h.distinct_keys);
  qualified =
      λ j fs p. ground (arith, lookup-insert k j es t.addresses, str_eq_iff k j, h.qualified j fs);
  no_repeats = λ j. rw (ips_at-insert t t' k j es _ e refl) (if-Distinct _ _ _ d (h.no_repeats j));
}

delete-IsValid :
    (t t' : AddressTable) (k : Str) → t'.addresses ≡ delete k t.addresses → IsValid t → IsValid t'
delete-IsValid t t' k e h = record {
  distinct_keys = rw e (delete-IsMap k t.addresses h.distinct_keys);
  qualified = λ j fs p. ground (arith, lookup-delete k j t.addresses, h.qualified j fs);
  no_repeats =
      λ j. rw (ips_at-delete t t' k j e) (if-Distinct (str_eq k j) [] _ tt (h.no_repeats j));
}

add_host-IsValid :
    (clock : Clock) (ip : Str) (t : AddressTable) (hostname : Str)
    → IsValid t
    → IsValid (add_host clock ip t hostname)
unfolding add_host insert_ip
add_host-IsValid clock ip t hostname h =
    let fq = fqdn hostname in
    let es = entries_for_hostname t fq in
    let d = insert_ip-Distinct ip (entries_to_ips es) (h.no_repeats fq) in
    elim (index_of-member es ip) [
      | inl (missing, fresh) ↦
          rw (missing, add_host)
            (insert-IsValid t _ fq _ refl (is_fqdn-fqdn hostname)
              (rw (ips-append es _) (rw (fresh, insert_ip) at d)) h)
      | inr (i, found, old, _) ↦
          rw (found, add_host)
            (insert-IsValid t _ fq _ refl (is_fqdn-fqdn hostname)
              (rw (ips-set_update_time es i _) (h.no_repeats fq)) h)
    ]

remove_host-IsValid :
    (ip : Str) (t : AddressTable) (hostname : Str) → IsValid t → IsValid (remove_host ip t hostname)
unfolding remove_host
remove_host-IsValid ip t hostname h =
    let fq = fqdn hostname in
    let es = entries_for_hostname t fq in
    elim (Option-cases (index_of es ip)) [
      | inl missing ↦ rw (missing, remove_host) h
      | inr (i, found) ↦ elim (Bool-cases (length es == 1)) [
        | inl one ↦ rw (found, one, remove_host) (delete-IsValid t _ fq refl h)
        | inr more ↦
            rw (found, more, remove_host)
              (insert-IsValid t _ fq _ refl (is_fqdn-fqdn hostname)
                (rw (ips-remove_at es ip i found) (erase_ip-Distinct ip _ (h.no_repeats fq))) h)
      ]
    ]

pub add-IsValid :
    (clock : Clock) (t : AddressTable) (hostnames : List Str) (ip : Str)
    → IsValid t
    → IsValid (add clock t hostnames ip)
unfolding add
add-IsValid clock t [] ip h = h
add-IsValid clock t (hostname ∷ hostnames) ip h =
    add-IsValid clock (add_host clock ip t hostname) hostnames ip
      (add_host-IsValid clock ip t hostname h)

pub remove-IsValid :
    (t : AddressTable) (hostnames : List Str) (ip : Str)
    → IsValid t
    → IsValid (remove t hostnames ip)
unfolding remove
remove-IsValid t [] ip h = h
remove-IsValid t (hostname ∷ hostnames) ip h =
    remove-IsValid (remove_host ip t hostname) hostnames ip (remove_host-IsValid ip t hostname h)

pub apply-IsValid :
    (clock : Clock) (t : AddressTable) (c : Call) → IsValid t → IsValid (apply clock t c)
unfolding apply set_warm pause_pruning resume_pruning shutdown
apply-IsValid clock t (adds hostnames ip) h = add-IsValid clock t hostnames ip h
apply-IsValid clock t (removes hostnames ip) h = remove-IsValid t hostnames ip h
apply-IsValid clock t warms h = same-IsValid t _ refl h
apply-IsValid clock t pauses h = same-IsValid t _ refl h
apply-IsValid clock t resumes h = same-IsValid t _ refl h
apply-IsValid clock t shuts_down h = same-IsValid t _ refl h
