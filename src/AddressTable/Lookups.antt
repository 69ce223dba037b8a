-- ===== src/AddressTable/Lookups.antt =====
-- What `Lookup` returns after `Add` and `Remove`.
use cf_app_sd_release.AddressTable.Addresses.{
  Distinct, erase_ip, erase_ip-Distinct, erase_ip-absent, index_of-member, insert_ip, ips-append,
  ips-remove_at, ips-set_update_time, member, member-append, member-erase_ip_self, member-insert_ip,
}
use cf_app_sd_release.AddressTable.Entries.{Entry, entries_to_ips, index_of}
use cf_app_sd_release.AddressTable.Hostname.{fqdn}
use cf_app_sd_release.AddressTable.Table.{
  AddressTable, add, add_host, entries_for_hostname, remove, remove_host,
}
use cf_app_sd_release.Base.{
  ==_iff, Bool-cases, Clock, List, Str, [], arith, delete, if◌then◌else◌, inl, inr, insert, length,
  lookup-delete, lookup-insert, map, refl, some, str_eq, str_eq_iff, ℕ, ◌==◌, ◌∷◌, ◌≡◌,
}

-- The addresses under a key of the map.
abbrev pub ips_at : AddressTable → Str → List Str
ips_at t k = entries_to_ips (entries_for_hostname t k)

entries_for_hostname-insert :
    (t t' : AddressTable) (k j : Str) (es : List Entry)
    → t'.addresses ≡ insert k es t.addresses
    → entries_for_hostname t' j ≡ (if str_eq k j then es else entries_for_hostname t j)
unfolding entries_for_hostname
entries_for_hostname-insert t t' k j es e = ground (arith, lookup-insert k j es t.addresses)

entries_for_hostname-delete :
    (t t' : AddressTable) (k j : Str)
    → t'.addresses ≡ delete k t.addresses
    → entries_for_hostname t' j ≡ (if str_eq k j then [] else entries_for_hostname t j)
unfolding entries_for_hostname
entries_for_hostname-delete t t' k j e = ground (arith, lookup-delete k j t.addresses)

-- Writing entries whose addresses are `l` under a key changes the view there alone.
pub ips_at-insert :
    (t t' : AddressTable) (k j : Str) (es : List Entry) (l : List Str)
    → t'.addresses ≡ insert k es t.addresses
    → entries_to_ips es ≡ l
    → ips_at t' j ≡ (if str_eq k j then l else ips_at t j)
ips_at-insert t t' k j es l e h = ground (arith, entries_for_hostname-insert t t' k j es e)

pub ips_at-delete :
    (t t' : AddressTable) (k j : Str)
    → t'.addresses ≡ delete k t.addresses
    → ips_at t' j ≡ (if str_eq k j then [] else ips_at t j)
unfolding entries_to_ips
ips_at-delete t t' k j e = ground (arith, entries_for_hostname-delete t t' k j e)

add_host-ips :
    (clock : Clock) (ip : Str) (t : AddressTable) (hostname k : Str)
    → ips_at (add_host clock ip t hostname) k
      ≡ (if str_eq (fqdn hostname) k then insert_ip ip (ips_at t (fqdn hostname)) else ips_at t k)
unfolding add_host insert_ip
add_host-ips clock ip t hostname k =
    let es = entries_for_hostname t (fqdn hostname) in
    elim (index_of-member es ip) [
      | inl (missing, fresh) ↦
          rw (missing, fresh, add_host)
            (ips_at-insert t _ (fqdn hostname) k _ _ refl (ips-append es _))
      | inr (i, found, old, _) ↦
          rw (found, old, add_host)
            (ips_at-insert t _ (fqdn hostname) k _ _ refl (ips-set_update_time es i _))
    ]

erase_ip-last :
    (es : List Entry) (a : Str) (i : ℕ)
    → index_of es a ≡ some i
    → length es ≡ 1
    → erase_ip a (entries_to_ips es) ≡ []
unfolding index_of entries_to_ips erase_ip
erase_ip-last [] a i h one = cc
erase_ip-last (e ∷ []) a i h one = ground arith
erase_ip-last (e ∷ e' ∷ es) a i h one = absurd (omega arith)

remove_host-ips :
    (ip : Str) (t : AddressTable) (hostname k : Str)
    → ips_at (remove_host ip t hostname) k
      ≡ (if str_eq (fqdn hostname) k then erase_ip ip (ips_at t (fqdn hostname)) else ips_at t k)
unfolding remove_host
remove_host-ips ip t hostname k =
    let fq = fqdn hostname in
    let es = entries_for_hostname t fq in
    elim (index_of-member es ip) [
      | inl (missing, absent) ↦
          rw (missing, remove_host)
            (ground (arith, str_eq_iff fq k, erase_ip-absent ip (entries_to_ips es) absent))
      | inr (i, found, _, _) ↦ elim (Bool-cases (length es == 1)) [
        | inl one ↦
            rw (found, one, remove_host)
              (ground (
                arith,
                ips_at-delete t (record t { addresses = delete fq t.addresses }) fq k refl,
                erase_ip-last es ip i found ((==_iff _ _).0 one),
              ))
        | inr more ↦
            rw (found, more, remove_host)
              (ips_at-insert t _ fq k _ _ refl (ips-remove_at es ip i found))
      ]
    ]

insert_ip-insert_ip : (a : Str) (l : List Str) → insert_ip a (insert_ip a l) ≡ insert_ip a l
unfolding insert_ip
insert_ip-insert_ip a l =
    ground (arith, member-insert_ip a a l, str_eq_iff a a, member-append a a l)

erase_ip-erase_ip : (a : Str) (l : List Str) → Distinct l → erase_ip a (erase_ip a l) ≡ erase_ip a l
erase_ip-erase_ip a l d = erase_ip-absent a (erase_ip a l) (member-erase_ip_self a l d)

pub add-ips :
    (clock : Clock) (t : AddressTable) (hostnames : List Str) (ip k : Str)
    → ips_at (add clock t hostnames ip) k
      ≡ (if member k (map fqdn hostnames) then insert_ip ip (ips_at t k) else ips_at t k)
unfolding add member
add-ips clock t [] ip k = refl
add-ips clock t (h ∷ hs) ip k =
    rw (add-ips clock (add_host clock ip t h) hs ip k, add_host-ips clock ip t h k)
      (ground (arith, str_eq_iff (fqdn h) k, insert_ip-insert_ip ip (ips_at t k)))

pub remove-ips :
    (t : AddressTable) (hostnames : List Str) (ip k : Str)
    → Distinct (ips_at t k)
    → ips_at (remove t hostnames ip) k
      ≡ (if member k (map fqdn hostnames) then erase_ip ip (ips_at t k) else ips_at t k)
unfolding remove member
remove-ips t [] ip k d = refl
remove-ips t (h ∷ hs) ip k d = ground (
  arith,
  remove-ips (remove_host ip t h) hs ip k,
  remove_host-ips ip t h k,
  str_eq_iff (fqdn h) k,
  erase_ip-erase_ip ip (ips_at t k) d,
  erase_ip-Distinct ip (ips_at t k) d,
)
