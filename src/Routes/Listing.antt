-- ===== src/Routes/Listing.antt =====
-- What the controller answers to a request for all routes.
use cf_app_sd_release.AddressTable.Entries.{Entry, entries_to_ips}
use cf_app_sd_release.AddressTable.Hostname.{fqdn, fqdn_of_is_fqdn}
use cf_app_sd_release.AddressTable.Table.{
  AddressTable, all_addresses, entries_for_hostname, get_all_addresses, lookup_ips,
}
use cf_app_sd_release.AddressTable.Validity.{IsValid}
use cf_app_sd_release.Base.{
  All, Any, GoMap, IsMap, List, Option, Option-cases, Str, [], arith, false, inl, inr, lookup, none,
  refl, some, str_eq_iff, str_eq_refl, ◌∷◌, ◌≡◌, ◌⊎◌,
}
use cf_app_sd_release.Routes.MetricsRecorder.{MetricsRecorder}
use cf_app_sd_release.Routes.Server.{Address, addresses_of, handle_routes_request, ok_status}

lists_all :
    (m : GoMap (List Entry)) (k : Str) (es : List Entry)
    → lookup k m ≡ some es
    → Any (λ a. (a.hostname ≡ k) × (a.ips ≡ entries_to_ips es)) (addresses_of (all_addresses m))
unfolding lookup all_addresses addresses_of
lists_all [] k es h = cc
lists_all ((j, fs) ∷ m) k es h = ground (arith, lists_all m k es, str_eq_iff j k)

later :
    (j k : Str) (fs es : List Entry) (m : GoMap (List Entry))
    → lookup j m ≡ none
    → lookup k m ≡ some es
    → lookup k ((j, fs) ∷ m) ≡ some es
unfolding lookup
later j k fs es m absent found = ground (arith, str_eq_iff j k)

lists_only :
    (t : AddressTable) (m : GoMap (List Entry))
    → IsMap m
    → ((k : Str) (es : List Entry) → lookup k m ≡ some es → lookup_ips t k ≡ entries_to_ips es)
    → All (λ a. lookup_ips t a.hostname ≡ a.ips) (addresses_of (all_addresses m))
unfolding all_addresses addresses_of lookup
lists_only t [] h in_table = tt
lists_only t ((j, fs) ∷ m) h in_table = (
  in_table j fs (ground (arith, str_eq_refl j)),
  lists_only t m (h.1) (λ k es e. in_table k es (later j k fs es m (h.0) e)),
)

found_ips :
    (t : AddressTable) (k : Str) (es : List Entry)
    → IsValid t
    → lookup k t.addresses ≡ some es
    → lookup_ips t k ≡ entries_to_ips es
unfolding lookup_ips entries_for_hostname
found_ips t k es h e =
    let q = fqdn_of_is_fqdn k (h.qualified k es e) in rw (q, e, entries_for_hostname) refl

missing_ips :
    (t : AddressTable) (k : Str) → lookup (fqdn k) t.addresses ≡ none → lookup_ips t k ≡ []
unfolding lookup_ips entries_for_hostname entries_to_ips
missing_ips t k e = rw (e, entries_for_hostname) refl

present_ips :
    (t : AddressTable) (k : Str) (es : List Entry)
    → lookup (fqdn k) t.addresses ≡ some es
    → lookup_ips t k ≡ entries_to_ips es
unfolding lookup_ips entries_for_hostname
present_ips t k es e = rw (e, entries_for_hostname) refl

-- When encoding and writing succeed and the table is valid, the answer to a request for all routes has
-- status 200, whether the table is warm or not, and is the encoding of a list of hosts in which every host
-- stands with the addresses that `Lookup` returns for it, and in which every name with addresses stands in
-- its qualified form. The request is not counted.
pub handle_routes_request-lookup_ips :
    (marshal : List Address → Option Str) (encode : List Address → Str) (error_text : Str)
    (t : AddressTable) (recorder : MetricsRecorder) (k : Str)
    → ((l : List Address) → marshal l ≡ some (encode l))
    → IsValid t
    → (l : List Address) × (handle_routes_request marshal error_text false t recorder
        ≡ record { status = ok_status; body = encode l; recorder = recorder })
      × All (λ a. lookup_ips t a.hostname ≡ a.ips) l
      × ((lookup_ips t k ≡ []) ⊎ Any (λ a. (a.hostname ≡ fqdn k) × (a.ips ≡ lookup_ips t k)) l)
unfolding handle_routes_request get_all_addresses
handle_routes_request-lookup_ips marshal encode error_text t recorder k enc h =
    let l = addresses_of (get_all_addresses t) in
    (
      l,
      rw (handle_routes_request, enc l) refl,
      lists_only t t.addresses h.distinct_keys (λ j es e. found_ips t j es h e),
      elim (Option-cases (lookup (fqdn k) t.addresses)) [
        | inl absent ↦ inl (missing_ips t k absent)
        | inr (es, found) ↦
            inr (rw (present_ips t k es found) (lists_all t.addresses (fqdn k) es found))
      ],
    )
