-- ===== src/Routes/Serving.antt =====
-- What the controller answers.
use mathlib.Core.Option
use cf_app_sd_release.Adapter.Client.{ips}
use cf_app_sd_release.AddressTable.Addresses.{insert_ip, member}
use cf_app_sd_release.AddressTable.Entries.{Entry, entries_to_ips}
use cf_app_sd_release.AddressTable.Hostname.{fqdn, fqdn_of_is_fqdn}
use cf_app_sd_release.AddressTable.Table.{
  AddressTable, add, add_host, all_addresses, entries_for_hostname, get_all_addresses, is_warm,
  lookup_ips,
}
use cf_app_sd_release.AddressTable.Validity.{IsValid}
use cf_app_sd_release.Base.{
  Bool, Clock, GoMap, List, Option, Option-cases, Str, [], ap, arith, bytes, false, if◌then◌else◌,
  inl, inr, lookup, map, none, refl, some, true, ◌++◌, ◌+◌, ◌==◌, ◌↔◌, ◌∙◌, ◌∷◌, ◌≡◌, ◌≢◌,
}
use cf_app_sd_release.Mbus.Implementation.{table_lookup-add}
use cf_app_sd_release.Routes.MetricsRecorder.{MetricsRecorder, record_request}
use cf_app_sd_release.Routes.Paths.{NoSlash, base-append}
use cf_app_sd_release.Routes.Server.{
  Registration, base, handle_registration_request, host_of, ok_status, write_registration,
}

-- The registration with one host for each address.
abbrev pub registration_of : List Str → Registration
registration_of ips = record { hosts = map host_of ips; env = []; service = [] }

-- The answer to a registration request has status 200 exactly if the table is warm and the answer can
-- be encoded, and the request is counted exactly then.
pub handle_registration_request-status :
    (marshal : Registration → Option Str) (error_text : Str) (write_fails : Bool) (t : AddressTable)
    (recorder : MetricsRecorder) (url_path : Str)
    → let r = handle_registration_request marshal error_text write_fails t recorder url_path in
      ((r.status ≡ ok_status)
        ↔ ((t.warm ≡ true) × (marshal (registration_of (lookup_ips t (base url_path))) ≢ none)))
      × (r.recorder.request_count
          ≡ (if r.status == ok_status then recorder.request_count + 1 else recorder.request_count))
unfolding handle_registration_request write_registration is_warm record_request
handle_registration_request-status marshal error_text write_fails t recorder url_path =
    ((λ h. ground arith, λ h. ground arith), ground arith)

served :
    (marshal : Registration → Option Str) (encode : Registration → Str) (error_text : Str)
    (u : AddressTable) (recorder : MetricsRecorder) (url_path : Str) (l : List Str)
    → ((r : Registration) → marshal r ≡ some (encode r))
    → u.warm ≡ true
    → lookup_ips u (base url_path) ≡ l
    → handle_registration_request marshal error_text false u recorder url_path ≡ record {
      status = ok_status;
      body = encode (registration_of l);
      recorder = record_request recorder;
    }
unfolding handle_registration_request write_registration is_warm
served marshal encode error_text u recorder url_path l enc warm e =
    ground (arith, enc (registration_of (lookup_ips u (base url_path))))

pub add-warm :
    (clock : Clock) (t : AddressTable) (hostnames : List Str) (ip : Str)
    → (add clock t hostnames ip).warm ≡ t.warm
unfolding add add_host
add-warm clock t [] ip = refl
add-warm clock t (h ∷ hs) ip = ground (arith, add-warm clock (add_host clock ip t h) hs ip)

-- From the message bus to the HTTP answer: after a register message with the address `ip` for hosts
-- among which is `name`, a request for `/v1/registration/name` to a warm table is answered by the
-- encoding of the hosts that were registered for `name`, with `ip` last unless it was there. The name
-- is not empty and has no slash, and encoding and writing succeed.
pub register-handle_registration_request :
    (marshal : Registration → Option Str) (encode : Registration → Str) (error_text : Str)
    (clock : Clock) (t : AddressTable) (recorder : MetricsRecorder) (names : List Str)
    (ip name : Str)
    → ((r : Registration) → marshal r ≡ some (encode r))
    → t.warm ≡ true
    → name ≢ []
    → NoSlash name
    → member (fqdn name) (map fqdn names) ≡ true
    → handle_registration_request marshal error_text false
        (add clock t names ip)
        recorder
        (bytes "/v1/registration" ++ b'/' ∷ name)
      ≡ record {
        status = ok_status;
        body = encode (registration_of (insert_ip ip (lookup_ips t name)));
        recorder = record_request recorder;
      }
register-handle_registration_request marshal encode error_text clock t recorder names ip name enc
      warm ne ns named =
    let u = add clock t names ip in
    let path = base-append (bytes "/v1/registration") name ne ns in
    let kept = (rw named at (table_lookup-add clock t names ip name)) in
    served marshal encode error_text u recorder (bytes "/v1/registration" ++ b'/' ∷ name) _ enc
      (add-warm clock t names ip ∙ warm) (ap (lookup_ips u) path ∙ kept)

lookup-all_addresses :
    (m : GoMap (List Entry)) (k : Str)
    → lookup k (all_addresses m) ≡ Option.map entries_to_ips (lookup k m)
unfolding lookup all_addresses
lookup-all_addresses [] k = refl
lookup-all_addresses ((j, es) ∷ m) k = ground (arith, lookup-all_addresses m k)

-- `GetAllAddresses` and `Lookup` agree: under each key of a valid table the former has the list that
-- the latter returns for that name.
get_all_addresses-lookup_ips :
    (t : AddressTable) (k : Str) (l : List Str)
    → IsValid t
    → lookup k (get_all_addresses t) ≡ some l
    → lookup_ips t k ≡ l
unfolding get_all_addresses lookup_ips entries_for_hostname
get_all_addresses-lookup_ips t k l h e = elim (Option-cases (lookup k t.addresses)) [
  | inl absent ↦ absurd (ground (arith, lookup-all_addresses t.addresses k))
  | inr (es, found) ↦
      let q = fqdn_of_is_fqdn k (h.qualified k es found) in
      rw (q, found, entries_for_hostname) (ground (arith, lookup-all_addresses t.addresses k))
]
