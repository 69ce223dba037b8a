-- ===== src/EndToEnd.antt =====
-- The three programs together: from a register message at the controller to the adapter's `IPs`
-- (src/service-discovery-controller/mbus/subscriber.go, its routes/server.go, and
-- src/bosh-dns-adapter/sdcclient/service_discovery_client.go). HTTP is a parameter: `path_of` is the
-- path of a URL, and a request is answered by what the handler writes.
use cf_app_sd_release.Adapter.Answers.{ips_success}
use cf_app_sd_release.Adapter.Client.{Host, Response, ips, registration_url}
use cf_app_sd_release.Adapter.Shuffle.{count}
use cf_app_sd_release.AddressTable.Addresses.{insert_ip, member}
use cf_app_sd_release.AddressTable.Hostname.{fqdn}
use cf_app_sd_release.AddressTable.Table.{AddressTable, lookup_ips}
use cf_app_sd_release.Base.{
  Clock, List, Option, Str, [], ap, arith, bytes, false, length, map, none, refl, returns, some,
  str_eq, true, ℕ, ◌++◌, ◌<◌, ◌==◌, ◌||◌, ◌∙◌, ◌∷◌, ◌≡◌, ◌≢◌,
}
use cf_app_sd_release.Mbus.Accepting.{accepted}
use cf_app_sd_release.Mbus.Handlers.{on_register, on_register-accepted}
use cf_app_sd_release.Mbus.Implementation.{table_ops}
use cf_app_sd_release.Mbus.Subscriber.{RegistryMessage, Subscriber}
use cf_app_sd_release.Process.Counts.{counts}
use cf_app_sd_release.Routes.MetricsRecorder.{MetricsRecorder, record_request}
use cf_app_sd_release.Routes.Mux.{serve_mux}
use cf_app_sd_release.Routes.Server.{
  Response as Answered, Address, Registration, handle_registration_request, handle_routes_request,
  ok_status,
}
use cf_app_sd_release.Routes.Serving.{register-handle_registration_request, registration_of}
use cf_app_sd_release.Routes.Targets.{IsElement, serve_mux-registration}

-- The adapter's view of a handler: each request is answered.
unfoldable pub get_from : (Str → Str) → (Str → Answered) → Str → ℕ → Option Response
get_from path_of handler url n =
    let answer = handler (path_of url) in
    some (record { status_code = answer.status; body = some answer.body })

-- The hosts that the adapter reads out of a registration.
abbrev pub hosts_of : List Str → List Host
hosts_of = map (λ a. record { ip_address = a })

pub ips_of_hosts : (l : List Str) → map (λ h. h.ip_address) (hosts_of l) ≡ l
ips_of_hosts [] = refl
ips_of_hosts (a ∷ l) = ap (◌∷◌ a) (ips_of_hosts l)

module _ (clock : Clock) (decoder : Str → Option RegistryMessage)
    (marshal : Registration → Option Str) (encode : Registration → Str)
    (unmarshal : Str → Option (Option (List Host))) (path_of : Str → Str) (intn : ℕ → ℕ)
    (marshal_addresses : List Address → Option Str) (moved : Str → Str) where
  -- The controller's server after a message on `service-discovery.register`.
  abbrev handler_after : Subscriber AddressTable → Str → MetricsRecorder → Str → Answered
  handler_after s message recorder =
      let table = (on_register (table_ops clock) decoder clock s message).table in
      serve_mux (handle_registration_request marshal [] false table recorder)
        (handle_routes_request marshal_addresses [] false table recorder) moved recorder

  answer_after :
      (s : Subscriber AddressTable) (message : Str) (m : RegistryMessage)
      (recorder : MetricsRecorder) (server_url name : Str)
      → ((r : Registration) → marshal r ≡ some (encode r))
      → path_of (registration_url server_url name) ≡ bytes "/v1/registration" ++ b'/' ∷ name
      → decoder message ≡ some m
      → m.ip ≢ []
      → member (fqdn name) (map fqdn m.infra_names) ≡ true
      → s.table.warm ≡ true
      → IsElement name
      → handler_after s message recorder (path_of (registration_url server_url name)) ≡ record {
        status = ok_status;
        body = encode (registration_of (insert_ip m.ip (lookup_ips s.table name)));
        recorder = record_request recorder;
      }
  answer_after s message m recorder server_url name enc at decoded has_ip named warm el =
      let valid : (str_eq m.ip [] || length m.infra_names == 0) ≡ false =
        accepted m.ip m.infra_names (fqdn name) has_ip named in
      rw (at, on_register-accepted (table_ops clock) decoder clock s message m decoded valid)
        (rw (serve_mux-registration _ _ moved recorder name el) (
          register-handle_registration_request marshal encode [] clock s.table recorder
            m.infra_names m.ip name enc warm el.nonempty el.no_slash named))

  -- When a subscriber with a warm table gets a register message that decodes, with an address, for hosts
  -- among which is `name`, then `IPs` for that name, with its request answered by the controller's server,
  -- multiplexer included, returns without an error, and with the response closed, exactly the addresses
  -- that were registered for the name, and the new one if it was not among them, in some order. The
  -- hypotheses on what is not in the sources: encoding succeeds, the adapter's decoder reads back the
  -- addresses, the path of the request's URL is the expected one, and the random source keeps to its
  -- range; the name is not empty, has no slash, and is not `.` or `..`.
  register-ips :
      (s : Subscriber AddressTable) (message : Str) (m : RegistryMessage)
      (recorder : MetricsRecorder) (server_url name : Str)
      → ((r : Registration) → marshal r ≡ some (encode r))
      → ((l : List Str) → unmarshal (encode (registration_of l)) ≡ some (some (hosts_of l)))
      → path_of (registration_url server_url name) ≡ bytes "/v1/registration" ++ b'/' ∷ name
      → ((k : ℕ) → 0 < k → intn k < k)
      → decoder message ≡ some m
      → m.ip ≢ []
      → member (fqdn name) (map fqdn m.infra_names) ≡ true
      → s.table.warm ≡ true
      → IsElement name
      → (l : List Str) × (ips
            (get_from path_of (handler_after s message recorder))
            unmarshal
            intn
            server_url
            name
          ≡ returns (record { ips = l; error = none; closed = 0 ∷ [] }))
        × ((a : Str) → count a l ≡ count a (insert_ip m.ip (lookup_ips s.table name)))
  unfolding get_from
  register-ips s message m recorder server_url name enc dec at range decoded has_ip named warm el =
      let told = insert_ip m.ip (lookup_ips s.table name) in
      let answer =
        answer_after s message m recorder server_url name enc at decoded has_ip named warm el in
      let (l, same, counts) =
        ips_success (get_from path_of (handler_after s message recorder)) unmarshal intn server_url
          name 0 (record { status_code = ok_status; body = some (encode (registration_of told)) })
          (encode (registration_of told)) (hosts_of told) (omega arith) tt
          (ap (λ r. some (record { status_code = r.status; body = some r.body })) answer) refl refl
          (dec told) range in
      (l, same, λ a. counts a ∙ ap (count a) (ips_of_hosts told))
