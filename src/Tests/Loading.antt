-- ===== src/Tests/Loading.antt =====
-- The route populator and the controller together, at a concrete input.
use mathlib.Core.List.{Memᴰ}
use cf_app_sd_release.Adapter.Client.{Host}
use cf_app_sd_release.AddressTable.Addresses.{member}
use cf_app_sd_release.AddressTable.Table.{lookup_ips}
use cf_app_sd_release.Base.{
  List, Option, Str, [], ap, arith, bytes, map, none, pos, refl, some, true, ◌++◌, ◌∙◌, ◌∷◌, ◌≡◌,
}
use cf_app_sd_release.EndToEnd.{ips_of_hosts}
use cf_app_sd_release.Loading.{SendReach-lookup_ips}
use cf_app_sd_release.Mbus.Subscriber.{RegistryMessage}
use cf_app_sd_release.Populator.Job.{RouteData, uri}
use cf_app_sd_release.Populator.Publisher.{service_discovery_register}
use cf_app_sd_release.Populator.Sending.{in_select}
use cf_app_sd_release.Process.Events.{ProcessEvent, message, metrics_emitted}
use cf_app_sd_release.Process.Main.{Environment, Stopped}
use cf_app_sd_release.Process.Messages.{got_register}
use cf_app_sd_release.Process.Needs.{Starts, built_for, end_of}
use cf_app_sd_release.Process.Starting.{Starts-end_of}
use cf_app_sd_release.Tests.Chain.{read_back, reader}
use cf_app_sd_release.Tests.Load.{encode_route, marshal_route}
use cf_app_sd_release.Tests.Sending.{
  alone, first_sent, looping, one_job, one_route, second_sent, the_message,
}
use cf_app_sd_release.Tests.Startup.{all_is_there, machine}
use cf_app_sd_release.Tests.Table.{ticking-IsMonotone}

abbrev message_of : List Host → Option RegistryMessage
message_of [] = none
message_of (h ∷ hs) = some (record {
  ip = h.ip_address;
  infra_names = map (λ g. g.ip_address) hs;
  endpoint_updated_at = pos 0;
})

abbrev route_decoder : Str → Option RegistryMessage
route_decoder body = elim (reader body) [
  | none ↦ none
  | some none ↦ none
  | some (some hosts) ↦ message_of hosts
]

read_route :
    (r : RouteData)
    → route_decoder (encode_route r)
      ≡ some (record { ip = r.host; infra_names = r.uris; endpoint_updated_at = pos 0 })
read_route r =
    ap message_of (read_back (r.host ∷ r.uris))
    ∙ ap (λ l. some (record { ip = r.host; infra_names = l; endpoint_updated_at = pos 0 }))
        (ips_of_hosts r.uris)

abbrev loaded : Environment
loaded = record machine { decode_message = route_decoder }

loaded_starts : Starts loaded (bytes "config.json")
loaded_starts = record {
  conf = all_is_there.conf;
  tls = all_is_there.tls;
  uuid = all_is_there.uuid;
  ip = all_is_there.ip;
  options_json = all_is_there.options_json;
  read = all_is_there.read;
  metrics = all_is_there.metrics;
  identified = all_is_there.identified;
  located = all_is_there.located;
  encoded = all_is_there.encoded;
  connected = all_is_there.connected;
  log_level = all_is_there.log_level;
  certified = all_is_there.certified;
  serving = all_is_there.serving;
}

abbrev delivered_events : List ProcessEvent
delivered_events = message (got_register the_message) ∷ metrics_emitted ∷ []

abbrev loaded_end : Stopped
loaded_end =
    end_of loaded loaded_starts.conf
      (built_for loaded_starts.conf loaded_starts.uuid loaded_starts.ip) delivered_events
      loaded_starts.options_json

abbrev MessageArrives : (d : Str) → Type 0
MessageArrives d = Memᴰ (message (got_register d)) delivered_events

arrives :
    (d : Str) → Memᴰ (service_discovery_register, d) (first_sent ++ second_sent) → MessageArrives d
arrives d (Memᴰ.head e) = Memᴰ.head (ap (λ m. message (got_register m.1)) e)
arrives d (Memᴰ.tail (Memᴰ.head e)) = Memᴰ.head (ap (λ m. message (got_register m.1)) e)
arrives d (Memᴰ.tail (Memᴰ.tail m)) = elim m [ ]

SendReach-lookup_ips_example :
    member (bytes "10.0.0.9") (lookup_ips loaded_end.service.subscriber.table (uri one_route 0))
    ≡ true
SendReach-lookup_ips_example =
    SendReach-lookup_ips marshal_route encode_route 10 1 1 0 one_route (one_route ∷ [])
      (alone in_select (first_sent ++ second_sent)) loaded (bytes "config.json") delivered_events
      loaded_end (λ r. refl) read_route ticking-IsMonotone refl (omega arith) (omega arith)
      (omega arith) one_job looping (tt, tt) (arrives, tt)
      ((λ body h. cc, λ h. cc), ((λ body h. cc, λ h. cc), tt))
      (Starts-end_of loaded (bytes "config.json") delivered_events loaded_starts) (λ h. cc)
      (omega arith) (omega arith)
