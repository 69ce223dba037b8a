-- ===== src/Tests/Bus.antt =====
-- The subscriber at concrete inputs.
use cf_app_sd_release.AddressTable.Addresses.{erase_ip, insert_ip, member}
use cf_app_sd_release.AddressTable.Hostname.{fqdn}
use cf_app_sd_release.AddressTable.Table.{AddressTable}
use cf_app_sd_release.AddressTable.Validity.{IsValid}
use cf_app_sd_release.Base.{
  All, Option, Str, [], bytes, false, if◌then◌else◌, map, none, not, pos, refl, some, str_eq, true,
  ◌+◌, ◌↔◌, ◌∷◌, ◌≡◌, ◌≢◌, ◌≤ℤ◌,
}
use cf_app_sd_release.Mbus.Handlers.{
  on_register, on_register-lookup, on_unregister, on_unregister-lookup,
}
use cf_app_sd_release.Mbus.Implementation.{table_ops}
use cf_app_sd_release.Mbus.MetricsRecorder.{
  get_max_since_last_interval, get_max_since_last_interval-greatest, greatest, new_metrics_recorder,
  record_all, transit_times,
}
use cf_app_sd_release.Mbus.Running.{AllSucceed, run_once_fails, run_once_iff}
use cf_app_sd_release.Mbus.Subscriber.{
  Nats, RegistryMessage, Subscriber, after_connection, close, greet_not_subscribed, greet_subject,
  new_subscriber, publish_msg, run_once, send_start_message, setup_greet_msg_handler, start_once,
  subscribe,
}
use cf_app_sd_release.Tests.Table.{app, one_host, one_host-IsValid, second_ip, ticking}

abbrev message : RegistryMessage
message = record { ip = second_ip; infra_names = app ∷ []; endpoint_updated_at = pos 7 }

-- A decoder that knows two texts.
abbrev decoder : Str → Option RegistryMessage
decoder body =
    if str_eq body (bytes "full")
    then some message
    else if str_eq body (bytes "empty")
    then some (record message { infra_names = [] })
    else none

abbrev fresh_subscriber : Subscriber AddressTable
fresh_subscriber = new_subscriber (one_host 5) new_metrics_recorder

abbrev working : Nats
working = record {
  connects = true;
  publishes = λ n. true;
  subscribes = λ subject. true;
  flushes = true;
}

-- The greet subject cannot be subscribed to.
abbrev no_greet : Nats
no_greet = record working { subscribes = λ subject. not (str_eq subject greet_subject) }

has_ip : second_ip ≢ []
has_ip e = cc

has_names : app ∷ [] ≢ []
has_names e = cc

decoded : decoder (bytes "full") ≡ some message
unfolding str_eq
decoded = refl

on_register-lookup_example :
    let ops = table_ops ticking in
    let s' = on_register ops decoder ticking fresh_subscriber (bytes "full") in
    (ops.lookup_ips s'.table app ≡ (
      if member (fqdn app) (map fqdn (app ∷ []))
      then insert_ip second_ip (ops.lookup_ips fresh_subscriber.table app)
      else ops.lookup_ips fresh_subscriber.table app))
    × (s'.register_messages_received ≡ fresh_subscriber.register_messages_received + 1)
    × (s'.published ≡ fresh_subscriber.published)
on_register-lookup_example =
    on_register-lookup (table_ops ticking) decoder ticking fresh_subscriber (bytes "full") message
      app decoded has_ip has_names

fresh-IsValid : IsValid fresh_subscriber.table
unfolding new_subscriber
fresh-IsValid = one_host-IsValid 5

on_unregister-lookup_example :
    let ops = table_ops ticking in
    ops.lookup_ips (on_unregister ops decoder fresh_subscriber (bytes "full")).table app ≡ (
      if member (fqdn app) (map fqdn (app ∷ []))
      then erase_ip second_ip (ops.lookup_ips fresh_subscriber.table app)
      else ops.lookup_ips fresh_subscriber.table app)
on_unregister-lookup_example =
    on_unregister-lookup (table_ops ticking) decoder fresh_subscriber (bytes "full") message app
      decoded has_names fresh-IsValid

not_done : fresh_subscriber.once_done ≡ false
unfolding new_subscriber
not_done = refl

no_client : fresh_subscriber.has_client ≡ false
unfolding new_subscriber
no_client = refl

run_once_iff_example :
    ((run_once working (bytes "{}") fresh_subscriber).1 ≡ none)
    ↔ AllSucceed working (bytes "{}") fresh_subscriber
run_once_iff_example = run_once_iff working (bytes "{}") fresh_subscriber not_done

refused : (run_once no_greet (bytes "{}") fresh_subscriber).1 ≡ some greet_not_subscribed
unfolding run_once start_once after_connection send_start_message publish_msg
    setup_greet_msg_handler subscribe close new_subscriber str_eq
refused = refl

run_once_fails_example :
    ((run_once no_greet (bytes "{}") fresh_subscriber).0.warming ≡ fresh_subscriber.warming)
    × ((run_once no_greet (bytes "{}") fresh_subscriber).0.closes
        ≡ (if no_greet.connects then fresh_subscriber.closes + 1 else fresh_subscriber.closes))
run_once_fails_example =
    run_once_fails no_greet (bytes "{}") fresh_subscriber greet_not_subscribed not_done no_client
      refused

get_max_since_last_interval-greatest_example :
    let s = (get_max_since_last_interval new_metrics_recorder).0 in
    let t = record_all ticking s (pos 3 ∷ pos 0 ∷ []) in
    ((get_max_since_last_interval t).1
      ≡ greatest (pos 0) (transit_times ticking s.reads (pos 3 ∷ pos 0 ∷ [])))
    × All
        (λ d. d ≤ℤ (get_max_since_last_interval t).1)
        (transit_times ticking s.reads (pos 3 ∷ pos 0 ∷ []))
    × ((get_max_since_last_interval t).0.current_max ≡ pos 0)
get_max_since_last_interval-greatest_example =
    get_max_since_last_interval-greatest ticking new_metrics_recorder (pos 3 ∷ pos 0 ∷ [])
