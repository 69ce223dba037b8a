-- ===== src/Tests/Requests.antt =====
-- The running controller at concrete inputs.
use cf_app_sd_release.AddressTable.Addresses.{member}
use cf_app_sd_release.AddressTable.Calls.{shuts_down}
use cf_app_sd_release.AddressTable.Entries.{entries_to_ips, index_of, set_update_time}
use cf_app_sd_release.AddressTable.Hostname.{fqdn, is_fqdn}
use cf_app_sd_release.AddressTable.Interleaving.{waiting}
use cf_app_sd_release.AddressTable.Prune.{
  addresses_with_stale_entries, fresh_entries, has_stale, is_stale, may_prune, prune_address,
  prune_addresses, prune_stale_entries, stale_addresses, tick,
}
use cf_app_sd_release.AddressTable.Sections.{section_at}
use cf_app_sd_release.AddressTable.Table.{
  add, add_host, entries_for_hostname, is_warm, lookup_ips, new_address_table, pause_pruning,
  remove, remove_host, resume_pruning, set_warm, shutdown,
}
use cf_app_sd_release.AddressTable.Traces.{Trace, a_call}
use cf_app_sd_release.Base.{
  List, [], bytes, delete, false, inr, insert, join_with, length, lookup, map, refl, split_on,
  str_eq, sub_time, true, ◌++◌, ◌+◌, ◌∷◌, ◌≡◌,
}
use cf_app_sd_release.Config.Controller.{Config}
use cf_app_sd_release.Mbus.Handlers.{
  on_disconnect, on_reconnect, on_register, on_unregister, on_warm,
}
use cf_app_sd_release.Mbus.MetricsRecorder.{
  get_max_since_last_interval, is_zero_time, record_message_transit_time, time_unix,
}
use cf_app_sd_release.Mbus.Subscriber.{
  after_connection, close, new_subscriber, publish_msg, run_once, send_start_message,
  setup_address_message_handler, setup_greet_msg_handler, start_once, subscribe,
}
use cf_app_sd_release.Process.Answers.{IsAnswer, requests_in}
use cf_app_sd_release.Process.Counts.{count_answers, emitted_total, main_with_error-counted}
use cf_app_sd_release.Process.Durations.{duration_of_seconds, from_word, to_word}
use cf_app_sd_release.Process.Events.{
  ProcessEvent, Served, emit, got_request, handle, handle_all, message, metrics_emitted,
  new_service, on_request, prune_next, pruning_section, serve_request,
}
use cf_app_sd_release.Process.Keeping.{LostBy}
use cf_app_sd_release.Process.Losing.{main_with_error-LostBy}
use cf_app_sd_release.Process.Main.{on_signal}
use cf_app_sd_release.Process.Messages.{
  got_connection_back, got_register, got_unregister, lost_connection, receive, warming_over,
}
use cf_app_sd_release.Process.Needs.{Starts}
use cf_app_sd_release.Process.Replies.{main_with_error-IsAnswer}
use cf_app_sd_release.Process.Runs.{connected, handled}
use cf_app_sd_release.Process.Steps.{main_with_error-Trace, moves_of, system_of}
use cf_app_sd_release.Process.Wiring.{build_address_table, read_config, subscriber_for}
use cf_app_sd_release.Routes.MetricsRecorder.{getter}
use cf_app_sd_release.Routes.Mux.{
  clean_path, ends_in_slash, has_prefix, match_pattern, serve_mux, target_of,
}
use cf_app_sd_release.Routes.Server.{
  base, drop_slashes, handle_registration_request, host_of, until_slash, write_registration,
}
use cf_app_sd_release.Routes.Serving.{registration_of}
use cf_app_sd_release.Routes.Targets.{IsElement}
use cf_app_sd_release.Tests.Chain.{encoder}
use cf_app_sd_release.Tests.Startup.{end_after, machine, one_app, runs}
use cf_app_sd_release.Tests.Table.{ticking-IsMonotone}

-- One request, after the warming duration.
abbrev before_request : List ProcessEvent
before_request =
    message (got_register (bytes "body"))
    ∷ message lost_connection
    ∷ message got_connection_back
    ∷ pruning_section
    ∷ message warming_over
    ∷ []

abbrev after_request : List ProcessEvent
after_request = pruning_section ∷ metrics_emitted ∷ pruning_section ∷ []

abbrev requested : List ProcessEvent
requested =
    before_request
    ++ got_request (bytes "/v1/registration" ++ b'/' ∷ bytes "app.internal") false ∷ after_request

pub internal-IsElement : IsElement (bytes "app.internal")
internal-IsElement = record {
  nonempty = λ e. cc;
  no_dot = λ e. cc;
  no_dots = λ e. cc;
  no_slash = (
    refl,
    (refl, (refl, (refl, (refl, (refl, (refl, (refl, (refl, (refl, (refl, (refl, tt))))))))))),
  );
}

main_with_error-IsAnswer_example :
    (earlier later : List Served) × (r : Served) × ((end_after requested).service.answers
      ≡ earlier ++ r ∷ later)
    × (length earlier ≡ requests_in before_request)
    × (length later ≡ requests_in after_request)
    × (r.path ≡ bytes "/v1/registration" ++ b'/' ∷ bytes "app.internal")
    × IsAnswer machine before_request (bytes "app.internal") false r
main_with_error-IsAnswer_example =
    main_with_error-IsAnswer machine (bytes "config.json") before_request after_request
      (bytes "app.internal") false (end_after requested) ticking-IsMonotone internal-IsElement
      (runs requested)

main_with_error-Trace_example :
    (conf : Config) × (read_config machine.read_file machine.unmarshal_config machine.validator
        (bytes "config.json")
      ≡ inr conf)
    × Trace machine.clock
        (moves_of machine.decode_message requested ++ a_call shuts_down ∷ [])
        (record { table = build_address_table conf; pruner = waiting })
        (system_of (end_after requested).service)
main_with_error-Trace_example =
    main_with_error-Trace machine (bytes "config.json") requested (end_after requested)
      (runs requested)

main_with_error-counted_example :
    emitted_total (end_after requested).service.emitted
      + (end_after requested).service.requests.request_count
    ≡ count_answers (end_after requested).service.answers
main_with_error-counted_example =
    main_with_error-counted machine (bytes "config.json") requested (end_after requested)
      (runs requested)

-- The answer in full.
one_answer :
    (end_after requested).service.answers
    ≡ record {
      path = bytes "/v1/registration/app.internal";
      status = 200;
      body = encoder (registration_of (bytes "10.0.0.7" ∷ []));
    }
      ∷ []
unfolding ends_in_slash host_of join_with split_on has_prefix handle_registration_request is_warm
    write_registration base drop_slashes until_slash member lookup_ips on_signal handle handle_all
    receive prune_next section_at on_request emit serve_request new_service
    get_max_since_last_interval getter on_warm set_warm serve_mux target_of clean_path match_pattern
    on_register on_disconnect on_reconnect run_once start_once entries_to_ips entries_for_hostname
    lookup shutdown close send_start_message publish_msg str_eq subscriber_for new_subscriber
    after_connection setup_greet_msg_handler subscribe setup_address_message_handler tick may_prune
    resume_pruning index_of set_update_time fqdn is_fqdn addresses_with_stale_entries fresh_entries
    has_stale is_stale prune_address prune_addresses prune_stale_entries stale_addresses add
    add_host pause_pruning delete insert sub_time build_address_table new_address_table
    record_message_transit_time is_zero_time time_unix duration_of_seconds from_word to_word
one_answer = refl

abbrev unregistered_after : List ProcessEvent
unregistered_after = message (got_unregister (bytes "body")) ∷ metrics_emitted ∷ []

abbrev registered_first : List ProcessEvent
registered_first = message (got_register (bytes "body")) ∷ unregistered_after

not_there :
    member
      (bytes "10.0.0.7")
      (lookup_ips (end_after registered_first).service.subscriber.table (bytes "app.internal"))
    ≡ false
unfolding on_unregister remove remove_host member lookup_ips on_signal handle handle_all receive
    prune_next section_at on_request emit serve_request new_service get_max_since_last_interval
    getter on_warm set_warm serve_mux target_of clean_path match_pattern on_register on_disconnect
    on_reconnect run_once start_once entries_to_ips entries_for_hostname lookup shutdown close
    send_start_message publish_msg str_eq subscriber_for new_subscriber after_connection
    setup_greet_msg_handler subscribe setup_address_message_handler tick may_prune resume_pruning
    index_of set_update_time fqdn is_fqdn addresses_with_stale_entries fresh_entries has_stale
    is_stale prune_address prune_addresses prune_stale_entries stale_addresses add add_host
    pause_pruning delete insert sub_time build_address_table new_address_table
    record_message_transit_time is_zero_time time_unix duration_of_seconds from_word to_word
not_there = refl

app_in_message : member (fqdn (bytes "app.internal")) (map fqdn one_app.infra_names) ≡ true
unfolding member fqdn is_fqdn str_eq
app_in_message = refl

main_with_error-LostBy_example :
    (h : Starts machine (bytes "config.json")) × (kept rest : List ProcessEvent)
    × (e : ProcessEvent) × (unregistered_after ≡ kept ++ e ∷ rest)
    × (let t =
          handled machine
            (bytes "config.json")
            ([] ++ message (got_register (bytes "body")) ∷ kept)
            h in
        let u =
          handle machine.clock machine.decode_message
            (connected machine (bytes "config.json") h)
            h.options_json
            machine.answering
            e
            t in
        LostBy machine.clock machine.decode_message e t.subscriber.table u.subscriber.table
          (fqdn (bytes "app.internal"))
          (bytes "10.0.0.7"))
main_with_error-LostBy_example =
    main_with_error-LostBy machine (bytes "config.json") [] unregistered_after (bytes "body")
      one_app (bytes "app.internal") (bytes "10.0.0.7") (end_after registered_first)
      ticking-IsMonotone refl refl (λ e. cc) app_in_message (runs registered_first) not_there
