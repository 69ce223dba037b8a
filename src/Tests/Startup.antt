-- ===== src/Tests/Startup.antt =====
-- The start and the run of the controller at concrete inputs.
use cf_app_sd_release.Base.{
  List, [], bytes, false, inr, pos, refl, returns, some, str_eq, true, ◌++◌, ◌↔◌, ◌∷◌, ◌≡◌,
}
use cf_app_sd_release.Config.Checks.{load_config}
use cf_app_sd_release.Config.Controller.{Config, config_checks, new_config}
use cf_app_sd_release.Mbus.Subscriber.{Nats, RegistryMessage, new_subscriber}
use cf_app_sd_release.Populator.Job.{decimal}
use cf_app_sd_release.Process.Events.{
  ProcessEvent, got_request, message, metrics_emitted, pruning_section,
}
use cf_app_sd_release.Process.Main.{Environment, Stopped, main_with_error, metron_address, stopped}
use cf_app_sd_release.Process.Messages.{
  got_connection_back, got_register, lost_connection, warming_over,
}
use cf_app_sd_release.Process.Needs.{Starts, built_for, end_of}
use cf_app_sd_release.Process.Starting.{Starts-end_of, main_with_error_iff}
use cf_app_sd_release.Process.Wiring.{read_config}
use cf_app_sd_release.Routes.Run.{build_tls_server_config, serve_signalled}
use cf_app_sd_release.Tests.Chain.{marshal_all}
use cf_app_sd_release.Tests.Settings.{decode_settings, settings_file, validates}
use cf_app_sd_release.Tests.Table.{ticking}

-- An encoder and a decoder that know one text each, and a network where all calls succeed.
abbrev willing : Nats
willing = record {
  connects = true;
  publishes = λ n. true;
  subscribes = λ subject. true;
  flushes = true;
}

abbrev pub one_app : RegistryMessage
one_app = record {
  ip = bytes "10.0.0.7";
  infra_names = bytes "app.internal" ∷ [];
  endpoint_updated_at = pos 7;
}

abbrev pub machine : Environment
machine = record {
  read_file = λ path. some (bytes "json");
  unmarshal_config = decode_settings;
  validator = validates;
  initialize_metrics = λ address. str_eq address (bytes "127.0.0.1:3457");
  generated_uuid = some (bytes "uuid");
  found_local_ip = some (bytes "10.0.0.5");
  marshal_start = λ message. some (bytes "start");
  connection = λ url. willing;
  decode_message = λ body. some one_app;
  clock = ticking;
  log_level_starts = λ address port. true;
  tls_source = record {
    read_file = λ path. some path;
    append_certs = λ pem. pem;
    load_key_pair = λ cert key. some (cert ++ key);
    build = λ identity pool. identity ++ pool;
  };
  serve_end = λ address. serve_signalled;
  answering = record {
    marshal_registration = marshal_all;
    marshal_addresses = λ l. some (bytes "addresses");
    error_text = bytes "error";
    moved = λ path. bytes "moved";
  };
}

abbrev history : List ProcessEvent
history =
    message (got_register (bytes "body"))
    ∷ message lost_connection
    ∷ message got_connection_back
    ∷ pruning_section
    ∷ message warming_over
    ∷ got_request (bytes "/v1/registration/app.internal") false
    ∷ pruning_section
    ∷ metrics_emitted
    ∷ pruning_section
    ∷ []

read_settings :
    read_config machine.read_file machine.unmarshal_config machine.validator (bytes "config.json")
    ≡ inr settings_file
unfolding read_config new_config load_config config_checks str_eq
read_settings = refl

metron_listens : machine.initialize_metrics (metron_address settings_file.metron_port) ≡ true
unfolding metron_address decimal str_eq
metron_listens = refl

certificates : build_tls_server_config machine.tls_source settings_file ≡ inr (bytes "certkeyca")
unfolding build_tls_server_config
certificates = refl

pub all_is_there : Starts machine (bytes "config.json")
unfolding new_subscriber
all_is_there = record {
  conf = settings_file;
  tls = bytes "certkeyca";
  uuid = bytes "uuid";
  ip = bytes "10.0.0.5";
  options_json = bytes "start";
  read = read_settings;
  metrics = metron_listens;
  identified = refl;
  located = refl;
  encoded = refl;
  connected = record {
    connected = refl;
    started = refl;
    greets = refl;
    flushed = refl;
    registers = refl;
    unregisters = refl;
  };
  log_level = refl;
  certified = certificates;
  serving = refl;
}

main_with_error_iff_example :
    ((st : Stopped) × (main_with_error machine (bytes "config.json") history
        ≡ returns (stopped st)))
    ↔ Starts machine (bytes "config.json")
main_with_error_iff_example = main_with_error_iff machine (bytes "config.json") history

-- The run of the history.
abbrev whole_run :
    (st : Stopped) × (main_with_error machine (bytes "config.json") history ≡ returns (stopped st))
whole_run = (main_with_error_iff machine (bytes "config.json") history).1 all_is_there

-- The state at the end of a run.
abbrev pub end_after : List ProcessEvent → Stopped
end_after events =
    end_of machine settings_file (built_for settings_file (bytes "uuid") (bytes "10.0.0.5")) events
      (bytes "start")

pub runs :
    (events : List ProcessEvent)
    → main_with_error machine (bytes "config.json") events ≡ returns (stopped (end_after events))
unfolding all_is_there
runs events = Starts-end_of machine (bytes "config.json") events all_is_there
