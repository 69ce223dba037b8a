-- ===== src/Process/Main.antt =====
-- service-discovery-controller/main.go: `mainWithError`.
use cf_app_sd_release.AddressTable.Table.{shutdown}
use cf_app_sd_release.Base.{
  false, ◌⊎◌, Bool, Clock, List, Option, Outcome, Str, [], bytes, if◌then◌else◌, inl, inr, negsuc,
  none, pos, returns, some, suc, true, ℕ, ℤ, ◌++◌, ◌>>=◌,
}
use cf_app_sd_release.Config.Checks.{Check}
use cf_app_sd_release.Config.Controller.{Config}
use cf_app_sd_release.Mbus.MetricsRecorder.{new_metrics_recorder}
use cf_app_sd_release.Mbus.Start.{ServiceDiscoveryStartMessage, subscription_options_json}
use cf_app_sd_release.Mbus.Subscriber.{Nats, RegistryMessage, RunError, close, run_once}
use cf_app_sd_release.Populator.Job.{decimal}
use cf_app_sd_release.Process.Events.{Answering, ProcessEvent, Service, handle_all, new_service}
use cf_app_sd_release.Routes.Run.{
  ServeEnd, ServerRun, TlsError, TlsSource, run_server, server_address,
}
use cf_app_sd_release.Process.Wiring.{
  BuiltSubscriber, ReadError, build_address_table, build_subscriber, read_config,
}

-- What the process is given: its files, decoders and encoders, the network, the clock.
pub record Environment : Type 0 where
  pub read_file : Str → Option Str
  pub unmarshal_config : Str → Option Config
  pub validator : List Check → Bool
  pub initialize_metrics : Str → Bool  -- `dropsonde.Initialize`, by its address
  pub generated_uuid : Option Str
  pub found_local_ip : Option Str
  pub marshal_start : ServiceDiscoveryStartMessage → Option Str
  pub connection : Str → Nats  -- by the text of the URLs
  pub decode_message : Str → Option RegistryMessage
  pub clock : Clock
  pub log_level_starts : Str → ℤ → Bool  -- the log level server, by its address and port
  pub tls_source : TlsSource Str Str Str  -- certificates and what is made of them, as texts
  pub serve_end : Str → ServeEnd Str  -- the HTTP server, by its address
  pub answering : Answering

-- Why the group ends by itself.
pub data GroupError : Type 0 where
  subscriber_failed : RunError → GroupError
  log_level_failed : GroupError
  routes_failed : TlsError ⊎ Str → GroupError

-- The state when `mainWithError` returns after a signal. It does not wait for the members of the group,
-- so that the HTTP server may still be open.
pub record Stopped : Type 0 where
  pub service : Service
  pub signalled : Bool  -- whether the monitor has got the signal

pub data MainResult : Type 0 where
  not_read : ReadError → MainResult
  no_metrics no_subscriber : MainResult
  fatal : GroupError → MainResult  -- `logger.Fatal`, when the group fails
  stopped : Stopped → MainResult

-- `fmt.Sprintf("127.0.0.1:%d", conf.MetronPort)`
unfoldable pub metron_address : ℤ → Str
metron_address (pos n) = bytes "127.0.0.1:" ++ decimal n
metron_address (negsuc n) = bytes "127.0.0.1:-" ++ decimal (suc n)

-- The case of the signal: `Close`, `Shutdown` and `Signal`.
unfoldable pub on_signal : Service → Stopped
on_signal s =
    let closed = close s.subscriber in
    record {
      service = record s { subscriber = record closed { table = shutdown closed.table } };
      signalled = true;
    }

-- The HTTP server as a member of the group, with how it ends: by itself, or not before the signal.
abbrev pub http_run : Environment → Config → ServerRun Str Str
http_run env conf = run_server env.tls_source conf (env.serve_end (server_address conf))

-- The members that start after the subscriber; the metrics emitter does not fail.
unfoldable pub later_members : Environment → Config → Option GroupError
later_members env conf = elim (env.log_level_starts conf.log_level_address conf.log_level_port) [
  | false ↦ some log_level_failed
  | true ↦ elim (http_run env conf).error [ none ↦ none | some e ↦ some (routes_failed e) ]
]

-- The start message is encoded only once there is a connection.
unfoldable pub encoded_options : Environment → BuiltSubscriber → Outcome Str
encoded_options env b =
    let json = subscription_options_json env.marshal_start b.opts b.local_ip in
    if (env.connection b.url).connects then json else returns []

-- From the start of the group on: `RunOnce`, the other members, then the events up to the signal.
unfoldable pub run_group :
    Environment → Config → BuiltSubscriber → List ProcessEvent → Str → MainResult
unfolding on_signal later_members
run_group env conf b events options_json =
    let conn = env.connection b.url in
    let started = run_once conn options_json b.subscriber in
    elim started.1 [
      | some e ↦ fatal (subscriber_failed e)
      | none ↦ elim (later_members env conf) [
        | some e ↦ fatal e
        | none ↦ stopped (
            on_signal (
              handle_all env.clock env.decode_message conn options_json env.answering events
                (new_service started.0)))
      ]
    ]

unfoldable pub run_controller :
    Environment → Config → BuiltSubscriber → List ProcessEvent → Outcome MainResult
unfolding encoded_options run_group
run_controller env conf b events =
    encoded_options env b >>= λ options_json. returns (run_group env conf b events options_json)

-- With the subscriber that was built, if it was.
unfoldable pub run_built :
    Environment → Config → List ProcessEvent → Option BuiltSubscriber → Outcome MainResult
unfolding run_controller
run_built env conf events none = returns no_subscriber
run_built env conf events (some b) = run_controller env conf b events

-- With the configuration that was read.
unfoldable pub run_configured : Environment → Config → List ProcessEvent → Outcome MainResult
unfolding run_built
run_configured env conf events =
    let built =
      build_subscriber env.generated_uuid env.found_local_ip conf (build_address_table conf)
        new_metrics_recorder in
    if env.initialize_metrics (metron_address conf.metron_port)
    then run_built env conf events built
    else returns no_metrics

unfoldable pub main_with_error : Environment → Str → List ProcessEvent → Outcome MainResult
unfolding run_configured
main_with_error env config_path events =
    elim (read_config env.read_file env.unmarshal_config env.validator config_path) [
      | inl e ↦ returns (not_read e)
      | inr conf ↦ run_configured env conf events
    ]

-- `main`: the exit code, where `mainWithError` returns. (`logger.Fatal` is not in the sources.)
unfoldable pub exit_code : MainResult → Option ℕ
exit_code (stopped s) = some 0
exit_code (fatal e) = none
exit_code (not_read e) = some 2
exit_code no_metrics = some 2
exit_code no_subscriber = some 2
