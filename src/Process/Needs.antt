-- ===== src/Process/Needs.antt =====
-- What the start of the controller needs, and what it then comes to.
use cf_app_sd_release.Base.{List, Option, Str, arith, inr, none, refl, returns, some, true, ◌≡◌}
use cf_app_sd_release.Config.Controller.{Config}
use cf_app_sd_release.Config.Servers.{join_commas, nats_servers}
use cf_app_sd_release.Mbus.MetricsRecorder.{new_metrics_recorder}
use cf_app_sd_release.Mbus.Running.{AllSucceed}
use cf_app_sd_release.Mbus.Start.{start_message, subscription_options_json}
use cf_app_sd_release.Mbus.Subscriber.{new_subscriber, run_once}
use cf_app_sd_release.Process.Events.{ProcessEvent, handle_all, new_service}
use cf_app_sd_release.Process.Main.{
  Environment, Stopped, encoded_options, later_members, metron_address, on_signal, run_group,
  stopped,
}
use cf_app_sd_release.Process.Wiring.{
  BuiltSubscriber, build_address_table, build_subscriber, read_config, subscriber_for,
  subscriber_opts,
}
use cf_app_sd_release.Routes.Run.{
  build_tls_server_config, run_server_iff, serve_signalled, server_address,
}

-- All that the start of the controller asks for is there.
pub record Starts (env : Environment) (config_path : Str) : Type 0 where
  pub conf : Config
  pub tls : Str
  pub uuid : Str
  pub ip : Str
  pub options_json : Str
  pub read : read_config env.read_file env.unmarshal_config env.validator config_path ≡ inr conf
  pub metrics : env.initialize_metrics (metron_address conf.metron_port) ≡ true
  pub identified : env.generated_uuid ≡ some uuid
  pub located : env.found_local_ip ≡ some ip
  pub encoded : env.marshal_start (start_message (subscriber_opts conf uuid) ip) ≡ some options_json
  pub connected :
      AllSucceed
        (env.connection (join_commas (nats_servers conf.nats)))
        options_json
        (new_subscriber (build_address_table conf) new_metrics_recorder)
  pub log_level : env.log_level_starts conf.log_level_address conf.log_level_port ≡ true
  pub certified : build_tls_server_config env.tls_source conf ≡ inr tls
  pub serving : env.serve_end (server_address conf) ≡ serve_signalled

-- The subscriber that is built from a configuration.
abbrev pub built_for : Config → Str → Str → BuiltSubscriber
built_for conf uuid ip = subscriber_for conf (build_address_table conf) new_metrics_recorder uuid ip

pub build_subscriber-some :
    (uuid ip : Option Str) (conf : Config) (b : BuiltSubscriber)
    → build_subscriber uuid ip conf (build_address_table conf) new_metrics_recorder ≡ some b
    → (u : Str) × (i : Str) × (uuid ≡ some u) × (ip ≡ some i) × (b ≡ built_for conf u i)
unfolding build_subscriber
build_subscriber-some none ip conf b h = cc
build_subscriber-some (some u) none conf b h = cc
build_subscriber-some (some u) (some i) conf b h = (u, i, refl, refl, ground arith)

pub encoded_options-inverse :
    (env : Environment) (b : BuiltSubscriber) (json : Str)
    → (env.connection b.url).connects ≡ true
    → encoded_options env b ≡ returns json
    → env.marshal_start (start_message b.opts b.local_ip) ≡ some json
unfolding encoded_options subscription_options_json
encoded_options-inverse env b json on h = ground arith

pub encoded_options-some :
    (env : Environment) (b : BuiltSubscriber) (json : Str)
    → (env.connection b.url).connects ≡ true
    → env.marshal_start (start_message b.opts b.local_ip) ≡ some json
    → encoded_options env b ≡ returns json
unfolding encoded_options subscription_options_json
encoded_options-some env b json on h = ground arith

abbrev pub end_of : Environment → Config → BuiltSubscriber → List ProcessEvent → Str → Stopped
end_of env conf b events json =
    let conn = env.connection b.url in
    on_signal (
      handle_all env.clock env.decode_message conn json env.answering events
        (new_service (run_once conn json b.subscriber).0))

pub run_group-end_of :
    (env : Environment) (conf : Config) (b : BuiltSubscriber) (events : List ProcessEvent)
    (json : Str)
    → (run_once (env.connection b.url) json b.subscriber).1 ≡ none
    → later_members env conf ≡ none
    → run_group env conf b events json ≡ stopped (end_of env conf b events json)
unfolding run_group
run_group-end_of env conf b events json ok fine = rw (ok, run_group) (rw fine refl)

-- The members after the subscriber run to the signal if they start and the HTTP server does not end
-- before.
pub later_members-none :
    (env : Environment) (conf : Config) (tls : Str)
    → env.log_level_starts conf.log_level_address conf.log_level_port ≡ true
    → build_tls_server_config env.tls_source conf ≡ inr tls
    → env.serve_end (server_address conf) ≡ serve_signalled
    → later_members env conf ≡ none
unfolding later_members
later_members-none env conf tls on certified serving =
    let ended = env.serve_end (server_address conf) in
    let ok = (run_server_iff env.tls_source conf ended).1 (tls, certified, serving) in
    rw (on, later_members) (rw ok refl)
