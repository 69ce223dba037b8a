-- ===== src/Process/Starting.antt =====
-- When the controller starts.
use cf_app_sd_release.Base.{
  >>=-returns, Bool-cases, List, Option-cases, Str, ap, arith, inl, inr, refl, returns, some,
  sum_cases, true, ◌↔◌, ◌≡◌,
}
use cf_app_sd_release.Config.Controller.{Config}
use cf_app_sd_release.Config.Servers.{join_commas, nats_servers}
use cf_app_sd_release.Mbus.MetricsRecorder.{new_metrics_recorder}
use cf_app_sd_release.Mbus.Running.{AllSucceed, run_once-needs, run_once-succeeds}
use cf_app_sd_release.Mbus.Subscriber.{new_subscriber}
use cf_app_sd_release.Process.Ending.{later_members-error, run_group-stopped}
use cf_app_sd_release.Process.Events.{ProcessEvent}
use cf_app_sd_release.Process.Main.{
  Environment, Stopped, encoded_options, main_with_error, metron_address, run_built, run_configured,
  run_controller, run_group, stopped,
}
use cf_app_sd_release.Process.Needs.{
  Starts, build_subscriber-some, built_for, encoded_options-inverse, encoded_options-some, end_of,
  later_members-none, run_group-end_of,
}
use cf_app_sd_release.Process.Wiring.{
  build_address_table, build_subscriber, read_config, subscriber_for,
}
use cf_app_sd_release.Routes.Run.{run_server_iff, server_address}

module _ (env : Environment) (config_path : Str) (events : List ProcessEvent) where
  pub Starts-end_of :
      (h : Starts env config_path)
      → main_with_error env config_path events
        ≡ returns (stopped (end_of env h.conf (built_for h.conf h.uuid h.ip) events h.options_json))
  unfolding main_with_error run_configured run_built run_controller build_subscriber subscriber_for
      new_subscriber
  Starts-end_of h =
      let b = built_for h.conf h.uuid h.ip in
      let conn = env.connection (join_commas (nats_servers h.conf.nats)) in
      let fresh = new_subscriber (build_address_table h.conf) new_metrics_recorder in
      let ok = ap (λ r. r.1) (run_once-succeeds conn h.options_json fresh refl h.connected) in
      let json = encoded_options-some env b h.options_json h.connected.connected h.encoded in
      let ended =
        run_group-end_of env h.conf b events h.options_json ok
          (later_members-none env h.conf h.tls h.log_level h.certified h.serving) in
      rw (h.read, main_with_error)
        (rw (h.metrics, h.identified, h.located) (rw (json) (ap returns ended)))

  Starts-stopped :
      Starts env config_path
      → (st : Stopped) × (main_with_error env config_path events ≡ returns (stopped st))
  Starts-stopped h =
      (end_of env h.conf (built_for h.conf h.uuid h.ip) events h.options_json, Starts-end_of h)

  -- A group that ends by a signal had a subscriber for which all succeeded.
  group-succeeds :
      (conf : Config) (uuid ip json : Str) (st : Stopped)
      → run_group env conf (built_for conf uuid ip) events json ≡ stopped st
      → AllSucceed
          (env.connection (join_commas (nats_servers conf.nats)))
          json
          (new_subscriber (build_address_table conf) new_metrics_recorder)
  unfolding subscriber_for new_subscriber
  group-succeeds conf uuid ip json st h =
      let (ok, _, _) = run_group-stopped env conf (built_for conf uuid ip) events json st h in
      run_once-needs (env.connection (join_commas (nats_servers conf.nats))) json
        (new_subscriber (build_address_table conf) new_metrics_recorder) refl ok

  controller-Starts :
      (conf : Config) (uuid ip : Str) (st : Stopped)
      → read_config env.read_file env.unmarshal_config env.validator config_path ≡ inr conf
      → env.initialize_metrics (metron_address conf.metron_port) ≡ true
      → env.generated_uuid ≡ some uuid
      → env.found_local_ip ≡ some ip
      → run_controller env conf (built_for conf uuid ip) events ≡ returns (stopped st)
      → Starts env config_path
  unfolding run_controller subscriber_for
  controller-Starts conf uuid ip st read metrics identified located h =
      let b = built_for conf uuid ip in
      let (json, made, ended) =
        >>=-returns (encoded_options env b) (λ j. returns (run_group env conf b events j)) h in
      let all = group-succeeds conf uuid ip json st (ground arith) in
      let (_, fine, _) = run_group-stopped env conf b events json st (ground arith) in
      let (on, ok) = later_members-error env conf fine in
      let (tls, certified, serving) =
        (run_server_iff env.tls_source conf (env.serve_end (server_address conf))).0 ok in
      record {
        conf = conf;
        tls = tls;
        uuid = uuid;
        ip = ip;
        options_json = json;
        read = read;
        metrics = metrics;
        identified = identified;
        located = located;
        encoded = encoded_options-inverse env b json all.connected made;
        connected = all;
        log_level = on;
        certified = certified;
        serving = serving;
      }

  configured-Starts :
      (conf : Config) (st : Stopped)
      → read_config env.read_file env.unmarshal_config env.validator config_path ≡ inr conf
      → run_configured env conf events ≡ returns (stopped st)
      → Starts env config_path
  unfolding run_configured run_built
  configured-Starts conf st read h =
      let built =
        build_subscriber env.generated_uuid env.found_local_ip conf (build_address_table conf)
          new_metrics_recorder in
      elim (Bool-cases (env.initialize_metrics (metron_address conf.metron_port))) [
        | inl on ↦ elim (Option-cases built) [
          | inl missing ↦ absurd (ground arith)
          | inr (b, some_b) ↦
              let (u, i, identified, located, same) =
                build_subscriber-some env.generated_uuid env.found_local_ip conf b some_b in
              controller-Starts conf u i st read on identified located (ground arith)
        ]
        | inr off ↦ absurd (ground arith)
      ]

  pub stopped-Starts :
      (st : Stopped)
      → main_with_error env config_path events ≡ returns (stopped st)
      → Starts env config_path
  unfolding main_with_error
  stopped-Starts st h =
      elim (sum_cases (read_config env.read_file env.unmarshal_config env.validator config_path)) [
        | inl (e, bad) ↦ absurd (ground arith)
        | inr (conf, read) ↦ configured-Starts conf st read (rw (read, main_with_error) at h)
      ]

  -- `mainWithError` runs until a signal and returns without an error exactly if the configuration is
  -- read and accepted, the metrics can be initialised, there are a UUID and a local address, the start
  -- message can be encoded, connecting, the start message, the three subscriptions and the flush
  -- succeed, the log level server starts, the TLS configuration can be built, and the HTTP server does
  -- not end before the signal.
  pub main_with_error_iff :
      ((st : Stopped) × (main_with_error env config_path events ≡ returns (stopped st)))
      ↔ Starts env config_path
  main_with_error_iff = (λ h. stopped-Starts h.0 h.1, Starts-stopped)
