-- ===== src/Tests/AdapterStartup.antt =====
-- The adapter's start at concrete inputs.
use cf_app_sd_release.Base.{
  Str, [], bytes, if◌then◌else◌, none, pos, refl, some, str_eq, true, ◌∷◌, ◌↔◌, ◌≡◌, ◌++◌,
}
use cf_app_sd_release.Adapter.Dial.{ClientFiles, new_service_discovery_client}
use cf_app_sd_release.Adapter.Main.{
  AdapterEnvironment, Serving, adapter_main, exits, serves, start_configured, start_client,
  got_signal, group_ended, group_failed, wait_for_signal,
}
use cf_app_sd_release.Adapter.Starting.{AdapterStarts, Configured, adapter_main_iff}
use cf_app_sd_release.Config.Adapter.{AdapterConfig, new_adapter_config, adapter_checks}
use cf_app_sd_release.Config.Checks.{load_config}
use cf_app_sd_release.Tests.Settings.{validates}

abbrev adapter_settings : AdapterConfig
adapter_settings = record {
  address = bytes "127.0.0.1";
  port = bytes "8053";
  service_discovery_controller_address = bytes "controller";
  service_discovery_controller_port = bytes "8054";
  client_cert = bytes "cert";
  client_key = bytes "key";
  ca_cert = bytes "ca";
  metron_port = pos 3457;
  metrics_emit_seconds = pos 10;
  log_level_address = bytes "127.0.0.1";
  log_level_port = pos 8066;
}

-- All files are there but one; pools and identities are texts.
abbrev files_without : Str → ClientFiles Str Str
files_without missing = record {
  read_file = λ path. if str_eq path missing then none else some path;
  append_certs = λ pem. (pem, true);
  load_key_pair = λ cert key. some (cert ++ key);
}

abbrev adapter_without : Str → AdapterEnvironment Str Str
adapter_without missing = record {
  files = files_without missing;
  unmarshal_config = λ text. some adapter_settings;
  validator = validates;
  listens = λ address. str_eq address (bytes "127.0.0.1:8053");
  initialize_metrics = λ address. true;
}

adapter_main_iff_example :
    ((adapter_main (adapter_without (bytes "gone")) (bytes "config") ≡ exits 2) ↔ (
      (conf : AdapterConfig) → ¬ Configured (adapter_without (bytes "gone")) (bytes "config") conf))
    × ((s : Serving Str Str)
        → (adapter_main (adapter_without (bytes "gone")) (bytes "config") ≡ serves s)
          ↔ AdapterStarts (adapter_without (bytes "gone")) (bytes "config") s)
adapter_main_iff_example = adapter_main_iff (adapter_without (bytes "gone")) (bytes "config")

it_serves :
    adapter_main (adapter_without (bytes "gone")) (bytes "config")
    ≡ serves (record {
      address = bytes "127.0.0.1:8053";
      client = record {
        server_url = bytes "https://controller:8054";
        client_cas = bytes "ca";
        root_cas = bytes "ca";
        certificates = bytes "certkey" ∷ [];
      };
    })
unfolding adapter_main start_configured start_client new_service_discovery_client new_adapter_config
    load_config adapter_checks str_eq
it_serves = refl

without_configuration : adapter_main (adapter_without (bytes "config")) (bytes "config") ≡ exits 2
unfolding adapter_main str_eq
without_configuration = refl

without_certificates : adapter_main (adapter_without (bytes "ca")) (bytes "config") ≡ exits 1
unfolding adapter_main start_configured start_client new_service_discovery_client new_adapter_config
    load_config adapter_checks str_eq
without_certificates = refl

-- The end of the group without an error does not end the process.
end_by_signal : wait_for_signal (group_ended ∷ got_signal ∷ []) ≡ some 0
unfolding wait_for_signal
end_by_signal = refl

end_by_failure : wait_for_signal (group_failed ∷ got_signal ∷ []) ≡ some 1
unfolding wait_for_signal
end_by_failure = refl
