-- ===== src/Config/Adapter.antt =====
-- bosh-dns-adapter/config/config.go: `Config` and `NewConfig`.
use cf_app_sd_release.Base.{Bool, List, Option, Str, [], ℤ, ◌∷◌, ◌⊎◌}
use cf_app_sd_release.Config.Checks.{Check, ConfigError, at_least, load_config, nonzero}

pub record AdapterConfig : Type 0 where
  pub address : Str
  pub port : Str
  pub service_discovery_controller_address : Str
  pub service_discovery_controller_port : Str
  pub client_cert : Str
  pub client_key : Str
  pub ca_cert : Str
  pub metron_port : ℤ
  pub metrics_emit_seconds : ℤ
  pub log_level_address : Str
  pub log_level_port : ℤ

unfoldable pub adapter_checks : AdapterConfig → List Check
adapter_checks c =
    nonzero c.address
    ∷ nonzero c.port
    ∷ nonzero c.service_discovery_controller_address
    ∷ nonzero c.service_discovery_controller_port
    ∷ nonzero c.client_cert
    ∷ nonzero c.client_key
    ∷ nonzero c.ca_cert
    ∷ at_least 1 c.metron_port
    ∷ at_least 1 c.metrics_emit_seconds
    ∷ nonzero c.log_level_address
    ∷ at_least 1 c.log_level_port
    ∷ []

unfoldable pub new_adapter_config :
    (Str → Option AdapterConfig) → (List Check → Bool) → Str → ConfigError ⊎ AdapterConfig
unfolding load_config
new_adapter_config unmarshal valid config_json =
    load_config adapter_checks unmarshal valid config_json
