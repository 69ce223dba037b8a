-- ===== src/Config/Controller.antt =====
-- service-discovery-controller/config/config.go: `Config` and `NewConfig`.
use cf_app_sd_release.Base.{Bool, List, Option, Str, [], ℕ, ℤ, ◌∷◌, ◌⊎◌}
use cf_app_sd_release.Config.Checks.{Check, ConfigError, at_least, load_config, nonzero}

pub record NatsConfig : Type 0 where
  pub host : Str
  pub port : ℕ  -- a uint16
  pub user : Str
  pub pass : Str

pub record Config : Type 0 where
  pub address : Str
  pub port : Str
  pub nats : List NatsConfig
  pub index : Str
  pub server_cert : Str
  pub server_key : Str
  pub ca_cert : Str
  pub metron_port : ℤ
  pub log_level_address : Str
  pub log_level_port : ℤ
  pub staleness_threshold_seconds : ℤ
  pub pruning_interval_seconds : ℤ
  pub metrics_emit_seconds : ℤ
  pub resume_pruning_delay_seconds : ℤ
  pub warm_duration_seconds : ℤ

-- The tags, in the order of the fields.
unfoldable pub config_checks : Config → List Check
config_checks c =
    nonzero c.address
    ∷ nonzero c.port
    ∷ nonzero c.server_cert
    ∷ nonzero c.server_key
    ∷ nonzero c.ca_cert
    ∷ at_least 1 c.metron_port
    ∷ at_least 1 c.staleness_threshold_seconds
    ∷ at_least 1 c.pruning_interval_seconds
    ∷ at_least 1 c.metrics_emit_seconds
    ∷ at_least 0 c.resume_pruning_delay_seconds
    ∷ at_least 0 c.warm_duration_seconds
    ∷ []

unfoldable pub new_config : (Str → Option Config) → (List Check → Bool) → Str → ConfigError ⊎ Config
unfolding load_config
new_config unmarshal valid config_json = load_config config_checks unmarshal valid config_json
