-- ===== src/Adapter/Main.antt =====
-- bosh-dns-adapter/main.go: `main`, up to the start of the server, and how it ends. Files, decoders, the
-- network and the metrics are parameters.
use cf_app_sd_release.Adapter.Dial.{
  ClientFiles, ServiceDiscoveryClient, new_service_discovery_client,
}
use cf_app_sd_release.Base.{
  Bool, List, Option, Str, [], bytes, if◌then◌else◌, inl, inr, none, some, ℕ, ◌++◌, ◌∷◌,
}
use cf_app_sd_release.Config.Adapter.{AdapterConfig, new_adapter_config}
use cf_app_sd_release.Config.Checks.{Check}
use cf_app_sd_release.Process.Main.{metron_address}

pub record AdapterEnvironment (Pool Identity : Type 0) : Type 0 where
  pub files : ClientFiles Pool Identity
  pub unmarshal_config : Str → Option AdapterConfig
  pub validator : List Check → Bool
  pub listens : Str → Bool  -- `net.Listen`, by the address
  pub initialize_metrics : Str → Bool  -- `dropsonde.Initialize`, by its address

-- What the handler of the requests is started with.
pub record Serving (Pool Identity : Type 0) : Type 0 where
  pub address : Str
  pub client : ServiceDiscoveryClient Pool Identity

pub data AdapterStart (Pool Identity : Type 0) : Type 0 where
  exits : ℕ → AdapterStart Pool Identity
  serves : Serving Pool Identity → AdapterStart Pool Identity

abbrev pub adapter_address : AdapterConfig → Str
adapter_address config = config.address ++ (b':' ∷ config.port)

-- `sdcServerUrl`
abbrev pub sdc_server_url : AdapterConfig → Str
sdc_server_url config =
    bytes "https://"
    ++ (config.service_discovery_controller_address
        ++ (b':' ∷ config.service_discovery_controller_port))

-- What `main` waits for: the end of the monitor's group, with an error or without, or a signal.
pub data AdapterEvent : Type 0 where
  group_failed group_ended got_signal : AdapterEvent

-- The exit code; `none` while `main` waits.
unfoldable pub wait_for_signal : List AdapterEvent → Option ℕ
wait_for_signal [] = none
wait_for_signal (group_failed ∷ events) = some 1
wait_for_signal (group_ended ∷ events) = wait_for_signal events
wait_for_signal (got_signal ∷ events) = some 0

module _ {Pool Identity : Type 0} (env : AdapterEnvironment Pool Identity) where
  unfoldable pub start_client : AdapterConfig → AdapterStart Pool Identity
  start_client config =
      elim (new_service_discovery_client env.files (sdc_server_url config) config.ca_cert
        config.client_cert config.client_key) [
          | inl e ↦ exits 1
          | inr client ↦ serves (record { address = adapter_address config; client = client })
        ]

  -- From the listening on, with the configuration that was read.
  unfoldable pub start_configured : AdapterConfig → AdapterStart Pool Identity
  unfolding start_client
  start_configured config =
      let client = start_client config in
      let measured =
        if env.initialize_metrics (metron_address config.metron_port) then client else exits 1 in
      if env.listens (adapter_address config) then measured else exits 1

  unfoldable pub adapter_main : Str → AdapterStart Pool Identity
  unfolding start_configured
  adapter_main config_path = elim (env.files.read_file config_path) [
    | none ↦ exits 2
    | some text ↦ elim (new_adapter_config env.unmarshal_config env.validator text) [
      | inl e ↦ exits 2
      | inr config ↦ start_configured config
    ]
  ]
