-- ===== src/Adapter/Starting.antt =====
-- When the adapter starts.
use cf_app_sd_release.Adapter.Dial.{new_service_discovery_client}
use cf_app_sd_release.Adapter.Main.{
  AdapterEnvironment, Serving, adapter_address, adapter_main, exits, sdc_server_url, serves,
  start_client, start_configured,
}
use cf_app_sd_release.Base.{
  Option-cases, Str, ap, arith, inl, inr, refl, some, sum_cases, sym, true, ◌∙◌, ◌↔◌, ◌≡◌,
}
use cf_app_sd_release.Config.Adapter.{AdapterConfig, new_adapter_config}
use cf_app_sd_release.Process.Main.{metron_address}

module _ {Pool Identity : Type 0} (env : AdapterEnvironment Pool Identity) (config_path : Str) where
  -- The file of the configuration is there, and its text is accepted.
  abbrev pub Configured : AdapterConfig → Type 0
  Configured conf =
      (text : Str) × (env.files.read_file config_path ≡ some text)
      × (new_adapter_config env.unmarshal_config env.validator text ≡ inr conf)

  -- All that the start of the adapter asks for is there.
  pub record AdapterStarts (s : Serving Pool Identity) : Type 0 where
    pub conf : AdapterConfig
    pub configured : Configured conf
    pub listened : env.listens (adapter_address conf) ≡ true
    pub metrics : env.initialize_metrics (metron_address conf.metron_port) ≡ true
    pub bound : s.address ≡ adapter_address conf
    pub dialled :
        new_service_discovery_client env.files
          (sdc_server_url conf)
          conf.ca_cert
          conf.client_cert
          conf.client_key
        ≡ inr s.client

  adapter_main-Configured :
      (conf : AdapterConfig)
      → Configured conf
      → adapter_main env config_path ≡ start_configured env conf
  unfolding adapter_main
  adapter_main-Configured conf (text, read, accepted) = rw (read, adapter_main) (rw accepted refl)

  AdapterStarts-serves :
      (s : Serving Pool Identity) → AdapterStarts s → adapter_main env config_path ≡ serves s
  unfolding start_configured start_client
  AdapterStarts-serves s h = rw (adapter_main-Configured h.conf h.configured) (
      rw (h.listened, h.metrics)
        (rw (h.dialled, start_client)
          (ap (λ a. serves (record { address = a; client = s.client })) (sym h.bound))))

  serves-client :
      (conf : AdapterConfig) (s : Serving Pool Identity)
      → start_client env conf ≡ serves s
      → (s.address ≡ adapter_address conf)
        × (new_service_discovery_client env.files
              (sdc_server_url conf)
              conf.ca_cert
              conf.client_cert
              conf.client_key
            ≡ inr s.client)
  unfolding start_client
  serves-client conf s h =
      elim (sum_cases (
        new_service_discovery_client env.files (sdc_server_url conf) conf.ca_cert conf.client_cert
          conf.client_key)) [
            | inl (e, bad) ↦ absurd (ground arith)
            | inr (client, dialled) ↦ ground arith
          ]

  serves-configured :
      (conf : AdapterConfig) (s : Serving Pool Identity)
      → start_configured env conf ≡ serves s
      → (env.listens (adapter_address conf) ≡ true)
        × (env.initialize_metrics (metron_address conf.metron_port) ≡ true)
        × (start_client env conf ≡ serves s)
  unfolding start_configured
  serves-configured conf s h = ground arith

  -- How `main` can go, by what becomes of the configuration.
  data MainCases : Type 0 where
    refused :
        ((conf : AdapterConfig) → ¬ Configured conf)
        → adapter_main env config_path ≡ exits 2
        → MainCases
    accepted :
        (conf : AdapterConfig)
        → Configured conf
        → adapter_main env config_path ≡ start_configured env conf
        → MainCases

  main_cases : MainCases
  unfolding adapter_main
  main_cases = elim (Option-cases (env.files.read_file config_path)) [
    | inl missing ↦
        refused (λ conf (text, read, ok). ground arith) (rw (missing, adapter_main) refl)
    | inr (text, read) ↦
        elim (sum_cases (new_adapter_config env.unmarshal_config env.validator text)) [
          | inl (e, bad) ↦
              refused (λ conf (text', read', ok). cc) (rw (read, adapter_main) (rw bad refl))
          | inr (conf, ok) ↦
              accepted conf (text, read, ok) (adapter_main-Configured conf (text, read, ok))
        ]
  ]

  start_configured-code : (conf : AdapterConfig) → ¬ (start_configured env conf ≡ exits 2)
  unfolding start_configured start_client
  start_configured-code conf h =
      elim (sum_cases (
        new_service_discovery_client env.files (sdc_server_url conf) conf.ca_cert conf.client_cert
          conf.client_key)) [ inl (e, bad) ↦ ground arith | inr (client, dialled) ↦ ground arith ]

  serves-AdapterStarts :
      (s : Serving Pool Identity) → adapter_main env config_path ≡ serves s → AdapterStarts s
  serves-AdapterStarts s h = elim main_cases [
    | refused none_accepted e ↦ absurd (ground arith)
    | accepted conf ok e ↦
        let (listened, metrics, started) = serves-configured conf s (sym e ∙ h) in
        let (bound, dialled) = serves-client conf s started in
        record {
          conf = conf;
          configured = ok;
          listened = listened;
          metrics = metrics;
          bound = bound;
          dialled = dialled;
        }
  ]

  exits-refused :
      adapter_main env config_path ≡ exits 2 → (conf : AdapterConfig) → ¬ Configured conf
  exits-refused h conf ok = start_configured-code conf (sym (adapter_main-Configured conf ok) ∙ h)

  refused-exits :
      ((conf : AdapterConfig) → ¬ Configured conf) → adapter_main env config_path ≡ exits 2
  refused-exits none_accepted = elim main_cases [
    | refused _ e ↦ e
    | accepted conf ok e ↦ absurd (none_accepted conf ok)
  ]

  -- The adapter exits with code 2 exactly if its configuration cannot be read or is refused, and it
  -- serves requests exactly if there is an accepted configuration, its address can be listened on, the
  -- metrics can be initialised and the client has its certificates; it then listens on the
  -- configuration's address and asks the configuration's controller.
  pub adapter_main_iff :
      ((adapter_main env config_path ≡ exits 2) ↔ ((conf : AdapterConfig) → ¬ Configured conf))
      × ((s : Serving Pool Identity) → (adapter_main env config_path ≡ serves s) ↔ AdapterStarts s)
  adapter_main_iff =
      ((exits-refused, refused-exits), λ s. (serves-AdapterStarts s, AdapterStarts-serves s))
