-- ===== src/Routes/Run.antt =====
-- service-discovery-controller/routes/server.go: `buildTLSServerConfig` and `Run`. Reading files, the
-- certificates and the HTTP server are parameters: `none` is an error, `append_certs` gives the pool
-- that `AppendCertsFromPEM` leaves, and `build` is the work of the package tlsconfig.
use cf_app_sd_release.Base.{
  Bool, Option, Str, false, inl, inr, none, refl, some, sum_cases, true, arith, ◌++◌, ◌↔◌, ◌∷◌, ◌≡◌,
  ◌⊎◌,
}
use cf_app_sd_release.Config.Controller.{Config}

-- What `Run` is given of files and certificates.
pub record TlsSource (Pool Identity TlsConfig : Type 0) : Type 0 where
  pub read_file : Str → Option Str
  pub append_certs : Str → Pool
  pub load_key_pair : Str → Str → Option Identity
  pub build : Identity → Pool → TlsConfig

pub data TlsError : Type 0 where
  ca_not_read key_pair_not_loaded : TlsError

-- The case of the `select` that comes first: the server's own end, or a signal.
pub data ServeEnd (E : Type 0) : Type 0 where
  serve_exited : E → ServeEnd E
  serve_signalled : ServeEnd E

-- What `Run` has done when it returns.
pub record ServerRun (E TlsConfig : Type 0) : Type 0 where
  pub listening : Option (Str × TlsConfig)  -- the address and the TLS of the HTTP server
  pub ready : Bool  -- whether `ready` was closed
  pub closed : Bool  -- whether the HTTP server was
  pub error : Option (TlsError ⊎ E)

abbrev pub server_address : Config → Str
server_address config = config.address ++ (b':' ∷ config.port)

module _ {Pool Identity TlsConfig : Type 0} (source : TlsSource Pool Identity TlsConfig)
    (config : Config) where
  unfoldable pub build_tls_server_config : TlsError ⊎ TlsConfig
  build_tls_server_config = elim (source.read_file config.ca_cert) [
    | none ↦ inl ca_not_read
    | some ca_cert ↦ elim (source.load_key_pair config.server_cert config.server_key) [
      | none ↦ inl key_pair_not_loaded
      | some cert ↦ inr (source.build cert (source.append_certs ca_cert))
    ]
  ]

  -- The `select`.
  unfoldable pub wait_for_end : {E : Type 0} → TlsConfig → ServeEnd E → ServerRun E TlsConfig
  wait_for_end tls (serve_exited e) = record {
    listening = some (server_address config, tls);
    ready = true;
    closed = true;
    error = some (inr e);
  }
  wait_for_end tls serve_signalled = record {
    listening = some (server_address config, tls);
    ready = true;
    closed = true;
    error = none;
  }

  unfoldable pub run_server : {E : Type 0} → ServeEnd E → ServerRun E TlsConfig
  unfolding build_tls_server_config wait_for_end
  run_server ended = elim build_tls_server_config [
    | inl e ↦ record { listening = none; ready = false; closed = false; error = some (inl e) }
    | inr tls ↦ wait_for_end tls ended
  ]

  -- `Run` returns without an error exactly if the TLS configuration could be built and a signal came
  -- before the HTTP server ended.
  pub run_server_iff :
      {E : Type 0} (ended : ServeEnd E)
      → ((run_server ended).error ≡ none)
        ↔ ((tls : TlsConfig) × (build_tls_server_config ≡ inr tls) × (ended ≡ serve_signalled))
  unfolding run_server wait_for_end
  run_server_iff (serve_exited e) = elim (sum_cases build_tls_server_config) [
    | inl (x, bad) ↦ (λ h. ground arith, λ (tls, good, h). cc)
    | inr (tls, good) ↦ (λ h. ground arith, λ (t, g, h). cc)
  ]
  run_server_iff serve_signalled = elim (sum_cases build_tls_server_config) [
    | inl (x, bad) ↦ (λ h. ground arith, λ (tls, good, h). cc)
    | inr (tls, good) ↦ (λ h. (tls, good, refl), λ h. ground arith)
  ]

  served :
      {E : Type 0} (ended : ServeEnd E) (tls : TlsConfig)
      → build_tls_server_config ≡ inr tls
      → ((run_server ended).ready ≡ true) × ((run_server ended).closed ≡ true)
  unfolding run_server wait_for_end
  served (serve_exited e) tls good = rw (good, run_server) (refl, refl)
  served serve_signalled tls good = rw (good, run_server) (refl, refl)

  -- A run without an error has closed `ready`, and the HTTP server in the end.
  run_server-closes :
      {E : Type 0} (ended : ServeEnd E)
      → (run_server ended).error ≡ none
      → ((run_server ended).ready ≡ true) × ((run_server ended).closed ≡ true)
  unfolding run_server wait_for_end
  run_server-closes ended h = elim (sum_cases build_tls_server_config) [
    | inl (x, bad) ↦ absurd (ground arith)
    | inr (tls, good) ↦ served ended tls good
  ]
