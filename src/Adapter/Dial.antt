-- ===== src/Adapter/Dial.antt =====
-- bosh-dns-adapter/sdcclient/service_discovery_client.go: `NewServiceDiscoveryClient`. Reading files and
-- the certificates are parameters: `none` is an error, `append_certs` is `AppendCertsFromPEM` on a new
-- pool, with what it returns. The timeouts of the HTTP client are left out.
use cf_app_sd_release.Base.{
  Bool, List, Option, Str, [], if◌then◌else◌, inl, inr, none, some, ◌∷◌, ◌⊎◌,
}

pub record ClientFiles (Pool Identity : Type 0) : Type 0 where
  pub read_file : Str → Option Str
  pub append_certs : Str → Pool × Bool
  pub load_key_pair : Str → Str → Option Identity

-- The client: where it sends its requests, and its TLS configuration.
pub record ServiceDiscoveryClient (Pool Identity : Type 0) : Type 0 where
  pub server_url : Str
  pub client_cas : Pool
  pub root_cas : Pool
  pub certificates : List Identity

pub data DialError : Type 0 where
  ca_file_unreadable ca_file_not_loaded client_key_pair_not_loaded : DialError

module _ {Pool Identity : Type 0} (files : ClientFiles Pool Identity) where
  unfoldable pub new_service_discovery_client :
      Str → Str → Str → Str → DialError ⊎ ServiceDiscoveryClient Pool Identity
  new_service_discovery_client server_url ca_path client_cert_path client_key_path =
      elim (files.read_file ca_path) [
        | none ↦ inl ca_file_unreadable
        | some ca_pem_bytes ↦
            let appended = files.append_certs ca_pem_bytes in
            let dialled : DialError ⊎ ServiceDiscoveryClient Pool Identity =
              elim (files.load_key_pair client_cert_path client_key_path) [
                | none ↦ inl client_key_pair_not_loaded
                | some cert ↦ inr (record {
                  server_url = server_url;
                  client_cas = appended.0;
                  root_cas = appended.0;
                  certificates = cert ∷ [];
                })
              ] in
            if appended.1 then dialled else inl ca_file_not_loaded
      ]
