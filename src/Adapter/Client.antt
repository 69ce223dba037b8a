-- ===== src/Adapter/Client.antt =====
-- bosh-dns-adapter/sdcclient/service_discovery_client.go: `IPs`, with its retries. The HTTP client and
-- the JSON decoder are parameters: `get url n` is the outcome of the request with number `n` (`none`:
-- the transport failed), `unmarshal` gives `none` on an error and `some none` for the JSON value null,
-- which leaves the pointer nil.
use cf_app_sd_release.Adapter.Shuffle.{shuffle}
use cf_app_sd_release.Base.{
  List, Option, Outcome, Str, [], bytes, if◌then◌else◌, map, none, panics, returns, some, suc, zero,
  ℕ, ◌++◌, ◌==◌, ◌>>=◌, ◌∷◌,
}

pub record Response : Type 0 where
  pub status_code : ℕ
  pub body : Option Str  -- `none`: reading it fails

pub record Host : Type 0 where
  pub ip_address : Str

pub data ClientError : Type 0 where
  transport non_successful unreadable malformed : ClientError

abbrev pub status_ok : ℕ
status_ok = 200

-- What `IPs` returns, and which response bodies it has closed by then, by the request's number, the
-- last first: the deferred calls run in that order.
pub record Reply : Type 0 where
  pub ips : List Str
  pub error : Option ClientError
  pub closed : List ℕ

-- The request loop, with the rounds left: the last response with its number, or `none` after a
-- failed transport; and the numbers of the bodies whose closing is deferred.
unfoldable pub request_loop :
    (ℕ → Option Response)
    → ℕ
    → ℕ
    → Option (Response × ℕ)
    → List ℕ
    → Option (Option (Response × ℕ)) × List ℕ
request_loop get zero i last deferred = (some last, deferred)
request_loop get (suc rounds) i last deferred = elim (get i) [
  | none ↦ (none, deferred)
  | some r ↦
      let more = request_loop get rounds (suc i) (some (r, i)) (i ∷ deferred) in
      if r.status_code == status_ok then (some (some (r, i)), deferred) else more
]

unfoldable pub failed : ClientError → List ℕ → Outcome Reply
failed e closed = returns (record { ips = []; error = some e; closed = closed })

-- The part behind the read of the body.
unfoldable pub decode : (Str → Option (Option (List Host))) → (ℕ → ℕ) → List ℕ → Str → Outcome Reply
unfolding failed
decode unmarshal intn closed bytes = elim (unmarshal bytes) [
  | none ↦ failed malformed closed
  | some none ↦ panics
  | some (some hosts) ↦
      (shuffle intn (map (λ h. h.ip_address) hosts) >>= λ ips.
      returns (record { ips = ips; error = none; closed = closed }))
]

unfoldable pub registration_url : Str → Str → Str
registration_url server_url name = server_url ++ (bytes "/v1/registration/" ++ name)

unfoldable pub ips :
    (Str → ℕ → Option Response)
    → (Str → Option (Option (List Host)))
    → (ℕ → ℕ)
    → Str
    → Str
    → Outcome Reply
unfolding failed
ips get unmarshal intn server_url infrastructure_name =
    let requested =
      request_loop (get (registration_url server_url infrastructure_name)) 4 0 none [] in
    elim requested.0 [
      | none ↦ failed transport requested.1
      | some none ↦ panics
      | some (some (r, i)) ↦
          if r.status_code == status_ok
          then elim r.body [
            | none ↦ failed unreadable (i ∷ requested.1)
            | some bytes ↦ decode unmarshal intn (i ∷ requested.1) bytes
          ]
          else failed non_successful requested.1
    ]
