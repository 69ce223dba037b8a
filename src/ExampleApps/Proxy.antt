-- ===== src/ExampleApps/Proxy.antt =====
-- example-apps/proxy/handlers: the handlers for downloads, uploads, proxied requests, lookups and the
-- listing of addresses. The network, the source of random bytes and the encoders are parameters; errors
-- are given by their text.
use cf_app_sd_release.Base.{
  Bool, false, true, List, Option, Outcome, Str, [], bytes, if◌then◌else◌, inl, inr, length, ltb,
  map, negsuc, none, panics, pos, returns, some, split_on, ℕ, ℤ, ◌++◌, ◌∷◌, ◌⊎◌,
}
use cf_app_sd_release.ExampleApps.Numbers.{atoi, trim_prefix}
use cf_app_sd_release.ExampleApps.Stats.{AppResponse, Stats, add_latency}
use cf_app_sd_release.Populator.Job.{decimal}

abbrev pub answer : ℕ → Str → AppResponse
answer status body = record { status = status; body = body }

abbrev pub not_a_size : Str
not_a_size = bytes "requested number of bytes must be a positive integer, got: "

-- `make([]byte, n)` panics for more than `max_alloc`.
unfoldable pub random_answer : (ℕ → Str) → ℕ → ℕ → Outcome AppResponse
random_answer random max_alloc num_bytes =
    if ltb max_alloc num_bytes then panics else returns (answer 200 (random num_bytes))

unfoldable pub download : (ℕ → Str) → ℕ → Str → Outcome AppResponse
unfolding random_answer
download random max_alloc path =
    let request_bytes = trim_prefix path (bytes "/download/") in
    elim (atoi request_bytes) [
      | none ↦ returns (answer 500 (not_a_size ++ request_bytes))
      | some (negsuc n) ↦ returns (answer 500 (not_a_size ++ request_bytes))
      | some (pos n) ↦ random_answer random max_alloc n
    ]

abbrev pub received : ℕ → Str
received n = decimal n ++ bytes " bytes received and read"

-- The body is nil, or reading it gives an error or its bytes.
unfoldable pub upload : Option (Str ⊎ Str) → AppResponse
upload none = answer 200 (bytes "0 bytes received and read")
upload (some (inl err)) = answer 500 (bytes "error: " ++ err)
upload (some (inr body_bytes)) = answer 200 (received (length body_bytes))

-- A response to a proxied request: how long it took, and its body, which reading may fail.
pub record Fetched (F : Type 0) : Type 0 where
  pub since : F
  pub contents : Str ⊎ Str

-- The statistics after the request, the response, and whether the body that was got is closed.
unfoldable pub proxy :
    {F : Type 0} → (Str → Str ⊎ Fetched F) → Str → Stats F → Stats F × AppResponse × Bool
proxy get path stats = elim (get (bytes "http://" ++ trim_prefix path (bytes "/proxy/"))) [
  | inl err ↦ (stats, answer 500 (bytes "request failed: " ++ err), false)
  | inr got ↦ elim got.contents [
    | inl err ↦ (add_latency got.since stats, answer 500 (bytes "read body failed: " ++ err), true)
    | inr read_bytes ↦ (add_latency got.since stats, answer 200 read_bytes, true)
  ]
]

-- `strings.Split(s, sep)[0]`
unfoldable pub first_part : ℕ → Str → Str
first_part sep s = elim (split_on sep s) [ [] ↦ [] | part ∷ parts ↦ part ]

unfoldable pub dig_error : Str → Str → AppResponse
dig_error err destination =
    answer 500 (bytes "Failed to dig: " ++ (destination ++ (bytes ": " ++ err)))

-- `to_text` is `ip.To4().String()`. The list of the texts is a nil slice where it is empty.
unfoldable pub dig :
    {Ip : Type 0} → (Str → Str ⊎ List Ip) → (Ip → Str) → (List Str → Str ⊎ Str) → Str → AppResponse
unfolding first_part dig_error
dig lookup_ip to_text marshal path =
    let destination = first_part b':' (trim_prefix path (bytes "/dig/")) in
    elim (lookup_ip destination) [
      | inl err ↦ dig_error err destination
      | inr ips ↦ elim (marshal (map to_text ips)) [
        | inl err ↦ dig_error err destination
        | inr ip4_json ↦ answer 200 ip4_json
      ]
    ]

-- The addresses of the interfaces, with their masks, and the port.
unfoldable pub info : Option (List Str) → (List Str → ℤ → Option Str) → ℤ → Outcome AppResponse
unfolding first_part
info none marshal port = panics
info (some addrs) marshal port = elim (marshal (map (first_part b'/') addrs) port) [
  | none ↦ panics
  | some resp_bytes ↦ returns (answer 200 resp_bytes)
]
