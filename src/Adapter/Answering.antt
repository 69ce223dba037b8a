-- ===== src/Adapter/Answering.antt =====
-- What the adapter answers.
use cf_app_sd_release.Adapter.Client.{ClientError, Reply}
use cf_app_sd_release.Adapter.Requests.{
  Answer, DnsMessage, HttpAnswer, answers_for, build_response_body, error_prefix, get_ips,
  get_query_param, write_response,
}
use cf_app_sd_release.Base.{
  All, List, Option, Option-cases, Outcome, Str, [], ap, arith, bytes, inl, inr, map, none, refl,
  returns, some, str_eq_iff, str_eq_refl, ℕ, ◌++◌, ◌↔◌, ◌∷◌, ◌≡◌, ◌≢◌,
}

-- An answer to an A query has one record for each address, in the order of the addresses, under the
-- name that was asked for.
answers_for-contents :
    (dns : DnsMessage) (name : Str) (l : List Str)
    → (map (λ a. a.contents) (answers_for dns name l) ≡ l)
      × All (λ a. a.name ≡ name) (answers_for dns name l)
unfolding answers_for
answers_for-contents dns name [] = (refl, tt)
answers_for-contents dns name (ip ∷ l) =
    let (same, named) = answers_for-contents dns name l in (ap (◌∷◌ ip) same, (refl, named))

build_response_body-none :
    (dns : DnsMessage) (marshal : List Answer → Option Str) (name dns_type : Str) (l : List Str)
    → build_response_body dns marshal dns.rcode_success name dns_type l ≡ none
    → marshal (answers_for dns name l) ≡ none
unfolding build_response_body
build_response_body-none dns marshal name dns_type l h = ground arith

module _ (dns : DnsMessage) (marshal : List Answer → Option Str) (client : Str → Outcome Reply)
    (error_text : ClientError → Str) (query : Str → Str) where
  abbrev pub asked_type : Str
  asked_type = get_query_param query (bytes "type") (bytes "1")

  abbrev pub asked_name : Str
  asked_name = get_query_param query (bytes "name") []

  -- When the handler answers, the status is 400 exactly for an A query without a name, and 500 exactly
  -- if the counter of failed requests went up.
  pub get_ips-status :
      (a : HttpAnswer)
      → get_ips dns marshal client error_text query ≡ returns a
      → ((a.status ≡ 400) ↔ ((asked_type ≡ bytes "1") × (asked_name ≡ [])))
        × ((a.status ≡ 500) ↔ (a.request_failures ≡ 1))
  unfolding get_ips write_response
  get_ips-status a h =
      let t = str_eq_iff asked_type (bytes "1") in
      let n = str_eq_iff asked_name [] in
      (
        (λ k. ground (arith, t, n), λ k. ground (arith, t, n)),
        (λ k. ground (arith, t, n), λ k. ground (arith, t, n)),
      )

  -- An A query for a name that the client finds.
  pub get_ips-found :
      (name : Str) (l : List Str) (closed : List ℕ)
      → asked_type ≡ bytes "1"
      → asked_name ≡ name
      → name ≢ []
      → client name ≡ returns (record { ips = l; error = none; closed = closed })
      → get_ips dns marshal client error_text query
        ≡ returns (write_response dns marshal 200 dns.rcode_success name (bytes "1") l)
  unfolding get_ips
  get_ips-found name l closed is_a named ne found = ground (
    arith,
    is_a,
    named,
    found,
    str_eq_iff name [],
    str_eq_iff asked_type (bytes "1"),
    str_eq_refl (bytes "1"),
  )

  -- An A query for a name about which the client returns an error.
  pub get_ips-failed :
      (name : Str) (e : ClientError) (closed : List ℕ)
      → asked_type ≡ bytes "1"
      → asked_name ≡ name
      → name ≢ []
      → client name ≡ returns (record { ips = []; error = some e; closed = closed })
      → get_ips dns marshal client error_text query
        ≡ returns
            (record { status = 500; body = error_prefix ++ error_text e; request_failures = 1 })
  unfolding get_ips
  get_ips-failed name e closed is_a named ne returned = ground (
    arith,
    is_a,
    named,
    returned,
    str_eq_iff name [],
    str_eq_iff asked_type (bytes "1"),
    str_eq_refl (bytes "1"),
  )

-- The response if the answers can be encoded.
pub write_response-written :
    (dns : DnsMessage) (marshal : List Answer → Option Str) (name dns_type : Str) (l : List Str)
    → marshal (answers_for dns name l) ≢ none
    → (body : Str) × (build_response_body dns marshal dns.rcode_success name dns_type l ≡ some body)
      × (write_response dns marshal 200 dns.rcode_success name dns_type l
          ≡ record { status = 200; body = body; request_failures = 0 })
unfolding write_response
write_response-written dns marshal name dns_type l made =
    elim (Option-cases (build_response_body dns marshal dns.rcode_success name dns_type l)) [
      | inl unmade ↦ absurd (made (build_response_body-none dns marshal name dns_type l unmade))
      | inr (body, e) ↦ (body, e, rw (e, write_response) refl)
    ]
