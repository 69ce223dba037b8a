-- ===== src/Adapter/Requests.antt =====
-- bosh-dns-adapter/main.go: the HTTP handler, and the response that it builds. The JSON encoder of the
-- answers, the client and the text of its errors, the query's parameters and the constants of the
-- package dnsmessage are parameters. `query key` is the first value of a key, or empty.
use mathlib.Core.Option
use cf_app_sd_release.Adapter.Client.{ClientError, Reply, ips}
use cf_app_sd_release.Base.{
  List, Option, Outcome, Str, [], bytes, if◌then◌else◌, none, not, returns, some, str_eq, ℕ, ◌%◌,
  ◌++◌, ◌>>=◌, ◌^◌, ◌∷◌,
}
use cf_app_sd_release.Populator.Job.{decimal}

pub record DnsMessage : Type 0 where
  pub rcode_success : ℕ
  pub rcode_server_failure : ℕ
  pub type_a : ℕ

pub record Answer : Type 0 where
  pub name : Str
  pub rr_type : ℕ
  pub ttl : ℕ
  pub contents : Str  -- the field `Data`

unfoldable pub get_query_param : (Str → Str) → Str → Str → Str
get_query_param query key default_value =
    let query_value = query key in if str_eq query_value [] then default_value else query_value

-- The parts of the template, between its verbs.
abbrev pub before_status : Str
before_status = bytes "{\n\t\t\"Status\": "

abbrev pub before_name : Str
before_name =
    bytes
      ",\n\t\t\"TC\": false,\n\t\t\"RD\": false,\n\t\t\"RA\": false,\n\t\t\"AD\": false,\n\t\t\"CD\": false,\n\t\t\"Question\":\n\t\t[\n\t\t\t{\n\t\t\t\t\"name\": \""

abbrev pub before_type : Str
before_type = bytes "\",\n\t\t\t\t\"type\": "

abbrev pub before_answer : Str
before_answer = bytes "\n\t\t\t}\n\t\t],\n\t\t\"Answer\": "

abbrev pub after_answer : Str
after_answer = bytes ",\n\t\t\"Additional\": [ ],\n\t\t\"edns_client_subnet\": \"0.0.0.0/0\"\n\t}"

unfoldable pub answers_for : DnsMessage → Str → List Str → List Answer
answers_for dns requested_infra_name [] = []
answers_for dns requested_infra_name (ip ∷ ips) =
    record { name = requested_infra_name; rr_type = dns.type_a % 2 ^ 16; ttl = 0; contents = ip }
    ∷ answers_for dns requested_infra_name ips

-- `none`: the answers could not be encoded.
unfoldable pub build_response_body :
    DnsMessage → (List Answer → Option Str) → ℕ → Str → Str → List Str → Option Str
build_response_body dns marshal status requested_infra_name dns_type ips =
    Option.map
      (λ json.
        before_status
        ++ (decimal status
            ++ (before_name
                ++ (requested_infra_name
                    ++ (before_type ++ (dns_type ++ (before_answer ++ (json ++ after_answer))))))))
      (marshal (answers_for dns requested_infra_name ips))

-- The answer as it goes out: what is not set by a call of `WriteHeader` is status 200. The counter
-- is that of failed requests.
pub record HttpAnswer : Type 0 where
  pub status : ℕ
  pub body : Str
  pub request_failures : ℕ

-- `writeResponse`; if the body cannot be built nothing is written.
unfoldable pub write_response :
    DnsMessage → (List Answer → Option Str) → ℕ → ℕ → Str → Str → List Str → HttpAnswer
write_response dns marshal http_status status name dns_type ips =
    elim (build_response_body dns marshal status name dns_type ips) [
      | none ↦ record { status = http_status; body = []; request_failures = 0 }
      | some text ↦ record { status = http_status; body = text; request_failures = 0 }
    ]

abbrev pub error_prefix : Str
error_prefix = bytes "Error querying Service Discover Controller: "

unfoldable pub get_ips :
    DnsMessage
    → (List Answer → Option Str)
    → (Str → Outcome Reply)
    → (ClientError → Str)
    → (Str → Str)
    → Outcome HttpAnswer
get_ips dns marshal client error_text query =
    let dns_type = get_query_param query (bytes "type") (bytes "1") in
    let name = get_query_param query (bytes "name") [] in
    let asked =
      (client name >>= λ reply. elim reply.error [
        | some e ↦
            returns
              (record { status = 500; body = error_prefix ++ error_text e; request_failures = 1 })
        | none ↦ returns (write_response dns marshal 200 dns.rcode_success name dns_type reply.ips)
      ]) in
    if not (str_eq dns_type (bytes "1"))
    then returns (write_response dns marshal 200 dns.rcode_success name dns_type [])
    else if str_eq name []
    then returns (write_response dns marshal 400 dns.rcode_server_failure name dns_type [])
    else asked
