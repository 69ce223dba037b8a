-- ===== src/Tests/Resolver.antt =====
-- The adapter at concrete inputs.
use cf_app_sd_release.Adapter.Answering.{asked_name, asked_type, get_ips-status}
use cf_app_sd_release.Adapter.Answers.{ips_null, ips_success}
use cf_app_sd_release.Adapter.Client.{Host, Reply, Response, ips, non_successful, registration_url}
use cf_app_sd_release.Adapter.Requests.{
  Answer, DnsMessage, HttpAnswer, build_response_body, get_ips, get_query_param, write_response,
}
use cf_app_sd_release.Adapter.Retries.{AllRefused, Ending, countdown, ips-reply_for, reply_for}
use cf_app_sd_release.Adapter.Shuffle.{count}
use cf_app_sd_release.Base.{
  List, Option, Outcome, Str, [], arith, bytes, if◌then◌else◌, map, none, panics, refl, returns,
  some, str_eq, suc, zero, ℕ, ◌↔◌, ◌∷◌, ◌≡◌,
}

abbrev unavailable : Response
unavailable = record { status_code = 503; body = some [] }

abbrev fine : Str → Response
fine text = record { status_code = 200; body = some text }

-- A controller that answers from the second request on.
abbrev second_time : Str → Str → ℕ → Option Response
second_time text url zero = some unavailable
second_time text url (suc n) = some (fine text)

abbrev two_hosts : List Host
two_hosts = record { ip_address = bytes "10.0.0.1" } ∷ record { ip_address = bytes "10.0.0.2" } ∷ []

-- A decoder that knows two texts.
abbrev host_decoder : Str → Option (Option (List Host))
host_decoder body =
    if str_eq body (bytes "null")
    then some none
    else if str_eq body (bytes "hosts")
    then some (some two_hosts)
    else none

abbrev lowest : ℕ → ℕ
lowest n = 0

abbrev server : Str
server = bytes "https://sdc"

abbrev app_name : Str
app_name = bytes "app.local."

parsed : host_decoder (bytes "hosts") ≡ some (some two_hosts)
unfolding str_eq
parsed = refl

parsed_null : host_decoder (bytes "null") ≡ some none
unfolding str_eq
parsed_null = refl

ips-reply_for_example :
    let g = second_time (bytes "hosts") (registration_url server app_name) in
    (m : ℕ) × AllRefused g m
    × (ending : Ending g m) × (ips (second_time (bytes "hosts")) host_decoder lowest server app_name
        ≡ reply_for host_decoder lowest g m ending)
ips-reply_for_example =
    ips-reply_for (second_time (bytes "hosts")) host_decoder lowest server app_name

ips_success_example :
    (l : List Str) × (ips (second_time (bytes "hosts")) host_decoder lowest server app_name
      ≡ returns (record { ips = l; error = none; closed = countdown 2 }))
    × ((a : Str) → count a l ≡ count a (map (λ h. h.ip_address) two_hosts))
ips_success_example =
    ips_success (second_time (bytes "hosts")) host_decoder lowest server app_name 1
      (fine (bytes "hosts")) (bytes "hosts") two_hosts (omega arith) ((unavailable, refl, refl), tt)
      refl refl refl parsed (λ k h. h)

ips_null_example : ips (second_time (bytes "null")) host_decoder lowest server app_name ≡ panics
ips_null_example =
    ips_null (second_time (bytes "null")) host_decoder lowest server app_name 1
      (fine (bytes "null")) (bytes "null") (omega arith) ((unavailable, refl, refl), tt) refl refl
      refl parsed_null

abbrev dns_constants : DnsMessage
dns_constants = record { rcode_success = 0; rcode_server_failure = 2; type_a = 1 }

-- A client that always fails, and a query without a name.
abbrev failing : Str → Outcome Reply
failing name = returns (record { ips = []; error = some non_successful; closed = [] })

abbrev no_answers : List Answer → Option Str
no_answers l = none

abbrev empty_query : Str → Str
empty_query key = []

abbrev bad_request : HttpAnswer
bad_request = record { status = 400; body = []; request_failures = 0 }

answered_400 : get_ips dns_constants no_answers failing (λ e. []) empty_query ≡ returns bad_request
unfolding get_ips get_query_param write_response build_response_body str_eq
answered_400 = refl

get_ips-status_example :
    ((bad_request.status ≡ 400) ↔ (
      (asked_type dns_constants no_answers failing (λ e. []) empty_query ≡ bytes "1")
      × (asked_name dns_constants no_answers failing (λ e. []) empty_query ≡ [])))
    × ((bad_request.status ≡ 500) ↔ (bad_request.request_failures ≡ 1))
get_ips-status_example =
    get_ips-status dns_constants no_answers failing (λ e. []) empty_query bad_request answered_400
