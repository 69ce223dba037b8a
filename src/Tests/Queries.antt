-- ===== src/Tests/Queries.antt =====
-- A DNS query about the running controller at concrete inputs.
use cf_app_sd_release.Adapter.Answering.{asked_name, asked_type}
use cf_app_sd_release.Adapter.Client.{ClientError, Reply, non_successful}
use cf_app_sd_release.Adapter.Requests.{
  Answer, DnsMessage, HttpAnswer, error_prefix, get_ips, get_query_param,
}
use cf_app_sd_release.Adapter.Retries.{countdown}
use cf_app_sd_release.Base.{
  List, Option, Outcome, Str, [], arith, bytes, false, if◌then◌else◌, none, refl, returns, some,
  str_eq, suc, true, zero, ℕ, ◌++◌, ◌<◌, ◌∷◌, ◌≡◌, ◌≢◌,
}
use cf_app_sd_release.Process.Events.{ProcessEvent, message}
use cf_app_sd_release.Process.Messages.{got_register, warming_over}
use cf_app_sd_release.Process.Warmth.{warmed, warms_now}
use cf_app_sd_release.Resolving.Resolved.{IsResolved, client_at, get_ips-announced, get_ips-cold}
use cf_app_sd_release.Tests.Chain.{encoder, reader, round_trip}
use cf_app_sd_release.Tests.Requests.{internal-IsElement}
use cf_app_sd_release.Tests.Startup.{all_is_there, machine}
use cf_app_sd_release.Tests.Table.{ticking-IsMonotone}

abbrev registered_and_warm : List ProcessEvent
registered_and_warm = message (got_register (bytes "body")) ∷ message warming_over ∷ []

abbrev only_registered : List ProcessEvent
only_registered = message (got_register (bytes "body")) ∷ []

-- The warming duration ends between the first request and the second.
abbrev warms_between : ℕ → List ProcessEvent
warms_between zero = only_registered
warms_between (suc n) = registered_and_warm

abbrev path_of_app : Str → Str
path_of_app url = bytes "/v1/registration" ++ b'/' ∷ bytes "app.internal"

abbrev lowest_index : ℕ → ℕ
lowest_index n = 0

abbrev constants : DnsMessage
constants = record { rcode_success = 0; rcode_server_failure = 2; type_a = 1 }

abbrev contents_of : List Answer → Option Str
contents_of [] = some []
contents_of (a ∷ l) = some a.contents

contents_of-made : (l : List Answer) → contents_of l ≢ none
contents_of-made [] = λ e. cc
contents_of-made (a ∷ l) = λ e. cc

abbrev app_query : Str → Str
app_query key = if str_eq key (bytes "name") then bytes "app.internal" else []

abbrev no_text : ClientError → Str
no_text e = []

warm_now : warmed registered_and_warm ≡ true
unfolding warmed warms_now
warm_now = refl

not_warm : warmed only_registered ≡ false
unfolding warmed warms_now
not_warm = refl

cold_before : (n : ℕ) → n < 1 → warmed (warms_between n) ≡ false
cold_before zero lt = not_warm
cold_before (suc n) lt = absurd (omega arith)

abbrev adapter_client : (ℕ → List ProcessEvent) → Str → Outcome Reply
adapter_client moments =
    client_at machine (bytes "config.json") moments all_is_there encoder reader path_of_app
      lowest_index (bytes "https://sdc")

type_asked :
    (moments : ℕ → List ProcessEvent)
    → asked_type constants contents_of (adapter_client moments) no_text app_query ≡ bytes "1"
unfolding get_query_param str_eq
type_asked moments = refl

name_asked :
    (moments : ℕ → List ProcessEvent)
    → asked_name constants contents_of (adapter_client moments) no_text app_query
      ≡ bytes "app.internal"
unfolding get_query_param str_eq
name_asked moments = refl

get_ips-announced_example :
    (a : HttpAnswer) × (get_ips constants contents_of
        (adapter_client warms_between)
        no_text
        app_query
      ≡ returns a)
    × IsResolved machine registered_and_warm constants contents_of (bytes "app.internal") a
get_ips-announced_example =
    get_ips-announced machine (bytes "config.json") warms_between all_is_there encoder reader
      path_of_app lowest_index (bytes "https://sdc") constants contents_of no_text app_query
      (bytes "app.internal") 1 ticking-IsMonotone (λ r. refl) contents_of-made round_trip refl
      (λ k h. h) (omega arith) cold_before warm_now internal-IsElement (type_asked warms_between)
      (name_asked warms_between)

abbrev always_cold : ℕ → List ProcessEvent
always_cold n = only_registered

get_ips-cold_example :
    (adapter_client always_cold (bytes "app.internal")
      ≡ returns (record { ips = []; error = some non_successful; closed = countdown 4 }))
    × (get_ips constants contents_of (adapter_client always_cold) no_text app_query
        ≡ returns (record {
          status = 500;
          body = error_prefix ++ no_text non_successful;
          request_failures = 1;
        }))
get_ips-cold_example =
    get_ips-cold machine (bytes "config.json") always_cold all_is_there encoder reader path_of_app
      lowest_index (bytes "https://sdc") constants contents_of no_text app_query
      (bytes "app.internal") ticking-IsMonotone refl (λ n lt. not_warm) internal-IsElement
      (type_asked always_cold) (name_asked always_cold)
