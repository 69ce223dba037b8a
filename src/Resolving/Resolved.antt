-- ===== src/Resolving/Resolved.antt =====
-- The adapter's answer to a query, from the running controller's answers to its client.
use cf_app_sd_release.Adapter.Answering.{
  asked_name, asked_type, get_ips-failed, get_ips-found, write_response-written,
}
use cf_app_sd_release.Adapter.Answers.{ips-refused}
use cf_app_sd_release.Adapter.Client.{ClientError, Host, Reply, non_successful, registration_url}
use cf_app_sd_release.Adapter.Requests.{
  Answer, DnsMessage, HttpAnswer, answers_for, build_response_body, error_prefix, get_ips,
}
use cf_app_sd_release.Adapter.Retries.{countdown}
use cf_app_sd_release.Adapter.Shuffle.{count}
use cf_app_sd_release.AddressTable.Addresses.{member}
use cf_app_sd_release.AddressTable.Hostname.{fqdn}
use cf_app_sd_release.Base.{
  All, IsMonotone, List, Option, Outcome, Str, [], ap, arith, bytes, false, none, refl, returns,
  some, suc, true, ℕ, ◌++◌, ◌<◌, ◌∙◌, ◌∷◌, ◌≡◌, ◌≢◌,
}
use cf_app_sd_release.EndToEnd.{hosts_of}
use cf_app_sd_release.Process.Announced.{announced}
use cf_app_sd_release.Process.Events.{ProcessEvent, pruning_section}
use cf_app_sd_release.Process.Main.{Environment}
use cf_app_sd_release.Process.Needs.{Starts}
use cf_app_sd_release.Process.Promises.{empty_view}
use cf_app_sd_release.Process.Replies.{reply-IsAnswer}
use cf_app_sd_release.Process.Warmth.{warmed}
use cf_app_sd_release.Resolving.Asking.{asked_when, client-addresses, client_of, cold-AllRefused}
use cf_app_sd_release.Routes.Server.{Registration}
use cf_app_sd_release.Routes.Serving.{registration_of}
use cf_app_sd_release.Routes.Targets.{IsElement}

-- The handler's answer to a query for `name`, with the addresses it is made from.
pub record IsResolved (env : Environment) (before : List ProcessEvent) (dns : DnsMessage)
    (marshal : List Answer → Option Str) (name : Str) (a : HttpAnswer) : Type 0 where
  pub addresses : List Str
  pub ok : a.status ≡ 200
  pub no_failure : a.request_failures ≡ 0
  pub written :
      build_response_body dns marshal dns.rcode_success name (bytes "1") addresses ≡ some a.body
  pub announced_all :
      (ip : Str)
      → 0 < count ip addresses
      → member ip (announced env.decode_message empty_view before (fqdn name)) ≡ true
  pub exact :
      All (λ e. e ≢ pruning_section) before
      → (ip : Str)
      → count ip addresses ≡ count ip (announced env.decode_message empty_view before (fqdn name))

count-member : (ip : Str) (l : List Str) → 0 < count ip l → member ip l ≡ true
unfolding count member
count-member ip [] h = absurd (omega arith)
count-member ip (a ∷ l) h = ground (arith, count-member ip l)

module _ (env : Environment) (config_path : Str) (moments : ℕ → List ProcessEvent)
    (h : Starts env config_path) (encode : Registration → Str)
    (unmarshal : Str → Option (Option (List Host))) (path_of : Str → Str) (intn : ℕ → ℕ)
    (server_url : Str) where
  -- The client that asks the controller at these moments.
  abbrev pub client_at : Str → Outcome Reply
  client_at = client_of env config_path moments h encode unmarshal path_of intn server_url

  -- Let a controller that started have got the events `moments n` when it answers the request with number
  -- `n` of the adapter's client. If its warming duration is over at one of the first four requests, then
  -- the adapter's handler answers an A query for `name` with status 200 and without counting a failure,
  -- from the answer to the first such request: the addresses are only such as the messages until then
  -- announce for the name, and exactly those, in some order, if no section of the pruning goroutine ran.
  -- The hypotheses on what is not in the sources: the clock does not run backwards, encoding succeeds,
  -- the adapter's decoder reads back the addresses, the path of the request's URL is the expected one,
  -- and the random source keeps to its range; the name is not empty, has no slash, and is not `.` or
  -- `..`.
  pub get_ips-announced :
      (dns : DnsMessage) (marshal : List Answer → Option Str) (error_text : ClientError → Str)
      (query : Str → Str) (name : Str) (m : ℕ)
      → IsMonotone env.clock
      → ((r : Registration) → env.answering.marshal_registration r ≡ some (encode r))
      → ((l : List Answer) → marshal l ≢ none)
      → ((l : List Str) → unmarshal (encode (registration_of l)) ≡ some (some (hosts_of l)))
      → path_of (registration_url server_url name) ≡ bytes "/v1/registration" ++ b'/' ∷ name
      → ((k : ℕ) → 0 < k → intn k < k)
      → m < 4
      → ((n : ℕ) → n < m → warmed (moments n) ≡ false)
      → warmed (moments m) ≡ true
      → IsElement name
      → asked_type dns marshal client_at error_text query ≡ bytes "1"
      → asked_name dns marshal client_at error_text query ≡ name
      → (a : HttpAnswer) × (get_ips dns marshal client_at error_text query ≡ returns a)
        × IsResolved env (moments m) dns marshal name a
  get_ips-announced dns marshal error_text query name m monotone enc written dec at range lt cold
        warm el is_a named =
      let told = reply-IsAnswer env config_path (moments m) h name false monotone el in
      let (l, found, same) =
        client-addresses env config_path moments h encode unmarshal path_of intn server_url name m
          monotone el enc dec at range lt cold warm told in
      let (body, made, wrote) =
        write_response-written dns marshal name (bytes "1") l (written (answers_for dns name l)) in
      let asked =
        get_ips-found dns marshal client_at error_text query name l (countdown (suc m)) is_a named
          el.nonempty found in
      (
        record { status = 200; body = body; request_failures = 0 },
        asked ∙ ap returns wrote,
        record {
          addresses = l;
          ok = refl;
          no_failure = refl;
          written = made;
          announced_all = λ ip there.
              told.announced_all ip (count-member ip told.addresses (rw (same ip) at there));
          exact = λ quiet ip. same ip ∙ ap (count ip) (told.exact quiet);
        },
      )

  -- If the warming duration is not over at any of the four requests, then the handler answers an A query
  -- for such a name with status 500 and the text of the error, and counts one failure; the client has
  -- closed all four responses.
  pub get_ips-cold :
      (dns : DnsMessage) (marshal : List Answer → Option Str) (error_text : ClientError → Str)
      (query : Str → Str) (name : Str)
      → IsMonotone env.clock
      → path_of (registration_url server_url name) ≡ bytes "/v1/registration" ++ b'/' ∷ name
      → ((n : ℕ) → n < 4 → warmed (moments n) ≡ false)
      → IsElement name
      → asked_type dns marshal client_at error_text query ≡ bytes "1"
      → asked_name dns marshal client_at error_text query ≡ name
      → (client_at name
          ≡ returns (record { ips = []; error = some non_successful; closed = countdown 4 }))
        × (get_ips dns marshal client_at error_text query
            ≡ returns (record {
              status = 500;
              body = error_prefix ++ error_text non_successful;
              request_failures = 1;
            }))
  get_ips-cold dns marshal error_text query name monotone at cold el is_a named =
      let refused =
        ips-refused (asked_when env config_path moments h encode unmarshal path_of intn server_url)
          unmarshal intn server_url name
          (cold-AllRefused env config_path moments h encode unmarshal path_of intn server_url name 4
            monotone el at cold) in
      (
        refused,
        get_ips-failed dns marshal client_at error_text query name non_successful (countdown 4) is_a
            named el.nonempty refused,
      )
