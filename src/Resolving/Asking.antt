-- ===== src/Resolving/Asking.antt =====
-- The adapter's client at the running controller.
use mathlib.Core.Bool.{false≢true}
use cf_app_sd_release.Adapter.Answers.{ips_success}
use cf_app_sd_release.Adapter.Client.{Host, Reply, Response, ips, registration_url}
use cf_app_sd_release.Adapter.Retries.{AllRefused, Refused, countdown}
use cf_app_sd_release.Adapter.Shuffle.{count}
use cf_app_sd_release.Base.{
  IsMonotone, List, Option, Outcome, Str, ap, arith, bytes, false, none, refl, returns, some, suc,
  sym, true, zero, ℕ, ◌++◌, ◌<◌, ◌∙◌, ◌∷◌, ◌≡◌,
}
use cf_app_sd_release.EndToEnd.{get_from, hosts_of, ips_of_hosts}
use cf_app_sd_release.Process.Answers.{IsAnswer}
use cf_app_sd_release.Process.Events.{ProcessEvent}
use cf_app_sd_release.Process.Main.{Environment}
use cf_app_sd_release.Process.Needs.{Starts}
use cf_app_sd_release.Process.Replies.{reply, reply-IsAnswer, reply_served}
use cf_app_sd_release.Process.Warmth.{warmed}
use cf_app_sd_release.Routes.Server.{Registration, internal_server_error, ok_status}
use cf_app_sd_release.Routes.Serving.{registration_of}
use cf_app_sd_release.Routes.Targets.{IsElement}

module _ (env : Environment) (config_path : Str) (moments : ℕ → List ProcessEvent)
    (h : Starts env config_path) (encode : Registration → Str)
    (unmarshal : Str → Option (Option (List Host))) (path_of : Str → Str) (intn : ℕ → ℕ)
    (server_url : Str) where
  -- The requests of the client: the controller answers the one with number `n` as it does after the
  -- events `moments n`.
  abbrev pub asked_when : Str → ℕ → Option Response
  asked_when url n = get_from path_of (λ path. reply env config_path (moments n) h path false) url n

  abbrev pub client_of : Str → Outcome Reply
  client_of = ips asked_when unmarshal intn server_url

  abbrev path_for : Str → Str
  path_for name = bytes "/v1/registration" ++ b'/' ∷ name

  asked_when-reply :
      (name : Str) (n status : ℕ) (body : Str)
      → path_of (registration_url server_url name) ≡ path_for name
      → (reply env config_path (moments n) h (path_for name) false).status ≡ status
      → (reply env config_path (moments n) h (path_for name) false).body ≡ body
      → asked_when (registration_url server_url name) n
        ≡ some (record { status_code = status; body = some body })
  unfolding get_from
  asked_when-reply name n status body at same same' = rw (at) (
      ap
        (λ c. some (record {
          status_code = c;
          body = some (reply env config_path (moments n) h (path_for name) false).body;
        }))
        same
      ∙ ap (λ b. some (record { status_code = status; body = some b })) same')

  -- A request before the end of the warming duration is refused.
  cold-Refused :
      (name : Str) (n : ℕ)
      → IsMonotone env.clock
      → IsElement name
      → path_of (registration_url server_url name) ≡ path_for name
      → warmed (moments n) ≡ false
      → Refused (asked_when (registration_url server_url name)) n
  cold-Refused name n monotone el at cold =
      let told = reply-IsAnswer env config_path (moments n) h name false monotone el in
      let not_ok =
        λ (ok : (reply env config_path (moments n) h (path_for name) false).status ≡ ok_status).
          false≢true (sym cold ∙ (told.ok_iff.0 ok).0) in
      let bad = told.failure not_ok in
      (
        record {
          status_code = internal_server_error;
          body = some (reply env config_path (moments n) h (path_for name) false).body;
        },
        asked_when-reply name n internal_server_error _ at bad refl,
        refl,
      )

  pub cold-AllRefused :
      (name : Str) (m : ℕ)
      → IsMonotone env.clock
      → IsElement name
      → path_of (registration_url server_url name) ≡ path_for name
      → ((n : ℕ) → n < m → warmed (moments n) ≡ false)
      → AllRefused (asked_when (registration_url server_url name)) m
  cold-AllRefused name zero monotone el at cold = tt
  cold-AllRefused name (suc m) monotone el at cold = (
    cold-Refused name m monotone el at (cold m (omega arith)),
    cold-AllRefused name m monotone el at (λ n lt. cold n (omega (arith, lt))),
  )

  pub client-addresses :
      (name : Str) (m : ℕ)
      → IsMonotone env.clock
      → IsElement name
      → ((r : Registration) → env.answering.marshal_registration r ≡ some (encode r))
      → ((l : List Str) → unmarshal (encode (registration_of l)) ≡ some (some (hosts_of l)))
      → path_of (registration_url server_url name) ≡ path_for name
      → ((k : ℕ) → 0 < k → intn k < k)
      → m < 4
      → ((n : ℕ) → n < m → warmed (moments n) ≡ false)
      → warmed (moments m) ≡ true
      → (told : IsAnswer env
          (moments m)
          name
          false
          (reply_served env config_path (moments m) h (path_for name) false))
      → (l : List Str) × (client_of name
          ≡ returns (record { ips = l; error = none; closed = countdown (suc m) }))
        × ((ip : Str) → count ip l ≡ count ip told.addresses)
  client-addresses name m monotone el enc dec at range lt cold warm told =
      let text = encode (registration_of told.addresses) in
      let encoded = enc (registration_of told.addresses) in
      let ok = told.ok_iff.1 (warm, λ none_made. ground (arith, encoded)) in
      let got = asked_when-reply name m ok_status text at ok (told.content text ok encoded) in
      let (l, same, counts) =
        ips_success asked_when unmarshal intn server_url name m
          (record { status_code = ok_status; body = some text }) text (hosts_of told.addresses) lt
          (cold-AllRefused name m monotone el at cold) got refl refl (dec told.addresses) range in
      (l, same, λ ip. counts ip ∙ ap (count ip) (ips_of_hosts told.addresses))
