-- ===== src/Process/Answers.antt =====
-- The answers of the running controller.
use mathlib.Core.List.{append-nil, append_assoc}
use cf_app_sd_release.AddressTable.Addresses.{member}
use cf_app_sd_release.AddressTable.Hostname.{fqdn}
use cf_app_sd_release.AddressTable.Table.{AddressTable, is_warm, lookup_ips}
use cf_app_sd_release.Base.{
  All, Bool, Clock, List, Option, Str, [], arith, if◌then◌else◌, length, none, refl, some, sym,
  true, ℕ, ◌++◌, ◌+◌, ◌↔◌, ◌∙◌, ◌∷◌, ◌≡◌, ◌≢◌,
}
use cf_app_sd_release.Routes.MetricsRecorder.{MetricsRecorder}
use cf_app_sd_release.Mbus.Subscriber.{Nats, RegistryMessage}
use cf_app_sd_release.Process.Announced.{announced}
use cf_app_sd_release.Process.Events.{
  Answering, ProcessEvent, Served, Service, emit, got_request, handle, handle_all, message,
  metrics_emitted, on_request, prune_next, pruning_section, serve_request,
}
use cf_app_sd_release.Process.Main.{Environment}
use cf_app_sd_release.Process.Promises.{empty_view}
use cf_app_sd_release.Process.Warmth.{warmed}
use cf_app_sd_release.Routes.Server.{
  Registration, base, handle_registration_request, internal_server_error, ok_status,
  write_registration,
}
use cf_app_sd_release.Routes.Serving.{registration_of}

-- The requests among the events.
unfoldable pub requests_in : List ProcessEvent → ℕ
requests_in [] = 0
requests_in (message m ∷ es) = requests_in es
requests_in (pruning_section ∷ es) = requests_in es
requests_in (got_request path w ∷ es) = 1 + requests_in es
requests_in (metrics_emitted ∷ es) = requests_in es

-- An answer to a request for `name`, after the events `before`.
pub record IsAnswer (env : Environment) (before : List ProcessEvent) (name : Str)
    (write_fails : Bool) (r : Served) : Type 0 where
  pub addresses : List Str
  pub announced_all :
      (ip : Str)
      → member ip addresses ≡ true
      → member ip (announced env.decode_message empty_view before (fqdn name)) ≡ true
  pub exact :
      All (λ e. e ≢ pruning_section) before
      → addresses ≡ announced env.decode_message empty_view before (fqdn name)
  pub ok_iff : (r.status ≡ ok_status) ↔ (
      (warmed before ≡ true)
      × (env.answering.marshal_registration (registration_of addresses) ≢ none))
  pub content :
      (json : Str)
      → r.status ≡ ok_status
      → env.answering.marshal_registration (registration_of addresses) ≡ some json
      → r.body ≡ (if write_fails then [] else json)
  pub failure : r.status ≢ ok_status → r.status ≡ internal_server_error

pub handle_registration_request-content :
    (marshal : Registration → Option Str) (error_text : Str) (w : Bool) (t : AddressTable)
    (recorder : MetricsRecorder) (url_path : Str)
    → let r = handle_registration_request marshal error_text w t recorder url_path in
      ((json : Str)
        → r.status ≡ ok_status
        → marshal (registration_of (lookup_ips t (base url_path))) ≡ some json
        → r.body ≡ (if w then [] else json))
      × (r.status ≢ ok_status → r.status ≡ internal_server_error)
unfolding handle_registration_request write_registration is_warm
handle_registration_request-content marshal error_text w t recorder url_path =
    (λ json ok e. ground arith, λ bad. ground arith)

module _ (clock : Clock) (decoder : Str → Option RegistryMessage) (conn : Nats) (options_json : Str)
    (a : Answering) where
  pub handle_all-append :
      (es fs : List ProcessEvent) (s : Service)
      → handle_all clock decoder conn options_json a (es ++ fs) s
        ≡ handle_all clock decoder conn options_json a fs
            (handle_all clock decoder conn options_json a es s)
  unfolding handle_all
  handle_all-append [] fs s = refl
  handle_all-append (e ∷ es) fs s =
      handle_all-append es fs (handle clock decoder conn options_json a e s)

  -- Answers are only added, one for each request.
  pub handle_all-answers :
      (es : List ProcessEvent) (s : Service)
      → (later : List Served) × ((handle_all clock decoder conn options_json a es s).answers
          ≡ s.answers ++ later)
        × (length later ≡ requests_in es)
  unfolding handle_all handle prune_next on_request emit requests_in
  handle_all-answers [] s = ([], sym (append-nil s.answers), refl)
  handle_all-answers (message m ∷ es) s =
      handle_all-answers es (handle clock decoder conn options_json a (message m) s)
  handle_all-answers (pruning_section ∷ es) s =
      handle_all-answers es (handle clock decoder conn options_json a pruning_section s)
  handle_all-answers (got_request path w ∷ es) s =
      let r = serve_request a s.subscriber.table s.requests path w in
      let now : Served = record { path = path; status = r.status; body = r.body } in
      let (later, e, n) =
        handle_all-answers es (handle clock decoder conn options_json a (got_request path w) s) in
      (now ∷ later, e ∙ append_assoc s.answers (now ∷ []) later, omega (arith, n))
  handle_all-answers (metrics_emitted ∷ es) s =
      handle_all-answers es (handle clock decoder conn options_json a metrics_emitted s)
