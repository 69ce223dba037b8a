-- ===== src/Process/Counts.antt =====
-- The requests that the running controller counts.
use cf_app_sd_release.AddressTable.Table.{AddressTable}
use cf_app_sd_release.Base.{
  Bool, Clock, List, Option, Str, [], arith, false, if◌then◌else◌, refl, returns, ℕ, ℤ, ◌++◌, ◌+◌,
  ◌==◌, ◌∷◌, ◌≡◌,
}
use cf_app_sd_release.Mbus.MetricsRecorder.{get_max_since_last_interval}
use cf_app_sd_release.Mbus.Subscriber.{Nats, RegistryMessage}
use cf_app_sd_release.Process.Events.{
  Answering, ProcessEvent, Served, Service, emit, got_request, handle, handle_all, message,
  metrics_emitted, new_service, on_request, prune_next, pruning_section, serve_request,
}
use cf_app_sd_release.Process.Main.{Environment, Stopped, main_with_error, on_signal, stopped}
use cf_app_sd_release.Process.Runs.{connected, started, stopped-end_of}
use cf_app_sd_release.Process.Starting.{stopped-Starts}
use cf_app_sd_release.Routes.MetricsRecorder.{MetricsRecorder, getter}
use cf_app_sd_release.Routes.Mux.{
  Target, moved_permanently, not_found, serve_mux, target_of, to_registration, to_routes,
}
use cf_app_sd_release.Routes.Server.{
  Response, Address, handle_registration_request, handle_routes_request, ok_status,
}
use cf_app_sd_release.Routes.Serving.{handle_registration_request-status}

-- An answer that `RecordRequest` counts: of the registration handler, with its addresses.
unfoldable pub counts : Served → Bool
counts r = elim (target_of r.path) [
  | to_registration ↦ r.status == ok_status
  | to_routes ↦ false
  | moved_permanently ↦ false
  | not_found ↦ false
]

unfoldable pub count_answers : List Served → ℕ
count_answers [] = 0
count_answers (r ∷ rs) = (if counts r then 1 else 0) + count_answers rs

-- The numbers that have been emitted, together.
unfoldable pub emitted_total : List (ℕ × ℤ) → ℕ
emitted_total [] = 0
emitted_total ((n, d) ∷ l) = n + emitted_total l

count_answers-append :
    (l l' : List Served) → count_answers (l ++ l') ≡ count_answers l + count_answers l'
unfolding count_answers
count_answers-append [] l' = omega arith
count_answers-append (r ∷ l) l' = omega (arith, count_answers-append l l')

emitted_total-append :
    (l l' : List (ℕ × ℤ)) → emitted_total (l ++ l') ≡ emitted_total l + emitted_total l'
unfolding emitted_total
emitted_total-append [] l' = omega arith
emitted_total-append ((n, d) ∷ l) l' = omega (arith, emitted_total-append l l')

-- What has been emitted and what is still counted.
abbrev counted : Service → ℕ
counted s = emitted_total s.emitted + s.requests.request_count

handle_routes_request-recorder :
    (marshal : List Address → Option Str) (error_text : Str) (w : Bool) (t : AddressTable)
    (recorder : MetricsRecorder)
    → (handle_routes_request marshal error_text w t recorder).recorder ≡ recorder
unfolding handle_routes_request
handle_routes_request-recorder marshal error_text w t recorder = ground arith

-- The count behind each target, from the count behind the registration handler.
target_count :
    (g : Target) (registration routes moved missing : Response) (recorder : MetricsRecorder)
    → registration.recorder.request_count ≡ (
        if registration.status == ok_status
        then recorder.request_count + 1
        else recorder.request_count)
    → routes.recorder ≡ recorder
    → moved.recorder ≡ recorder
    → missing.recorder ≡ recorder
    → let r : Response = elim g [
      | to_registration ↦ registration
      | to_routes ↦ routes
      | moved_permanently ↦ moved
      | not_found ↦ missing
    ] in
      r.recorder.request_count
      ≡ recorder.request_count
        + (if elim g [
          | to_registration ↦ r.status == ok_status
          | to_routes ↦ false
          | moved_permanently ↦ false
          | not_found ↦ false
        ]
            then 1
            else 0)
target_count to_registration registration routes moved missing recorder a b c d = ground arith
target_count to_routes registration routes moved missing recorder a b c d = ground arith
target_count moved_permanently registration routes moved missing recorder a b c d = ground arith
target_count not_found registration routes moved missing recorder a b c d = ground arith

serve_request-recorder :
    (a : Answering) (t : AddressTable) (recorder : MetricsRecorder) (path : Str) (w : Bool)
    → let r = serve_request a t recorder path w in
      r.recorder.request_count
      ≡ recorder.request_count
        + (if counts (record { path = path; status = r.status; body = r.body }) then 1 else 0)
unfolding serve_request serve_mux counts
serve_request-recorder a t recorder path w =
    let (_, told) =
      handle_registration_request-status a.marshal_registration a.error_text w t recorder path in
    let kept = handle_routes_request-recorder a.marshal_addresses a.error_text w t recorder in
    target_count (target_of path)
      (handle_registration_request a.marshal_registration a.error_text w t recorder path)
      (handle_routes_request a.marshal_addresses a.error_text w t recorder) _ _ recorder told kept
      refl refl

module _ (clock : Clock) (decoder : Str → Option RegistryMessage) (conn : Nats) (options_json : Str)
    (a : Answering) where
  handle-counted :
      (e : ProcessEvent) (s : Service)
      → counted s ≡ count_answers s.answers
      → let u = handle clock decoder conn options_json a e s in counted u ≡ count_answers u.answers
  unfolding handle prune_next on_request emit getter get_max_since_last_interval count_answers
      emitted_total
  handle-counted (message m) s h = h
  handle-counted pruning_section s h = h
  handle-counted (got_request path w) s h =
      let r = serve_request a s.subscriber.table s.requests path w in
      let now : Served = record { path = path; status = r.status; body = r.body } in
      omega (
        arith,
        serve_request-recorder a s.subscriber.table s.requests path w,
        count_answers-append s.answers (now ∷ []),
      )
  handle-counted metrics_emitted s h = omega (
    arith,
    emitted_total-append s.emitted
        ((s.requests.request_count, s.subscriber.recorder.current_max) ∷ []),
  )

  handle_all-counted :
      (es : List ProcessEvent) (s : Service)
      → counted s ≡ count_answers s.answers
      → let u = handle_all clock decoder conn options_json a es s in
        counted u ≡ count_answers u.answers
  unfolding handle_all
  handle_all-counted [] s h = h
  handle_all-counted (e ∷ es) s h =
      handle_all-counted es (handle clock decoder conn options_json a e s) (handle-counted e s h)

-- When the controller ends by a signal, the numbers of requests that its metrics emitted, and the number
-- that its recorder still has, add up to the number of its answers with status 200 to registration
-- requests, whatever order of requests, readings and other events there was.
pub main_with_error-counted :
    (env : Environment) (config_path : Str) (events : List ProcessEvent) (st : Stopped)
    → main_with_error env config_path events ≡ returns (stopped st)
    → emitted_total st.service.emitted + st.service.requests.request_count
      ≡ count_answers st.service.answers
unfolding on_signal new_service emitted_total count_answers
main_with_error-counted env config_path events st end =
    let h = stopped-Starts env config_path events st end in
    rw (stopped-end_of env config_path events st h end) (
      handle_all-counted env.clock env.decode_message (connected env config_path h) h.options_json
        env.answering events (new_service (started env config_path h)) refl)
