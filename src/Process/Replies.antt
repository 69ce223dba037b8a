-- ===== src/Process/Replies.antt =====
-- What the running controller answers to a request for a registration.
use mathlib.Core.List.{append_assoc}
use cf_app_sd_release.AddressTable.Hostname.{fqdn}
use cf_app_sd_release.AddressTable.Table.{lookup_ips, new_address_table}
use cf_app_sd_release.Base.{
  Bool, IsMonotone, List, Str, [], ap, bytes, length, refl, returns, ◌++◌, ◌||◌, ◌∙◌, ◌∷◌, ◌≡◌,
}
use cf_app_sd_release.Process.Answers.{
  IsAnswer, handle_all-answers, handle_all-append, handle_registration_request-content, requests_in,
}
use cf_app_sd_release.Process.Events.{
  ProcessEvent, Served, got_request, handle, handle_all, new_service, on_request, serve_request,
}
use cf_app_sd_release.Process.Main.{Environment, Stopped, main_with_error, on_signal, stopped}
use cf_app_sd_release.Process.Needs.{Starts}
use cf_app_sd_release.Process.Promises.{handled-IsWithin, handled-ips}
use cf_app_sd_release.Process.Runs.{connected, handled, started, started-table, stopped-end_of}
use cf_app_sd_release.Process.Starting.{stopped-Starts}
use cf_app_sd_release.Process.Warmth.{handle_all-warm, warmed}
use cf_app_sd_release.Process.Wiring.{build_address_table}
use cf_app_sd_release.Routes.Paths.{base-append}
use cf_app_sd_release.Routes.Server.{Response, handle_registration_request, handle_routes_request}
use cf_app_sd_release.Routes.Serving.{handle_registration_request-status}
use cf_app_sd_release.Routes.Targets.{IsElement, serve_mux-registration}

module _ (env : Environment) (config_path : Str) (before : List ProcessEvent) where
  handled-warm :
      (h : Starts env config_path)
      → (handled env config_path before h).subscriber.table.warm ≡ warmed before
  unfolding new_service build_address_table new_address_table
  handled-warm h =
      handle_all-warm env.clock env.decode_message (connected env config_path h) h.options_json
        env.answering before (new_service (started env config_path h))
      ∙ ap (λ t. t.warm || warmed before) (started-table env config_path h)

  -- The answer that the handler gives after the events.
  abbrev pub reply : Starts env config_path → Str → Bool → Response
  reply h path w =
      let s = handled env config_path before h in
      serve_request env.answering s.subscriber.table s.requests path w

  abbrev pub reply_served : Starts env config_path → Str → Bool → Served
  reply_served h path w =
      let r = reply h path w in record { path = path; status = r.status; body = r.body }

  reply-registration :
      (h : Starts env config_path) (name : Str) (w : Bool)
      → IsElement name
      → let s = handled env config_path before h in
        reply h (bytes "/v1/registration" ++ b'/' ∷ name) w
        ≡ handle_registration_request env.answering.marshal_registration env.answering.error_text w
            s.subscriber.table s.requests
            (bytes "/v1/registration" ++ b'/' ∷ name)
  unfolding serve_request
  reply-registration h name w el =
      let s = handled env config_path before h in
      serve_mux-registration
        (handle_registration_request env.answering.marshal_registration env.answering.error_text w
          s.subscriber.table s.requests)
        (handle_routes_request env.answering.marshal_addresses env.answering.error_text w
          s.subscriber.table s.requests)
        env.answering.moved s.requests name el

  pub reply-IsAnswer :
      (h : Starts env config_path) (name : Str) (w : Bool)
      → IsMonotone env.clock
      → IsElement name
      → IsAnswer env before name w (reply_served h (bytes "/v1/registration" ++ b'/' ∷ name) w)
  unfolding lookup_ips
  reply-IsAnswer h name w monotone el =
      let s = handled env config_path before h in
      let path = bytes "/v1/registration" ++ b'/' ∷ name in
      let a = env.answering in
      let t = s.subscriber.table in
      let there = base-append (bytes "/v1/registration") name el.nonempty el.no_slash in
      let status =
        rw (there) at
          (handle_registration_request-status a.marshal_registration a.error_text w t s.requests
            path).0 in
      let (content, failure) = rw (there) at (
        handle_registration_request-content a.marshal_registration a.error_text w t s.requests
          path) in
      let same = reply-registration h name w el in
      record {
        addresses = lookup_ips t name;
        announced_all = handled-IsWithin env config_path before h monotone (fqdn name);
        exact = handled-ips env config_path before h (fqdn name);
        ok_iff = rw same (rw (handled-warm h) at status);
        content = rw same content;
        failure = rw same failure;
      }

  -- When the controller ends by a signal, and its clock does not run backwards: to each request for
  -- `/v1/registration/name` that it got, with a name that is not empty, has no slash and is not `.` or
  -- `..`, it gave one answer, in the order of the requests. The status is 200 exactly if the warming
  -- duration was over before the request and the addresses could be encoded, and 500 otherwise. The body
  -- with status 200 is the encoding of the addresses, or empty if writing failed. The addresses are only
  -- such as the messages before the request announce for the name, and exactly those if no section of the
  -- pruning goroutine ran before.
  pub main_with_error-IsAnswer :
      (after : List ProcessEvent) (name : Str) (w : Bool) (st : Stopped)
      → IsMonotone env.clock
      → IsElement name
      → main_with_error env config_path
          (before ++ got_request (bytes "/v1/registration" ++ b'/' ∷ name) w ∷ after)
        ≡ returns (stopped st)
      → (earlier later : List Served) × (r : Served) × (st.service.answers ≡ earlier ++ r ∷ later)
        × (length earlier ≡ requests_in before)
        × (length later ≡ requests_in after)
        × (r.path ≡ bytes "/v1/registration" ++ b'/' ∷ name)
        × IsAnswer env before name w r
  unfolding on_signal handle_all handle on_request new_service
  main_with_error-IsAnswer after name w st monotone el end =
      let path = bytes "/v1/registration" ++ b'/' ∷ name in
      let events = before ++ got_request path w ∷ after in
      let h = stopped-Starts env config_path events st end in
      let conn = connected env config_path h in
      let s = handled env config_path before h in
      let r = reply_served h path w in
      let (earlier, e, n) =
        handle_all-answers env.clock env.decode_message conn h.options_json env.answering before
          (new_service (started env config_path h)) in
      let (later, e', n') =
        handle_all-answers env.clock env.decode_message conn h.options_json env.answering after
          (on_request env.answering path w s) in
      let split =
        handle_all-append env.clock env.decode_message conn h.options_json env.answering before
          (got_request path w ∷ after) (new_service (started env config_path h)) in
      let all =
        ap (λ q. q.service.answers) (stopped-end_of env config_path events st h end)
        ∙ ap (λ q. q.answers) split
        ∙ e'
        ∙ ap (λ l. (l ++ r ∷ []) ++ later) e
        ∙ append_assoc earlier (r ∷ []) later in
      (earlier, later, r, all, n, n', refl, reply-IsAnswer h name w monotone el)
