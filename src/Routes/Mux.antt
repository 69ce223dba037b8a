-- ===== src/Routes/Mux.antt =====
-- service-discovery-controller/routes/server.go: the request multiplexer that `Run` sets up, with
-- `net/http`'s rules for its two patterns.
use mathlib.Core.List.{reverse, tail}
use cf_app_sd_release.Base.{
  Bool, List, Str, [], bytes, false, if◌then◌else◌, join_with, not, split_on, str_eq, true, ◌&&◌,
  ◌++◌, ◌==◌, ◌||◌, ◌∷◌,
}
use cf_app_sd_release.Routes.MetricsRecorder.{MetricsRecorder}
use cf_app_sd_release.Routes.Server.{Response}

-- One element of a rooted path, in `path.Clean`; the stack has the last element first.
unfoldable pub push_element : List Str → Str → List Str
push_element stack part =
    if str_eq part [] || str_eq part (bytes ".")
    then stack
    else if str_eq part (bytes "..")
    then tail stack
    else part ∷ stack

unfoldable pub clean_from : List Str → List Str → List Str
unfolding push_element
clean_from stack [] = reverse stack
clean_from stack (part ∷ parts) = clean_from (push_element stack part) parts

unfoldable pub ends_in_slash : Str → Bool
ends_in_slash [] = false
ends_in_slash (c ∷ []) = c == b'/'
ends_in_slash (c ∷ d ∷ s) = ends_in_slash (d ∷ s)

-- `path.Clean` of a path that starts with a slash.
unfoldable pub clean_rooted : Str → Str
unfolding clean_from
clean_rooted path = b'/' ∷ join_with b'/' (clean_from [] (split_on b'/' path))

-- `cleanPath`
unfoldable pub clean_path : Str → Str
unfolding clean_rooted
clean_path [] = bytes "/"
clean_path (c ∷ s) =
    let cleaned = clean_rooted (if c == b'/' then c ∷ s else b'/' ∷ c ∷ s) in
    if ends_in_slash (c ∷ s) && not (str_eq cleaned (bytes "/"))
    then cleaned ++ b'/' ∷ []
    else cleaned

unfoldable pub has_prefix : Str → Str → Bool
has_prefix [] s = true
has_prefix (c ∷ p) [] = false
has_prefix (c ∷ p) (d ∷ s) = c == d && has_prefix p s

pub data Target : Type 0 where
  to_registration to_routes moved_permanently not_found : Target

abbrev pub registration_pattern : Str
registration_pattern = bytes "/v1/registration/"

abbrev pub routes_pattern : Str
routes_pattern = bytes "/routes"

-- The patterns for a clean path.
unfoldable pub match_pattern : Str → Target
match_pattern path =
    if str_eq path routes_pattern
    then to_routes
    else if has_prefix registration_pattern path
    then to_registration
    else not_found

-- A path that is not clean, or lacks only the slash of a pattern, is redirected.
unfoldable pub target_of : Str → Target
target_of path =
    let cleaned = clean_path path in
    if str_eq (cleaned ++ b'/' ∷ []) registration_pattern
    then moved_permanently
    else if str_eq cleaned path
    then match_pattern path
    else moved_permanently

-- The multiplexer as a handler. `moved` is the text of a redirection.
unfoldable pub serve_mux :
    (Str → Response) → Response → (Str → Str) → MetricsRecorder → Str → Response
serve_mux registration routes moved recorder path = elim (target_of path) [
  | to_registration ↦ registration path
  | to_routes ↦ routes
  | moved_permanently ↦ record { status = 301; body = moved path; recorder = recorder }
  | not_found ↦ record { status = 404; body = bytes "404 page not found\n"; recorder = recorder }
]
