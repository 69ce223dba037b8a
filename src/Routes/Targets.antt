-- ===== src/Routes/Targets.antt =====
-- Where the multiplexer sends a request for a registration.
use mathlib.Core.List.{reverse}
use cf_app_sd_release.Base.{
  List, Str, [], ap, arith, bytes, false, join_with, refl, split_on, split_on-append, split_on-free,
  str_eq, str_eq_iff, str_eq_refl, ℕ, ◌++◌, ◌∙◌, ◌∷◌, ◌≡◌, ◌≢◌,
}
use cf_app_sd_release.Routes.MetricsRecorder.{MetricsRecorder}
use cf_app_sd_release.Routes.Mux.{
  clean_from, clean_path, clean_rooted, ends_in_slash, has_prefix, match_pattern, push_element,
  registration_pattern, serve_mux, target_of, to_registration,
}
use cf_app_sd_release.Routes.Paths.{NoSlash}
use cf_app_sd_release.Routes.Server.{Response}

ends_in_slash_free : (c : ℕ) (s : Str) → NoSlash (c ∷ s) → ends_in_slash (c ∷ s) ≡ false
unfolding ends_in_slash
ends_in_slash_free c [] h = h.0
ends_in_slash_free c (d ∷ s) h = ends_in_slash_free d s h.1

ends_in_slash-append :
    (p name : Str) → name ≢ [] → NoSlash name → ends_in_slash (p ++ b'/' ∷ name) ≡ false
unfolding ends_in_slash
ends_in_slash-append [] [] ne h = absurd (ne refl)
ends_in_slash-append [] (c ∷ s) ne h = ends_in_slash_free c s h
ends_in_slash-append (d ∷ []) name ne h = ends_in_slash-append [] name ne h
ends_in_slash-append (d ∷ e ∷ p) name ne h = ends_in_slash-append (e ∷ p) name ne h

-- A name that a path keeps: one element that is neither empty nor a dot or two.
pub record IsElement (name : Str) : Type 0 where
  pub nonempty : name ≢ []
  pub no_dot : name ≢ bytes "."
  pub no_dots : name ≢ bytes ".."
  pub no_slash : NoSlash name

abbrev path_for : Str → Str
path_for name = bytes "/v1/registration" ++ b'/' ∷ name

twelve : NoSlash (bytes "registration")
twelve = (
  refl,
  (refl, (refl, (refl, (refl, (refl, (refl, (refl, (refl, (refl, (refl, (refl, tt))))))))))),
)

elements :
    (name : Str)
    → NoSlash name
    → split_on b'/' (path_for name) ≡ [] ∷ bytes "v1" ∷ bytes "registration" ∷ name ∷ []
elements name h =
    split_on-append b'/' [] (bytes "v1/registration" ++ b'/' ∷ name) tt
    ∙ ap (◌∷◌ []) (
        split_on-append b'/' (bytes "v1") (bytes "registration" ++ b'/' ∷ name) (refl, (refl, tt))
        ∙ ap (◌∷◌ (bytes "v1")) (
            split_on-append b'/' (bytes "registration") name twelve
            ∙ ap (◌∷◌ (bytes "registration")) (split_on-free b'/' name h)))

push_element-name :
    (stack : List Str) (name : Str) → IsElement name → push_element stack name ≡ name ∷ stack
unfolding push_element
push_element-name stack name h = ground (
  arith,
  str_eq_iff name [],
  str_eq_iff name (bytes "."),
  str_eq_iff name (bytes ".."),
  h.nonempty,
  h.no_dot,
  h.no_dots,
)

cleaned_elements :
    (name : Str)
    → IsElement name
    → clean_from [] ([] ∷ bytes "v1" ∷ bytes "registration" ∷ name ∷ [])
      ≡ bytes "v1" ∷ bytes "registration" ∷ name ∷ []
unfolding clean_from push_element str_eq
cleaned_elements name h =
    ap reverse (push_element-name (bytes "registration" ∷ bytes "v1" ∷ []) name h)

clean_rooted-path_for : (name : Str) → IsElement name → clean_rooted (path_for name) ≡ path_for name
unfolding clean_rooted join_with
clean_rooted-path_for name h =
    ap (λ l. b'/' ∷ join_with b'/' l)
      (ap (clean_from []) (elements name h.no_slash) ∙ cleaned_elements name h)

clean_path-path_for : (name : Str) → IsElement name → clean_path (path_for name) ≡ path_for name
unfolding clean_path
clean_path-path_for name h =
    let kept = clean_rooted-path_for name h in
    let plain = ends_in_slash-append (bytes "/v1/registration") name h.nonempty h.no_slash in
    ground (arith, kept, plain)

longer : (name : Str) → name ≢ [] → str_eq (path_for name ++ b'/' ∷ []) registration_pattern ≡ false
unfolding str_eq
longer [] ne = absurd (ne refl)
longer (c ∷ s) ne = refl

-- A request for `/v1/registration/name` gets to the registration handler, if the name is not empty, has
-- no slash, and is not `.` or `..`.
target_of-registration :
    (name : Str)
    → IsElement name
    → target_of (bytes "/v1/registration" ++ b'/' ∷ name) ≡ to_registration
unfolding target_of match_pattern has_prefix str_eq
target_of-registration name h =
    let kept = clean_path-path_for name h in
    rw (kept, target_of) (rw (longer name h.nonempty, str_eq_refl (path_for name)) refl)

pub serve_mux-registration :
    (registration : Str → Response) (routes : Response) (moved : Str → Str)
    (recorder : MetricsRecorder) (name : Str)
    → IsElement name
    → serve_mux registration routes moved recorder (bytes "/v1/registration" ++ b'/' ∷ name)
      ≡ registration (bytes "/v1/registration" ++ b'/' ∷ name)
unfolding serve_mux
serve_mux-registration registration routes moved recorder name h =
    rw (target_of-registration name h, serve_mux) refl
