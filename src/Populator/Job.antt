-- ===== src/Populator/Job.antt =====
-- route_populator/publisher/publisher.go: `Job`, `RouteData` and the messages of a job.
use cf_app_sd_release.Base.{
  Bool, List, Option, Str, [], arith, false, if◌then◌else◌, leb, ltb, negsuc, none, pos, some,
  str_eq, str_eq_iff, suc, zero, ℕ, ℤ, ◌%◌, ◌++◌, ◌+◌, ◌/◌, ◌<◌, ◌==◌, ◌↔◌, ◌∷◌, ◌≡◌, ◌≢◌,
}

pub record Job : Type 0 where
  pub publishing_endpoint : Str
  pub backend_host : Str
  pub backend_port : ℤ
  pub app_domain : Str
  pub app_name : Str
  pub start_range : ℕ
  pub end_range : ℕ

-- The text behind `Invalid job properties:`, by the field that it names.
pub data Invalid : Type 0 where
  missing_app_domain missing_backend_host missing_backend_port missing_app_name : Invalid
  invalid_range : Invalid

unfoldable pub is_zero : ℤ → Bool
is_zero (pos n) = n == 0
is_zero (negsuc n) = false

-- `none` is the nil error. The first test reports the wrong field, as the source does.
unfoldable pub validate : Job → Option Invalid
validate j =
    if str_eq j.publishing_endpoint []
    then some missing_app_domain
    else if str_eq j.backend_host []
    then some missing_backend_host
    else if is_zero j.backend_port
    then some missing_backend_port
    else if str_eq j.app_domain []
    then some missing_app_domain
    else if str_eq j.app_name []
    then some missing_app_name
    else if leb j.end_range j.start_range
    then some invalid_range
    else none

pub record RouteData : Type 0 where
  pub host : Str
  pub port : ℤ
  pub uris : List Str

-- `%d`: decimal digits, with as many rounds as the number itself, which are enough.
unfoldable pub digits_from : ℕ → ℕ → Str → Str
digits_from zero n acc = acc
digits_from (suc fuel) n acc =
    let rest = digits_from fuel (n / 10) ((n % 10 + b'0') ∷ acc) in
    if ltb n 10 then (n + b'0') ∷ acc else rest

unfoldable pub decimal : ℕ → Str
unfolding digits_from
decimal n = digits_from (suc n) n []

-- `fmt.Sprintf("%s-%d.%s", p.job.AppName, i, p.job.AppDomain)`
unfoldable pub uri : Job → ℕ → Str
uri j i = j.app_name ++ (b'-' ∷ (decimal i ++ (b'.' ∷ j.app_domain)))

unfoldable pub route_data : Job → ℕ → RouteData
unfolding uri
route_data j i = record { host = j.backend_host; port = j.backend_port; uris = uri j i ∷ [] }

-- A job passes exactly if all its texts are given, the port is not 0 and the range is not empty.
pub validate_iff :
    (j : Job)
    → (validate j ≡ none) ↔ (
        (j.publishing_endpoint ≢ [])
        × (j.backend_host ≢ [])
        × (j.backend_port ≢ pos 0)
        × (j.app_domain ≢ [])
        × (j.app_name ≢ [])
        × (j.start_range < j.end_range))
unfolding validate is_zero
validate_iff j =
    let a = str_eq_iff j.publishing_endpoint [] in
    let b = str_eq_iff j.backend_host [] in
    let c = str_eq_iff j.app_domain [] in
    let d = str_eq_iff j.app_name [] in
    (λ h. ground (arith, a, b, c, d), λ h. ground (arith, a, b, c, d))
