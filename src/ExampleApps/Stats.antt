-- ===== src/ExampleApps/Stats.antt =====
-- example-apps/proxy/handlers/stats_handler.go, which example-apps/diglett has a copy of. The type of the
-- latencies, a float64, and the JSON encoder are parameters.
use cf_app_sd_release.Base.{
  List, Option, Outcome, Str, [], bytes, if◌then◌else◌, none, panics, returns, some, str_eq, ℕ,
  ◌++◌, ◌∷◌,
}

-- A response, with its status 200 if it was not set.
pub record AppResponse : Type 0 where
  pub status : ℕ
  pub body : Str

pub record Stats (F : Type 0) : Type 0 where
  pub latency : List F

module _ {F : Type 0} where
  unfoldable pub add_latency : F → Stats F → Stats F
  add_latency latency s = record { latency = s.latency ++ latency ∷ [] }

  unfoldable pub clear : Stats F → Stats F
  clear s = record { latency = [] }

  abbrev pub get_latency : Stats F → List F
  get_latency s = s.latency

  unfoldable pub serve_stats :
      (Stats F → Option Str) → Str → Stats F → Outcome (Stats F × AppResponse)
  unfolding clear
  serve_stats marshal method s =
      let shown : Outcome (Stats F × AppResponse) = elim (marshal s) [
        | none ↦ panics
        | some resp_bytes ↦ returns (s, record { status = 200; body = resp_bytes })
      ] in
      if str_eq method (bytes "DELETE")
      then returns (clear s, record { status = 200; body = [] })
      else shown
