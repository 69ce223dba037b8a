-- ===== src/ExampleApps/Digging.antt =====
-- example-apps/diglett/main.go: the server that `launchHandler` starts, and the loop over the ticks. The
-- handlers are copies of those of the proxy. The command dig, by the number of the tick, the regular
-- expressions and the JSON encoders are parameters.
use cf_app_sd_release.Base.{
  Bool, List, Option, Outcome, Str, [], bytes, false, if◌then◌else◌, none, returns, some, str_eq,
  suc, true, zero, ℕ, ◌++◌, ◌+◌, ◌>>=◌, ◌∷◌,
}
use cf_app_sd_release.ExampleApps.Diglett.{get_num_answers, get_query_time}
use cf_app_sd_release.ExampleApps.Stats.{AppResponse, Stats, serve_stats}
use cf_app_sd_release.Populator.Job.{decimal}
use cf_app_sd_release.Routes.Mux.{clean_path}

pub data DiglettTarget : Type 0 where
  shows_stats shows_info redirects : DiglettTarget

-- The patterns `/stats` and `/`.
unfoldable pub diglett_target : Str → DiglettTarget
diglett_target path =
    if str_eq (clean_path path) path
    then if str_eq path (bytes "/stats") then shows_stats else shows_info
    else redirects

-- The answer to a request, by its method and path; the latencies are never added to.
unfoldable pub serve_diglett :
    {F : Type 0}
    → (Stats F → Option Str)
    → Outcome AppResponse
    → (Str → Str)
    → Str
    → Str
    → Stats F
    → Outcome (Stats F × AppResponse)
serve_diglett marshal_stats info_answer moved method path s = elim (diglett_target path) [
  | shows_stats ↦ serve_stats marshal_stats method s
  | shows_info ↦ (info_answer >>= λ a. returns (s, a))
  | redirects ↦ returns (s, record { status = 301; body = moved path })
]

-- The line that a tick logs.
unfoldable pub dig_line : (Str → Str) → (Str → ℕ → List Str) → Str → Str → Str
dig_line find find_all destination output =
    bytes "dig "
    ++ (destination
        ++ (b' '
            ∷ (get_query_time find output
                ++ (b' ' ∷ (decimal (get_num_answers find_all output) ++ bytes " answers\n")))))

-- The lines of the ticks from number `n` on, and whether it panicked.
unfoldable pub dig_loop :
    (ℕ → Option Str) → (Str → Str) → (Str → ℕ → List Str) → Str → ℕ → ℕ → List Str × Bool
dig_loop run_dig find find_all destination zero n = ([], false)
dig_loop run_dig find find_all destination (suc ticks) n = elim (run_dig n) [
  | none ↦ ([], true)
  | some output ↦
      let rest = dig_loop run_dig find find_all destination ticks (n + 1) in
      (dig_line find find_all destination output ∷ rest.0, rest.1)
]
