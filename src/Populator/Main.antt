-- ===== src/Populator/Main.antt =====
-- route_populator/runner/runner.go: `NewRunner` and the guard of `Start`; route_populator/main.go: `main`
-- around them. As in Flags, the parser of durations and the number of CPUs are parameters.
use cf_app_sd_release.Base.{
  Bool, List, Option, Outcome, Str, [], false, if◌then◌else◌, none, returns, some, ℕ, ℤ, ◌>>=◌, ◌∷◌,
}
use cf_app_sd_release.Populator.Flags.{
  Complaint, Flags, check_required_fields, goroutines_for, job_of_flags,
}
use cf_app_sd_release.Populator.Goroutines.{Running}
use cf_app_sd_release.Populator.Job.{Job}
use cf_app_sd_release.Populator.Runner.{start_jobs}
use cf_app_sd_release.Populator.Waiting.{wait}
use cf_app_sd_release.Process.Durations.{duration_of_seconds}

-- A runner as it is made. Its channel of errors has room for as many as it has goroutines.
pub record Runner : Type 0 where
  pub is_stopped : Bool
  pub job : Job
  pub num_go_routines : ℕ
  pub heartbeat_interval : ℤ
  pub publish_delay : ℤ
  pub errs_room : ℕ

unfoldable pub new_runner : Job → ℕ → ℤ → ℤ → Runner
new_runner j num_go_routines heartbeat_interval publish_delay = record {
  is_stopped = false;
  job = j;
  num_go_routines = num_go_routines;
  heartbeat_interval = heartbeat_interval;
  publish_delay = publish_delay;
  errs_room = num_go_routines;
}

-- `none` is the error of a runner that was stopped; else the jobs that are started.
unfoldable pub start_runner : ℕ → Runner → Outcome (Option (List Job))
start_runner fuel r =
    let started = start_jobs fuel r.job r.num_go_routines >>= λ js. returns (some js) in
    if r.is_stopped then returns none else started

-- `main` up to `Wait`: it exits with 1 for bad flags, or if the runner was stopped before.
pub data PopulatorStart : Type 0 where
  bad_flags : List Complaint → PopulatorStart
  cannot_restart : PopulatorStart
  populating : Runner → List Job → PopulatorStart

unfoldable pub runner_for : ℕ → Flags → ℤ → Runner
unfolding new_runner
runner_for num_cpu f publish_delay =
    new_runner (job_of_flags f) (goroutines_for num_cpu f)
      (duration_of_seconds f.heartbeat_interval) publish_delay

-- `signalled`: the signal came before the call of `Start`.
unfoldable pub start_with : ℕ → Bool → Runner → Outcome PopulatorStart
unfolding start_runner
start_with fuel signalled r =
    let stopped = record r { is_stopped = signalled } in
    start_runner fuel stopped >>= λ jobs. elim jobs [
      | none ↦ returns cannot_restart
      | some js ↦ returns (populating stopped js)
    ]

unfoldable pub populate : (Str → Option ℤ) → ℕ → ℕ → Bool → Flags → Outcome PopulatorStart
unfolding runner_for start_with
populate parse_duration fuel num_cpu signalled f =
    let checked = check_required_fields parse_duration f in
    elim checked.1 [
      | none ↦ returns (bad_flags (checked.0))
      | some delay ↦ elim checked.0 [
        | [] ↦ start_with fuel signalled (runner_for num_cpu f delay)
        | c ∷ cs ↦ returns (bad_flags (c ∷ cs))
      ]
    ]

-- After `Wait`: the exit code, while there is one.
unfoldable pub populator_exit : ℕ → Running → Option ℕ
populator_exit n s = elim (wait n s) [
  | none ↦ none
  | some has_error ↦ some (if has_error then 1 else 0)
]
