-- ===== src/Tests/Load.antt =====
-- The route populator at concrete inputs.
use cf_app_sd_release.Base.{
  Bool, List, Option, Str, [], arith, bytes, false, if◌then◌else◌, leb, length, ltb, none, pos,
  pos_part, refl, returns, some, str_eq, suc, true, unfinished, ℕ, ℤ, ◌%◌, ◌&&◌, ◌*◌, ◌+◌, ◌/◌,
  ◌==◌, ◌↔◌, ◌∷◌, ◌≡◌,
}
use cf_app_sd_release.Populator.Coverage.{holders, start_jobs_cover, start_jobs_lose}
use cf_app_sd_release.Populator.Finishing.{RunnerReach-wait}
use cf_app_sd_release.Populator.Flags.{Flags, check_required_fields, not_positive}
use cf_app_sd_release.Populator.Goroutines.{
  Phase, RunnerReach, RunnerStep, Running, all_starting, at_start, before_close, before_set,
  before_test, fails, finished, has_panicked, in_loop, move, moves, one_more, outside, quits,
  start_state, starting, succeeds,
}
use cf_app_sd_release.Populator.Job.{Job, RouteData}
use cf_app_sd_release.Populator.Main.{
  Runner, cannot_restart, new_runner, populate, populating, populator_exit, runner_for,
  start_runner, start_with,
}
use cf_app_sd_release.Populator.Partition.{partition_range, partition_range-unfinished}
use cf_app_sd_release.Populator.Populating.{populate-cover}
use cf_app_sd_release.Populator.Publisher.{Connection}
use cf_app_sd_release.Populator.Runner.{start_jobs}
use cf_app_sd_release.Populator.Settled.{AreSettled}
use cf_app_sd_release.Populator.Stopping.{
  IsOrderly, RunnerReach-IsOrderly, RunnerReach-has_panicked,
}
use cf_app_sd_release.Populator.Waiting.{all_finished, is_finished, wait}
use cf_app_sd_release.Routes.Serving.{registration_of}
use cf_app_sd_release.Tests.Chain.{encoder}

abbrev pub ten_routes : Job
ten_routes = record {
  publishing_endpoint = bytes "nats://host";
  backend_host = bytes "10.0.0.9";
  backend_port = pos 8080;
  app_domain = bytes "apps.local";
  app_name = bytes "app";
  start_range = 0;
  end_range = 10;
}

start_jobs_cover_example :
    (js : List Job) × (start_jobs 20 ten_routes 3 ≡ returns js)
    × (length js ≡ 3)
    × (holders 9 js ≡ (if leb ten_routes.start_range 9 && ltb 9 ten_routes.end_range then 1 else 0))
start_jobs_cover_example =
    start_jobs_cover 20 3 10 9 ten_routes refl (omega arith) (omega arith) (omega arith)

abbrev thousand_routes : Job
thousand_routes = record ten_routes { end_range = 1000 }

start_jobs_lose_example :
    (js : List Job) × (start_jobs 2000 thousand_routes 36 ≡ returns js)
    × (length js ≡ 36)
    × (holders 980 js ≡ (
        if leb thousand_routes.start_range 980
          && ltb 980 (thousand_routes.start_range + 36 * (1000 / 36))
        then 1
        else 0))
    × (thousand_routes.start_range + 36 * (1000 / 36) + 1000 % 36 ≡ thousand_routes.end_range)
start_jobs_lose_example =
    start_jobs_lose 2000 36 1000 980 thousand_routes refl (omega arith) (omega arith) (omega arith)
      (omega arith)

partition_range-unfinished_example : partition_range 10 0 5 0 ≡ unfinished
partition_range-unfinished_example = partition_range-unfinished 10 0 5 (omega arith)

-- The host and the names, each readable.
abbrev pub encode_route : RouteData → Str
encode_route r = encoder (registration_of (r.host ∷ r.uris))

abbrev pub marshal_route : RouteData → Option Str
marshal_route r = some (encode_route r)

abbrev reached : Str → Bool
reached endpoint = true

-- The third attempt fails.
abbrev third_fails : ℕ → Bool
third_fails n = n == 2

abbrev new_connection : Connection
new_connection = record { attempts = 0; sent = [] }

abbrev flags : Flags
flags = record {
  nats_endpoint = bytes "nats://host";
  backend_host = bytes "10.0.0.9";
  backend_port = pos 8080;
  app_domain = bytes "apps.local";
  app_name = bytes "app";
  num_routes = pos 1003;
  heartbeat_interval = pos 20;
  publish_delay_string = bytes "0s";
}

abbrev no_delay : Str → Option ℤ
no_delay text = some (pos 0)

no_complaint : (check_required_fields no_delay flags).0 ≡ []
unfolding check_required_fields not_positive str_eq
no_complaint = refl

populate-cover_example :
    (r : Runner) × (js : List Job) × (populate no_delay 2000 4 false flags
      ≡ returns (populating r js))
    × (r.errs_room ≡ r.num_go_routines)
    × (holders 1002 js ≡ (if ltb 1002 (pos_part flags.num_routes) then 1 else 0))
populate-cover_example =
    populate-cover no_delay 2000 4 1002 flags no_complaint (omega arith) (omega arith) (omega arith)

-- The first of two goroutines fails.
abbrev one_failed : Running
one_failed = record {
  shared = record { stopped = false; closes = 0; errors = 1 };
  phases = before_test ∷ starting ∷ outside ∷ [];
}

one_fails : RunnerReach (start_state 2) one_failed
unfolding move all_starting
one_fails = one_more at_start (
    moves fails [] (starting ∷ outside ∷ []) starting before_test one_failed.shared refl refl refl
      refl)

RunnerReach-IsOrderly_example : IsOrderly 2 one_failed
RunnerReach-IsOrderly_example = RunnerReach-IsOrderly 2 {u = one_failed} one_fails

RunnerReach-has_panicked_example :
    (u : Running) × RunnerReach (start_state (suc (suc 1))) u × (has_panicked u.shared ≡ true)
RunnerReach-has_panicked_example = RunnerReach-has_panicked 1

-- A signal, and its `Stop`, while the only goroutine is in its loop.
abbrev one_loops : Bool → ℕ → Phase → Phase → Running
one_loops is_stopped closes p q = record {
  shared = record { stopped = is_stopped; closes = closes; errors = 0 };
  phases = p ∷ q ∷ [];
}

signal_moves :
    (is_stopped stopped' : Bool) (c c' : ℕ) (q q' : Phase)
    → ltb 1 c ≡ false
    → move quits (record { stopped = is_stopped; closes = c; errors = 0 }) q
      ≡ some (record { stopped = stopped'; closes = c'; errors = 0 }, q')
    → RunnerStep (one_loops is_stopped c in_loop q) (one_loops stopped' c' in_loop q')
signal_moves is_stopped stopped' c c' q q' ok m =
    moves quits (in_loop ∷ []) [] q q' _ ok refl m refl

signal_stops : RunnerReach (start_state 1) (one_loops true 1 in_loop finished)
unfolding move all_starting
signal_stops =
    let looping : RunnerReach (start_state 1) (one_loops false 0 in_loop outside) =
      one_more at_start (moves succeeds [] (outside ∷ []) starting in_loop _ refl refl refl refl) in
    one_more
      (one_more
        (one_more (one_more looping (signal_moves false false 0 0 outside before_test refl refl))
          (signal_moves false false 0 0 before_test before_set refl refl))
        (signal_moves false true 0 0 before_set before_close refl refl))
      (signal_moves true true 0 1 before_close finished refl refl)

RunnerReach-wait_example :
    ((t : Running) × RunnerReach (one_loops true 1 in_loop finished) t
      × (has_panicked t.shared ≡ false)
      × (t.shared.errors ≡ (one_loops true 1 in_loop finished).shared.errors)
      × (wait 1 t ≡ some (ltb 0 (one_loops true 1 in_loop finished).shared.errors)))
    ↔ AreSettled 1 (in_loop ∷ finished ∷ [])
RunnerReach-wait_example =
    RunnerReach-wait 1 {u = one_loops true 1 in_loop finished} signal_stops (omega arith) refl

-- While a goroutine runs, `Wait` waits; when the only one has ended, it returns without an error.
wait_waits : wait 1 (one_loops true 1 in_loop finished) ≡ none
unfolding wait all_finished is_finished
wait_waits = refl

wait_returns : populator_exit 1 (one_loops true 1 finished finished) ≡ some 0
unfolding populator_exit wait all_finished is_finished
wait_returns = refl

-- A signal before `Start`.
signal_first : populate no_delay 2000 4 true flags ≡ returns cannot_restart
unfolding populate runner_for start_with start_runner new_runner check_required_fields not_positive
    str_eq
signal_first = refl
