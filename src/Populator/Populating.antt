-- ===== src/Populator/Populating.antt =====
-- What the route populator publishes when it is started with its flags.
use cf_app_sd_release.Base.{
  List, Option, Option-cases, Str, [], arith, false, if◌then◌else◌, inl, inr, ltb, pos_part, refl,
  returns, some, ℕ, ℤ, ◌+◌, ◌<◌, ◌≡◌, ◌≤◌,
}
use cf_app_sd_release.Populator.Coverage.{holders}
use cf_app_sd_release.Populator.Flags.{
  Flags, check_required_fields, start_populating_routes, start_populating_routes-cover,
}
use cf_app_sd_release.Populator.Job.{Job}
use cf_app_sd_release.Populator.Main.{
  Runner, populate, populating, runner_for, start_with, start_runner, new_runner,
}

checked-delay :
    (parse_duration : Str → Option ℤ) (f : Flags)
    → (check_required_fields parse_duration f).0 ≡ []
    → (d : ℤ) × ((check_required_fields parse_duration f).1 ≡ some d)
unfolding check_required_fields
checked-delay parse_duration f h = elim (Option-cases (parse_duration f.publish_delay_string)) [
  | inl missing ↦ absurd (ground arith)
  | inr (d, e) ↦ (d, e)
]

start_with-jobs :
    (fuel num_cpu : ℕ) (f : Flags) (d : ℤ) (js : List Job)
    → start_populating_routes fuel num_cpu f ≡ returns js
    → start_with fuel false (runner_for num_cpu f d)
      ≡ returns (populating (runner_for num_cpu f d) js)
unfolding start_with start_runner runner_for new_runner start_populating_routes
start_with-jobs fuel num_cpu f d js made = rw made refl

-- With 1 to 31 CPUs, fuel for the loop of `PartitionRange`, and no signal before, flags without a
-- complaint start a runner, with as much room for errors as it has goroutines, whose jobs publish each
-- of the routes 0, 1, ... below the number of routes exactly once, and no other.
pub populate-cover :
    (parse_duration : Str → Option ℤ) (fuel num_cpu x : ℕ) (f : Flags)
    → (check_required_fields parse_duration f).0 ≡ []
    → 0 < num_cpu
    → num_cpu ≤ 31
    → pos_part f.num_routes + 1 < fuel
    → (r : Runner) × (js : List Job) × (populate parse_duration fuel num_cpu false f
        ≡ returns (populating r js))
      × (r.errs_room ≡ r.num_go_routines)
      × (holders x js ≡ (if ltb x (pos_part f.num_routes) then 1 else 0))
unfolding populate runner_for new_runner
populate-cover parse_duration fuel num_cpu x f h p q g =
    let (js, made, held) = start_populating_routes-cover parse_duration fuel num_cpu x f h p q g in
    let (d, delay) = checked-delay parse_duration f h in
    let started = start_with-jobs fuel num_cpu f d js made in
    (runner_for num_cpu f d, js, rw (delay, h, populate) started, refl, held)
