-- ===== src/Populator/Flags.antt =====
-- route_populator/main.go: the flags, their check and the runner that they start. `parse_duration` and
-- the number of CPUs are parameters, as are the texts of the flags.
use native.Mathlib.Nat.{mul-le-mul_left}
use cf_app_sd_release.Base.{
  Bool, List, Option, Outcome, Str, [], arith, if◌then◌else◌, inl, inr, leb, ltb, ltb_ℤ, negsuc,
  none, pos, pos_part, returns, some, str_eq, true, ℕ, ℤ, ◌%◌, ◌&&◌, ◌*◌, ◌+◌, ◌/◌, ◌<◌, ◌==◌, ◌∙◌,
  ◌∷◌, ◌≡◌, ◌≤◌, ◌⊎◌,
}
use cf_app_sd_release.Populator.Coverage.{holders, start_jobs_cover}
use cf_app_sd_release.Populator.Job.{Job, is_zero, validate}
use cf_app_sd_release.Populator.Runner.{division, start_jobs}

pub record Flags : Type 0 where
  pub nats_endpoint : Str
  pub backend_host : Str
  pub backend_port : ℤ
  pub app_domain : Str
  pub app_name : Str
  pub num_routes : ℤ
  pub heartbeat_interval : ℤ
  pub publish_delay_string : Str

-- The complaints, by the flag that they name.
pub data Complaint : Type 0 where
  nats backend_host_missing backend_port_missing app_domain_missing : Complaint
  app_name_missing num_routes_missing heartbeat_interval_low publish_delay_invalid : Complaint

-- `*x <= 0`
unfoldable pub not_positive : ℤ → Bool
not_positive (pos n) = n == 0
not_positive (negsuc n) = true

abbrev pub complain : Bool → Complaint → List Complaint → List Complaint
complain b c cs = if b then c ∷ cs else cs

-- The complaints in order. The program exits if there is one; otherwise it goes on with the delay.
unfoldable pub check_required_fields : (Str → Option ℤ) → Flags → List Complaint × Option ℤ
check_required_fields parse_duration f =
    let delay = parse_duration f.publish_delay_string in
    (
      complain (str_eq f.nats_endpoint []) nats (
          complain (str_eq f.backend_host []) backend_host_missing (
            complain (not_positive f.backend_port) backend_port_missing (
              complain (str_eq f.app_domain []) app_domain_missing (
                complain (str_eq f.app_name []) app_name_missing (
                  complain (not_positive f.num_routes) num_routes_missing (
                    complain (not_positive f.heartbeat_interval) heartbeat_interval_low
                      (elim delay [ none ↦ publish_delay_invalid ∷ [] | some d ↦ [] ]))))))),
      delay,
    )

-- The job of `startPopulatingRoutes`; it runs only after the check, so the number of routes is positive.
unfoldable pub job_of_flags : Flags → Job
job_of_flags f = record {
  publishing_endpoint = f.nats_endpoint;
  backend_host = f.backend_host;
  backend_port = f.backend_port;
  app_domain = f.app_domain;
  app_name = f.app_name;
  start_range = 0;
  end_range = pos_part f.num_routes;
}

-- The number of goroutines.
unfoldable pub goroutines_for : ℕ → Flags → ℕ
goroutines_for num_cpu f = if ltb_ℤ f.num_routes (pos 1000) then 1 else num_cpu

-- `runner.NewRunner(...)` and `r.Start()`, as far as the jobs go.
unfoldable pub start_populating_routes : ℕ → ℕ → Flags → Outcome (List Job)
start_populating_routes fuel num_cpu f = start_jobs fuel (job_of_flags f) (goroutines_for num_cpu f)

-- Flags that pass the check give a job that passes its validation.
check_required_fields-validate :
    (parse_duration : Str → Option ℤ) (f : Flags)
    → (check_required_fields parse_duration f).0 ≡ []
    → validate (job_of_flags f) ≡ none
unfolding check_required_fields job_of_flags not_positive validate is_zero
check_required_fields-validate parse_duration f h = ground arith

at_most_31_mul : (count n q r : ℕ) → q * n + r ≡ count → r < n → n ≤ 31 → 1000 ≤ count → r < q
at_most_31_mul count n q r e l h k = omega (arith, e, l, h, k, mul-le-mul_left {m = n} {n = 31} q h)

at_most_31 : (count n : ℕ) → 0 < n → n ≤ 31 → 1000 ≤ count → count % n < count / n
at_most_31 count n p q r =
    grind (arith, division count n p, at_most_31_mul count n (count / n) (count % n))

num_routes_positive :
    (parse_duration : Str → Option ℤ) (f : Flags)
    → (check_required_fields parse_duration f).0 ≡ []
    → 0 < pos_part f.num_routes
unfolding check_required_fields not_positive
num_routes_positive parse_duration f h = ground arith

zero_plus : (n : ℕ) → n ≡ 0 + n
zero_plus n = omega arith

from_zero :
    (x n : ℕ)
    → (let one : ℕ = if leb 0 x && ltb x n then 1 else 0 in one ≡ (if ltb x n then 1 else 0))
from_zero x n = ground arith

mod_one : (c : ℕ) → 0 < c → c % 1 < c / 1
mod_one c h = omega arith

one_or_all :
    (num_cpu : ℕ) (z : ℤ)
    → 0 < pos_part z
    → ((if ltb_ℤ z (pos 1000) then 1 else num_cpu) ≡ 1)
      ⊎ ((if ltb_ℤ z (pos 1000) then 1 else num_cpu) ≡ num_cpu) × (1000 ≤ pos_part z)
one_or_all num_cpu (pos c) h = ground arith
one_or_all num_cpu (negsuc c) h = ground arith

spread :
    (num_cpu : ℕ) (z : ℤ)
    → 0 < pos_part z
    → 0 < num_cpu
    → num_cpu ≤ 31
    → (0 < (if ltb_ℤ z (pos 1000) then 1 else num_cpu))
      × (pos_part z % (if ltb_ℤ z (pos 1000) then 1 else num_cpu)
          < pos_part z / (if ltb_ℤ z (pos 1000) then 1 else num_cpu))
spread num_cpu z h p q = elim (one_or_all num_cpu z h) [
  | inl e ↦ rw e (omega arith, mod_one (pos_part z) h)
  | inr (e, l) ↦ rw e (p, at_most_31 (pos_part z) num_cpu p q l)
]

-- With 1 to 31 CPUs, flags that pass the check, and fuel for the loop of `PartitionRange`, the
-- populator's start neither panics nor hangs, and each of the routes 0, 1, ... below the number of routes
-- is published by exactly one goroutine, and no other route by any.
pub start_populating_routes-cover :
    (parse_duration : Str → Option ℤ) (fuel num_cpu x : ℕ) (f : Flags)
    → (check_required_fields parse_duration f).0 ≡ []
    → 0 < num_cpu
    → num_cpu ≤ 31
    → pos_part f.num_routes + 1 < fuel
    → (js : List Job) × (start_populating_routes fuel num_cpu f ≡ returns js)
      × (holders x js ≡ (if ltb x (pos_part f.num_routes) then 1 else 0))
unfolding start_populating_routes job_of_flags goroutines_for
start_populating_routes-cover parse_duration fuel num_cpu x f h p q g =
    let (some_go, fits) =
      spread num_cpu f.num_routes (num_routes_positive parse_duration f h) p q in
    let (js, made, n, held) =
      start_jobs_cover fuel (goroutines_for num_cpu f) (pos_part f.num_routes) x (job_of_flags f)
        (zero_plus (pos_part f.num_routes)) some_go fits g in
    (js, made, held ∙ from_zero x (pos_part f.num_routes))
