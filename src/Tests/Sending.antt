-- ===== src/Tests/Sending.antt =====
-- The goroutines of the route populator with their messages, at a concrete input.
use cf_app_sd_release.Base.{
  All, List, Str, [], arith, false, index, refl, returns, some, str_eq, true, ◌++◌, ◌∷◌, ◌≡◌,
}
use cf_app_sd_release.Populator.Goroutines.{Shared, before_test, fails, outside, succeeds}
use cf_app_sd_release.Populator.Job.{Job, is_zero, route_data, validate}
use cf_app_sd_release.Populator.Messages.{IsOf, SendReach-IsOf}
use cf_app_sd_release.Populator.Partition.{bounds_from, partition_range, remainder, set_last}
use cf_app_sd_release.Populator.Publisher.{
  Publisher, announcements, initialize, marshal_routes, new_publisher, router_register,
  service_discovery_register,
}
use cf_app_sd_release.Populator.Runner.{job_of, jobs_from, quotient, start_jobs}
use cf_app_sd_release.Populator.Sending.{
  Doing, SendReach, SendStep, Sender, Sending, advance, advances, at_phase, attempt, give_up,
  in_select, new_sender, publish_next, publishing, send, sending_start, sends_more, sends_nothing,
  start_publishing,
}
use cf_app_sd_release.Tests.Load.{encode_route, marshal_route, ten_routes}

abbrev pub one_route : Job
one_route = record ten_routes { end_range = 1 }

pub one_job : start_jobs 10 one_route 1 ≡ returns (one_route ∷ [])
unfolding start_jobs quotient partition_range jobs_from job_of index
one_job = refl

abbrev pub the_message : Str
the_message = encode_route (route_data one_route 0)

abbrev pub first_sent : List (Str × Str)
first_sent = (router_register, the_message) ∷ []

abbrev pub second_sent : List (Str × Str)
second_sent = (service_discovery_register, the_message) ∷ []

abbrev ready : Publisher
ready = record { job = one_route; connected = true; messages = the_message ∷ [] }

abbrev nobody_stopped : Shared
nobody_stopped = record { stopped = false; closes = 0; errors = 0 }

-- The only goroutine, where it stands and what it has sent.
abbrev pub alone : Doing → List (Str × Str) → Sending
alone doing sent = record {
  shared = nobody_stopped;
  senders = record { publisher = ready; doing = doing; sent = sent } ∷ [];
  caller = outside;
}

goes :
    (d d' : Doing) (sent sent' : List (Str × Str))
    → advance marshal_route succeeds nobody_stopped
        (record { publisher = ready; doing = d; sent = sent })
        d
      ≡ some (nobody_stopped, record { publisher = ready; doing = d'; sent = sent' })
    → SendStep marshal_route (alone d sent) (alone d' sent')
goes d d' sent sent' m =
    advances succeeds [] [] (record { publisher = ready; doing = d; sent = sent })
      (record { publisher = ready; doing = d'; sent = sent' }) nobody_stopped refl refl m refl

initialized :
    SendStep marshal_route (sending_start (one_route ∷ [])) (alone (publishing true 0 false) [])
unfolding advance start_publishing initialize new_sender new_publisher validate is_zero str_eq
    marshal_routes announcements
initialized =
    advances succeeds [] [] (new_sender one_route)
      (record { publisher = ready; doing = publishing true 0 false; sent = [] }) nobody_stopped refl
      refl refl refl

pub looping :
    SendReach marshal_route
      (sending_start (one_route ∷ []))
      (alone in_select (first_sent ++ second_sent))
unfolding advance publish_next attempt send index
looping =
    let r1 = sends_more sends_nothing initialized in
    let r2 =
      sends_more r1 (goes (publishing true 0 false) (publishing true 0 true) [] first_sent refl) in
    let r3 = sends_more r2 (
      goes (publishing true 0 true) (publishing true 1 false) first_sent (first_sent ++ second_sent)
        refl) in
    sends_more r3 (
      goes (publishing true 1 false) in_select (first_sent ++ second_sent)
        (first_sent ++ second_sent) refl)

-- Two goroutines: one has sent a message, the other has not reached its endpoint.
abbrev two_routes : Job
two_routes = record ten_routes { end_range = 2 }

abbrev second_route : Job
second_route = record two_routes { start_range = 1 }

two_jobs : start_jobs 10 two_routes 2 ≡ returns (one_route ∷ second_route ∷ [])
unfolding start_jobs quotient partition_range bounds_from set_last remainder jobs_from job_of index
two_jobs = refl

abbrev one_refused : Sending
one_refused = record {
  shared = record nobody_stopped { errors = 1 };
  senders =
      record { publisher = ready; doing = publishing true 0 true; sent = first_sent }
      ∷ record (new_sender second_route) { doing = at_phase before_test }
      ∷ [];
  caller = outside;
}

refused : SendReach marshal_route (sending_start (one_route ∷ second_route ∷ [])) one_refused
unfolding advance start_publishing initialize new_sender new_publisher validate is_zero str_eq
    marshal_routes publish_next attempt send index give_up
refused =
    let initial = new_sender second_route in
    let prepared : Sender = record {
      publisher = ready;
      doing = publishing true 0 false;
      sent = [];
    } in
    let r1 = sends_more sends_nothing (
      advances succeeds [] (initial ∷ []) (new_sender one_route) prepared nobody_stopped refl refl
        refl refl) in
    let r2 = sends_more r1 (
      advances succeeds [] (initial ∷ []) prepared
        (record { publisher = ready; doing = publishing true 0 true; sent = first_sent })
        nobody_stopped refl refl refl refl) in
    sends_more r2 (
      advances fails
        (record { publisher = ready; doing = publishing true 0 true; sent = first_sent } ∷ []) []
        initial (record initial { doing = at_phase before_test })
        (record nobody_stopped { errors = 1 }) refl refl refl refl)

SendReach-IsOf_example : All (λ s. All (IsOf marshal_route two_routes) s.sent) one_refused.senders
SendReach-IsOf_example =
    SendReach-IsOf marshal_route 10 2 2 two_routes (one_route ∷ second_route ∷ []) one_refused refl
      (omega arith) (omega arith) (omega arith) two_jobs refused
