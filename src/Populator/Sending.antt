-- ===== src/Populator/Sending.antt =====
-- route_populator/runner/runner.go and publisher/publisher.go: the goroutines of `Start` with their
-- publishers and connections, one attempt to publish a step. Goroutines states the same steps without
-- the messages.
use cf_app_sd_release.Base.{
  Bool, List, Option, Str, [], false, if◌then◌else◌, index, ltb, map, none, panics, returns, some,
  true, unfinished, ℕ, ◌++◌, ◌+◌, ◌-◌, ◌==◌, ◌||◌, ◌∷◌, ◌≡◌,
}
use cf_app_sd_release.Populator.Goroutines.{
  Event, Phase, Shared, before_test, fails, finished, has_panicked, in_loop, move, outside, quits,
  starting, succeeds,
}
use cf_app_sd_release.Populator.Job.{Job, RouteData}
use cf_app_sd_release.Populator.Publisher.{
  Publisher, initialize, new_publisher, router_register, service_discovery_register,
}

-- Where the goroutine of a publisher stands: before `Initialize`; in `PublishRouteRegistrations`, for the
-- first time or not, in a round of its loop, before or behind the first of the two messages; in the
-- `select`; or in `Stop` or at its end.
pub data Doing : Type 0 where
  before_initialize in_select : Doing
  publishing : Bool → ℕ → Bool → Doing
  at_phase : Phase → Doing

pub record Sender : Type 0 where
  pub publisher : Publisher
  pub doing : Doing
  pub sent : List (Str × Str)  -- on the publisher's own connection

unfoldable pub phase_of : Doing → Phase
phase_of before_initialize = starting
phase_of in_select = in_loop
phase_of (publishing first i half) = if first then starting else in_loop
phase_of (at_phase p) = p

-- A message has left.
unfoldable pub send : Str → Str → Doing → Sender → Sender
send subject d doing s = record s { sent = s.sent ++ (subject, d) ∷ []; doing = doing }

-- An error is sent to `errsChan`, before `Stop`.
unfoldable pub give_up : Shared → Sender → Option (Shared × Sender)
give_up a s = some (record a { errors = a.errors + 1 }, record s { doing = at_phase before_test })

-- The next attempt in a round of `PublishRouteRegistrations`, with the message of the round.
unfoldable pub attempt : Event → Shared → Sender → Bool → ℕ → Bool → Str → Option (Shared × Sender)
unfolding give_up send
attempt succeeds a s first i false d = some (a, send router_register d (publishing first i true) s)
attempt succeeds a s first i true d =
    some (a, send service_discovery_register d (publishing first (i + 1) false) s)
attempt fails a s first i half d = give_up a s
attempt quits a s first i half d = none

-- The loop of `PublishRouteRegistrations`: an attempt, or the log line at its end, which reads the first
-- message. After a panic there is no step.
unfoldable pub publish_next : Event → Shared → Sender → Bool → ℕ → Bool → Option (Shared × Sender)
unfolding attempt
publish_next e a s first i half =
    let j = s.publisher.job in
    if half || ltb i (j.end_range - j.start_range)
    then elim (index s.publisher.messages i) [
      | returns d ↦ attempt e a s first i half d
      | panics ↦ none
      | unfinished ↦ none
    ]
    else elim (index s.publisher.messages 0) [
      | returns d ↦ some (a, record s { doing = in_select })
      | panics ↦ none
      | unfinished ↦ none
    ]

module _ (marshal : RouteData → Option Str) where
  -- With what the endpoint answers to this call of the `ConnectionCreator`.
  unfoldable pub start_publishing : Bool → Shared → Sender → Option (Shared × Sender)
  unfolding give_up
  start_publishing reached a s =
      let made = initialize (λ endpoint. reached) marshal s.publisher in
      elim made.1 [
        | some e ↦ give_up a (record s { publisher = made.0 })
        | none ↦ some (a, record s { publisher = made.0; doing = publishing true 0 false })
      ]

  -- One step of the goroutine; `none` where the event cannot occur. Each call of the
  -- `ConnectionCreator` and each publishing may succeed or fail on its own; `succeeds` in the `select` is
  -- the end of the heartbeat interval.
  unfoldable pub advance : Event → Shared → Sender → Doing → Option (Shared × Sender)
  unfolding start_publishing publish_next move
  advance succeeds a s before_initialize = start_publishing true a s
  advance fails a s before_initialize = start_publishing false a s
  advance quits a s before_initialize = none
  advance e a s (publishing first i half) = publish_next e a s first i half
  advance succeeds a s in_select = some (a, record s { doing = publishing false 0 false })
  advance fails a s in_select = none
  advance quits a s in_select =
      if a.closes == 0 then none else some (a, record s { doing = at_phase finished })
  advance e a s (at_phase p) = elim (move e a p) [
    | none ↦ none
    | some r ↦ some (r.0, record s { doing = at_phase r.1 })
  ]

-- The goroutines of `Start`, and the caller of `Stop` in main.go.
pub record Sending : Type 0 where
  pub shared : Shared
  pub senders : List Sender
  pub caller : Phase

pub data SendStep (marshal : RouteData → Option Str) (s u : Sending) : Type 0 where
  advances :
      (e : Event) (before after : List Sender) (p q : Sender) (b : Shared)
      → has_panicked s.shared ≡ false
      → s.senders ≡ before ++ p ∷ after
      → advance marshal e s.shared p p.doing ≡ some (b, q)
      → u ≡ record s { shared = b; senders = before ++ q ∷ after }
      → SendStep marshal s u
  stops :
      (e : Event) (q : Phase) (b : Shared)
      → has_panicked s.shared ≡ false
      → move e s.shared s.caller ≡ some (b, q)
      → u ≡ record s { shared = b; caller = q }
      → SendStep marshal s u

pub data SendReach (marshal : RouteData → Option Str) (s : Sending) : Sending → Type 0 where
  sends_nothing : SendReach marshal s s
  sends_more :
      {t u : Sending} → SendReach marshal s t → SendStep marshal t u → SendReach marshal s u

unfoldable pub new_sender : Job → Sender
new_sender j = record { publisher = new_publisher j; doing = before_initialize; sent = [] }

-- After `Start` with these jobs.
abbrev pub sending_start : List Job → Sending
sending_start js = record {
  shared = record { stopped = false; closes = 0; errors = 0 };
  senders = map new_sender js;
  caller = outside;
}
