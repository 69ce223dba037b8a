-- ===== src/Populator/Publisher.antt =====
-- route_populator/publisher/publisher.go: `Publisher`. The JSON encoder and the NATS connection are
-- parameters: `marshal` returns `none` on an error, `connect` says whether an endpoint is reached, and
-- `fails n` whether the attempt to publish with number `n` fails.
use cf_app_sd_release.Base.{
  Bool, List, Option, Outcome, Str, [], bytes, false, if◌then◌else◌, index, none, returns, some,
  suc, true, zero, ℕ, ◌++◌, ◌+◌, ◌-◌, ◌>>=◌, ◌∷◌,
}
use cf_app_sd_release.Populator.Job.{Invalid, Job, RouteData, route_data, validate}

pub record Publisher : Type 0 where
  pub job : Job
  pub connected : Bool
  pub messages : List Str  -- the field `data`

pub data InitializeError : Type 0 where
  invalid_job : Invalid → InitializeError
  not_connected : InitializeError
  not_marshaled : InitializeError

unfoldable pub new_publisher : Job → Publisher
new_publisher j = record { job = j; connected = false; messages = [] }

-- The loop of `Initialize`, with the rounds left: the messages so far, and the error if there is one.
unfoldable pub marshal_routes :
    (RouteData → Option Str) → Job → ℕ → ℕ → List Str → List Str × Option InitializeError
marshal_routes marshal j zero i acc = (acc, none)
marshal_routes marshal j (suc rounds) i acc = elim (marshal (route_data j i)) [
  | none ↦ (acc, some not_marshaled)
  | some d ↦ marshal_routes marshal j rounds (i + 1) (acc ++ d ∷ [])
]

-- The publisher afterwards, and the error (`none` is nil).
unfoldable pub initialize :
    (Str → Bool) → (RouteData → Option Str) → Publisher → Publisher × Option InitializeError
initialize connect marshal p = elim (validate p.job) [
  | some e ↦ (p, some (invalid_job e))
  | none ↦
      let c = connect p.job.publishing_endpoint in
      let j = p.job in
      let made = marshal_routes marshal j (j.end_range - j.start_range) j.start_range p.messages in
      if c
      then (record p { connected = true; messages = made.0 }, made.1)
      else (record p { connected = false }, some not_connected)
]

-- The connection as a log: the attempts made, and what was sent, in order.
pub record Connection : Type 0 where
  pub attempts : ℕ
  pub sent : List (Str × Str)

unfoldable pub publish : (ℕ → Bool) → Connection → Str → Str → Connection × Bool
publish fails c subject d =
    if fails c.attempts
    then (record c { attempts = c.attempts + 1 }, false)
    else (record { attempts = c.attempts + 1; sent = c.sent ++ (subject, d) ∷ [] }, true)

abbrev pub router_register : Str
router_register = bytes "router.register"

abbrev pub service_discovery_register : Str
service_discovery_register = bytes "service-discovery.register"

-- The loop of `PublishRouteRegistrations`, with the rounds left: whether it ended without an error.
unfoldable pub publish_rounds :
    (ℕ → Bool) → List Str → ℕ → ℕ → Connection → Outcome (Connection × Bool)
publish_rounds fails messages zero i c = returns (c, true)
publish_rounds fails messages (suc rounds) i c = do
  d ← index messages i
  let first = publish fails c router_register d
  let second = publish fails first.0 service_discovery_register d
  let rest = publish_rounds fails messages rounds (i + 1) second.0
  if first.1 then if second.1 then rest else returns second else returns first

-- With the log line at the end, which reads the first message.
unfoldable pub publish_route_registrations :
    (ℕ → Bool) → Publisher → Connection → Outcome (Connection × Bool)
publish_route_registrations fails p c = do
  done ← publish_rounds fails p.messages (p.job.end_range - p.job.start_range) 0 c
  if done.1 then (index p.messages 0 >>= λ _. returns done) else returns done

-- The reference: send the pairs of messages in order, until one fails.
unfoldable pub announcements : List Str → List (Str × Str)
announcements [] = []
announcements (d ∷ ds) = (router_register, d) ∷ (service_discovery_register, d) ∷ announcements ds

unfoldable pub send_all : (ℕ → Bool) → List (Str × Str) → Connection → Connection × Bool
send_all fails [] c = (c, true)
send_all fails ((subject, d) ∷ rest) c =
    let first = publish fails c subject d in
    let later = send_all fails rest first.0 in if first.1 then later else first
