-- ===== src/Mbus/Subscriber.antt =====
-- service-discovery-controller/mbus/subscriber.go: `Subscriber`. The NATS connection and the JSON
-- functions are not in the sources: `Nats` says which of its calls succeed, `options_json` is the
-- encoded start message, and `unmarshal` decodes a register message (`none`: an error).
use cf_app_sd_release.Base.{
  Bool, List, Option, Str, [], bytes, false, if◌then◌else◌, none, some, true, ℕ, ℤ, ◌++◌, ◌+◌, ◌∷◌,
}
use cf_app_sd_release.Mbus.MetricsRecorder.{MetricsRecorder}

pub record Nats : Type 0 where
  pub connects : Bool
  pub publishes : ℕ → Bool  -- by the number of the attempt
  pub subscribes : Str → Bool
  pub flushes : Bool

pub record RegistryMessage : Type 0 where
  pub ip : Str
  pub infra_names : List Str
  pub endpoint_updated_at : ℤ

pub data RunError : Type 0 where
  no_connection start_not_published greet_not_subscribed greet_not_flushed : RunError
  register_not_subscribed unregister_not_subscribed : RunError

-- The state of a subscriber, with what it has done on its connection: messages sent, subjects
-- subscribed to, calls of `Close`. `warming` says that the timer for `SetWarm` was started.
pub record Subscriber (T : Type 0) : Type 0 where
  pub once_done : Bool
  pub has_client : Bool
  pub table : T
  pub recorder : MetricsRecorder
  pub register_messages_received : ℕ
  pub attempts : ℕ
  pub published : List (Str × Str)
  pub subscribed : List Str
  pub closes : ℕ
  pub warming : Bool

abbrev pub start_subject : Str
start_subject = bytes "service-discovery.start"

abbrev pub greet_subject : Str
greet_subject = bytes "service-discovery.greet"

abbrev pub register_subject : Str
register_subject = bytes "service-discovery.register"

abbrev pub unregister_subject : Str
unregister_subject = bytes "service-discovery.unregister"

module _ {T : Type 0} where
  unfoldable pub new_subscriber : T → MetricsRecorder → Subscriber T
  new_subscriber table recorder = record {
    once_done = false;
    has_client = false;
    table = table;
    recorder = recorder;
    register_messages_received = 0;
    attempts = 0;
    published = [];
    subscribed = [];
    closes = 0;
    warming = false;
  }

  -- A step with an error, and the early return.
  abbrev pub and_then :
      Subscriber T × Option RunError
      → (Subscriber T → Subscriber T × Option RunError)
      → Subscriber T × Option RunError
  and_then (s, none) next_step = next_step s
  and_then (s, some e) next_step = (s, some e)

  unfoldable pub publish_msg : Nats → Subscriber T → Str → Str → Subscriber T × Bool
  publish_msg nats s subject body =
      if nats.publishes s.attempts
      then (
        record s { attempts = s.attempts + 1; published = s.published ++ (subject, body) ∷ [] },
        true,
      )
      else (record s { attempts = s.attempts + 1 }, false)

  unfoldable pub send_start_message : Nats → Str → Subscriber T → Subscriber T × Option RunError
  send_start_message nats options_json s =
      let sent = publish_msg nats s start_subject options_json in
      (sent.0, if sent.1 then none else some start_not_published)

  unfoldable pub subscribe : Nats → Str → RunError → Subscriber T → Subscriber T × Option RunError
  subscribe nats subject e s =
      if nats.subscribes subject
      then (record s { subscribed = s.subscribed ++ subject ∷ [] }, none)
      else (s, some e)

  unfoldable pub setup_greet_msg_handler : Nats → Subscriber T → Subscriber T × Option RunError
  setup_greet_msg_handler nats s =
      and_then (subscribe nats greet_subject greet_not_subscribed s)
        λ s'. (s', if nats.flushes then none else some greet_not_flushed)

  unfoldable pub setup_address_message_handler :
      Nats → Subscriber T → Subscriber T × Option RunError
  setup_address_message_handler nats s =
      and_then (subscribe nats register_subject register_not_subscribed s)
        λ s'. subscribe nats unregister_subject unregister_not_subscribed s'

  unfoldable pub close : Subscriber T → Subscriber T
  close s = if s.has_client then record s { closes = s.closes + 1 } else s

  unfoldable pub after_connection : Nats → Str → Subscriber T → Subscriber T × Option RunError
  after_connection nats options_json s = and_then (send_start_message nats options_json s) λ s₁.
      and_then (setup_greet_msg_handler nats s₁) λ s₂.
        and_then (setup_address_message_handler nats s₂) λ s₃. (record s₃ { warming = true }, none)

  -- The function that `s.once.Do` calls.
  unfoldable pub start_once : Nats → Str → Subscriber T → Subscriber T × Option RunError
  start_once nats options_json s =
      let connected = after_connection nats options_json (record s { has_client = true }) in
      if nats.connects then connected else (s, some no_connection)

  unfoldable pub run_once : Nats → Str → Subscriber T → Subscriber T × Option RunError
  run_once nats options_json s =
      let r = start_once nats options_json (record s { once_done = true }) in
      if s.once_done
      then (s, none)
      else elim r.1 [ none ↦ (r.0, none) | some e ↦ (close r.0, some e) ]
