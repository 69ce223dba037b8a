-- ===== src/Mbus/Running.antt =====
-- What `RunOnce` does.
use cf_app_sd_release.Base.{
  Str, [], ap, arith, false, if◌then◌else◌, none, some, true, ◌++◌, ◌+◌, ◌↔◌, ◌∷◌, ◌≡◌,
}
use cf_app_sd_release.Mbus.Subscriber.{
  Nats, RunError, Subscriber, after_connection, close, greet_subject, publish_msg, register_subject,
  run_once, send_start_message, setup_address_message_handler, setup_greet_msg_handler, start_once,
  start_subject, subscribe, unregister_subject,
}

all_steps : Unit {0}
unfolding run_once start_once after_connection send_start_message publish_msg
    setup_greet_msg_handler setup_address_message_handler subscribe close
all_steps = tt

module _ {T : Type 0} (nats : Nats) (options_json : Str) (s : Subscriber T) where
  -- All that `RunOnce` asks of its connection succeeds.
  pub record AllSucceed : Type 0 where
    pub connected : nats.connects ≡ true
    pub started : nats.publishes s.attempts ≡ true
    pub greets : nats.subscribes greet_subject ≡ true
    pub flushed : nats.flushes ≡ true
    pub registers : nats.subscribes register_subject ≡ true
    pub unregisters : nats.subscribes unregister_subject ≡ true

  pub run_once-succeeds :
      s.once_done ≡ false
      → AllSucceed
      → run_once nats options_json s ≡ (
        record s {
          once_done = true;
          has_client = true;
          attempts = s.attempts + 1;
          published = s.published ++ (start_subject, options_json) ∷ [];
          subscribed =
              ((s.subscribed ++ greet_subject ∷ []) ++ register_subject ∷ [])
              ++ unregister_subject ∷ [];
          warming = true;
        },
        none,
      )
  unfolding all_steps
  run_once-succeeds first all = ground arith

  pub run_once-needs : s.once_done ≡ false → (run_once nats options_json s).1 ≡ none → AllSucceed
  unfolding all_steps
  run_once-needs first h = ground arith

  -- The first `RunOnce` of a subscriber returns no error exactly if connecting, the start message, the
  -- three subscriptions and the flush all succeed.
  pub run_once_iff : s.once_done ≡ false → ((run_once nats options_json s).1 ≡ none) ↔ AllSucceed
  run_once_iff first = (run_once-needs first, λ all. ap (λ r. r.1) (run_once-succeeds first all))

  -- If the first `RunOnce` of a subscriber without a client returns an error, the connection, if one
  -- was made, is closed once, and the timer for the warm table is not started.
  pub run_once_fails :
      (e : RunError)
      → s.once_done ≡ false
      → s.has_client ≡ false
      → (run_once nats options_json s).1 ≡ some e
      → ((run_once nats options_json s).0.warming ≡ s.warming)
        × ((run_once nats options_json s).0.closes
            ≡ (if nats.connects then s.closes + 1 else s.closes))
  unfolding all_steps
  run_once_fails e first unconnected h = ground arith

-- A second `RunOnce` has no effect and returns no error, whatever the first one did and returned.
run_once_again :
    {T : Type 0} (nats nats' : Nats) (options_json options_json' : Str) (s : Subscriber T)
    → let after = (run_once nats options_json s).0 in
      run_once nats' options_json' after ≡ (after, none)
unfolding all_steps
run_once_again nats nats' options_json options_json' s = ground arith
