-- ===== src/Mbus/Run.antt =====
-- service-discovery-controller/mbus/subscriber.go: `Run`, the subscriber as a member of the controller's
-- group.
use cf_app_sd_release.Base.{
  Bool, Option, Option-cases, Str, false, inl, inr, none, refl, some, true, ◌↔◌, ◌≡◌,
}
use cf_app_sd_release.Mbus.Subscriber.{Nats, RunError, Subscriber, close, run_once}
use cf_app_sd_release.Mbus.Running.{AllSucceed, run_once_iff}

-- What `Run` has done when it returns.
pub record SubscriberRun (T : Type 0) : Type 0 where
  pub left : Subscriber T
  pub ready : Bool  -- whether `ready` was closed
  pub error : Option RunError

module _ {T : Type 0} (nats : Nats) (options_json : Str)
    (handled : Subscriber T → Subscriber T) where
  -- `handled` is what the callbacks do to the subscriber before the signal.
  unfoldable pub run_subscriber : Subscriber T → SubscriberRun T
  run_subscriber s =
      let started = run_once nats options_json s in
      elim started.1 [
        | some e ↦ record { left = started.0; ready = false; error = some e }
        | none ↦ record { left = close (handled started.0); ready = true; error = none }
      ]

  run_subscriber-ready :
      (s : Subscriber T)
      → ((run_subscriber s).ready ≡ true) ↔ ((run_once nats options_json s).1 ≡ none)
  unfolding run_subscriber
  run_subscriber-ready s = elim (Option-cases (run_once nats options_json s).1) [
    | inl ok ↦ rw (ok, run_subscriber) ((λ h. refl, λ h. refl))
    | inr (e, bad) ↦ rw (bad, run_subscriber) ((λ h. cc, λ h. cc))
  ]

  -- A subscriber that has not run gets ready exactly if connecting, the start message, the three
  -- subscriptions and the flush all succeed.
  run_subscriber_iff :
      (s : Subscriber T)
      → s.once_done ≡ false
      → ((run_subscriber s).ready ≡ true) ↔ AllSucceed nats options_json s
  run_subscriber_iff s first =
      let (there, back) = run_subscriber-ready s in
      let (needs, suffices) = run_once_iff nats options_json s first in
      (λ h. needs (there h), λ all. back (suffices all))
