-- ===== src/Mbus/Start.antt =====
-- service-discovery-controller/mbus/subscriber.go: the start message, which also answers greetings.
use cf_app_sd_release.Base.{Bool, Option, Outcome, Str, none, panics, returns, some, ℤ}
use cf_app_sd_release.Process.LocalIp.{local_ip}

pub record SubscriberOpts : Type 0 where
  pub id : Str
  pub minimum_register_interval_in_seconds : ℤ
  pub prune_threshold_in_seconds : ℤ
  pub accept_tls : Bool

pub record ServiceDiscoveryStartMessage : Type 0 where
  pub id : Str
  pub host : Str
  pub minimum_register_interval_in_seconds : ℤ
  pub prune_threshold_in_seconds : ℤ

unfoldable pub start_message : SubscriberOpts → Str → ServiceDiscoveryStartMessage
start_message opts local_ip = record {
  id = opts.id;
  host = local_ip;
  minimum_register_interval_in_seconds = opts.minimum_register_interval_in_seconds;
  prune_threshold_in_seconds = opts.prune_threshold_in_seconds;
}

-- `subscriptionOptionsJSON`, which panics if the encoder fails.
unfoldable pub subscription_options_json :
    (ServiceDiscoveryStartMessage → Option Str) → SubscriberOpts → Str → Outcome Str
unfolding start_message
subscription_options_json marshal opts local_ip = elim (marshal (start_message opts local_ip)) [
  | none ↦ panics
  | some json ↦ returns json
]
