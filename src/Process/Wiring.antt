-- ===== src/Process/Wiring.antt =====
-- service-discovery-controller/main.go: `readConfig`, `buildAddressTable` and `buildSubscriber`. Reading
-- files, the generator of UUIDs and the local address are parameters: `none` is an error.
use cf_app_sd_release.AddressTable.Table.{AddressTable, new_address_table}
use cf_app_sd_release.Base.{
  Bool, List, Option, Str, false, inl, inr, none, pos, some, ℤ, ◌++◌, ◌∷◌, ◌⊎◌,
}
use cf_app_sd_release.Config.Checks.{Check, ConfigError}
use cf_app_sd_release.Config.Controller.{Config, new_config}
use cf_app_sd_release.Config.Servers.{join_commas, nats_servers}
use cf_app_sd_release.Mbus.MetricsRecorder.{MetricsRecorder}
use cf_app_sd_release.Mbus.Start.{SubscriberOpts}
use cf_app_sd_release.Mbus.Subscriber.{Subscriber, new_subscriber}
use cf_app_sd_release.Process.Durations.{duration_of_seconds}

pub data ReadError : Type 0 where
  unreadable_file : ReadError
  unparsable : ConfigError → ReadError

unfoldable pub read_config :
    (Str → Option Str) → (Str → Option Config) → (List Check → Bool) → Str → ReadError ⊎ Config
read_config read_file unmarshal valid config_path = elim (read_file config_path) [
  | none ↦ inl unreadable_file
  | some text ↦ elim (new_config unmarshal valid text) [
    | inl e ↦ inl (unparsable e)
    | inr conf ↦ inr conf
  ]
]

unfoldable pub build_address_table : Config → AddressTable
build_address_table conf =
    new_address_table (duration_of_seconds conf.staleness_threshold_seconds)
      (duration_of_seconds conf.pruning_interval_seconds)
      (duration_of_seconds conf.resume_pruning_delay_seconds)

-- What `NewSubscriber` is called with, and the subscriber.
pub record BuiltSubscriber : Type 0 where
  pub opts : SubscriberOpts
  pub url : Str
  pub local_ip : Str
  pub warming_duration : ℤ
  pub subscriber : Subscriber AddressTable

unfoldable pub subscriber_opts : Config → Str → SubscriberOpts
subscriber_opts conf uuid = record {
  id = conf.index ++ (b'-' ∷ uuid);
  minimum_register_interval_in_seconds = conf.resume_pruning_delay_seconds;
  prune_threshold_in_seconds = pos 120;
  accept_tls = false;
}

-- The subscriber for a UUID and a local address.
unfoldable pub subscriber_for :
    Config → AddressTable → MetricsRecorder → Str → Str → BuiltSubscriber
unfolding subscriber_opts
subscriber_for conf address_table recorder uuid ip = record {
  opts = subscriber_opts conf uuid;
  url = join_commas (nats_servers conf.nats);
  local_ip = ip;
  warming_duration = duration_of_seconds conf.warm_duration_seconds;
  subscriber = new_subscriber address_table recorder;
}

unfoldable pub build_subscriber :
    Option Str → Option Str → Config → AddressTable → MetricsRecorder → Option BuiltSubscriber
unfolding subscriber_for
build_subscriber none local_ip conf address_table recorder = none
build_subscriber (some uuid) none conf address_table recorder = none
build_subscriber (some uuid) (some ip) conf address_table recorder =
    some (subscriber_for conf address_table recorder uuid ip)
