-- ===== src/Process/Runs.antt =====
-- The states of a run of the controller: once it has started, after the events, and at the end.
use cf_app_sd_release.AddressTable.Table.{AddressTable}
use cf_app_sd_release.AddressTable.Validity.{IsValid, new_address_table-IsValid}
use cf_app_sd_release.Base.{List, Str, ap, refl, returns, sym, ◌∙◌, ◌≡◌}
use cf_app_sd_release.Config.Controller.{Config}
use cf_app_sd_release.Config.Servers.{join_commas, nats_servers}
use cf_app_sd_release.Mbus.MetricsRecorder.{new_metrics_recorder}
use cf_app_sd_release.Mbus.Running.{run_once-succeeds}
use cf_app_sd_release.Mbus.Subscriber.{Nats, Subscriber, new_subscriber, run_once}
use cf_app_sd_release.Process.Events.{ProcessEvent, Service, handle_all, new_service}
use cf_app_sd_release.Process.Main.{Environment, Stopped, main_with_error, on_signal, stopped}
use cf_app_sd_release.Process.Needs.{Starts, built_for}
use cf_app_sd_release.Process.Starting.{Starts-end_of}
use cf_app_sd_release.Process.Wiring.{build_address_table, subscriber_for}

same_end : (a b : Stopped) → returns (stopped a) ≡ returns (stopped b) → a ≡ b
same_end a b h = cc

pub fresh-IsValid : (conf : Config) → IsValid (build_address_table conf)
unfolding build_address_table
fresh-IsValid conf = new_address_table-IsValid _ _ _

module _ (env : Environment) (config_path : Str) where
  -- The connection that the subscriber has.
  abbrev pub connected : Starts env config_path → Nats
  connected h = env.connection (built_for h.conf h.uuid h.ip).url

  abbrev pub started : Starts env config_path → Subscriber AddressTable
  started h = (run_once (connected h) h.options_json (built_for h.conf h.uuid h.ip).subscriber).0

  abbrev pub handled : List ProcessEvent → Starts env config_path → Service
  handled events h =
      handle_all env.clock env.decode_message (connected h) h.options_json env.answering events
        (new_service (started h))

  pub started-table : (h : Starts env config_path) → (started h).table ≡ build_address_table h.conf
  unfolding subscriber_for new_subscriber
  started-table h =
      ap (λ r. r.0.table)
        (run_once-succeeds (env.connection (join_commas (nats_servers h.conf.nats))) h.options_json
          (new_subscriber (build_address_table h.conf) new_metrics_recorder) refl h.connected)

  pub stopped-end_of :
      (events : List ProcessEvent) (st : Stopped) (h : Starts env config_path)
      → main_with_error env config_path events ≡ returns (stopped st)
      → st ≡ on_signal (handled events h)
  stopped-end_of events st h end = same_end st _ (sym end ∙ Starts-end_of env config_path events h)
