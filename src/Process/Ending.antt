-- ===== src/Process/Ending.antt =====
-- What holds of the controller when it has been stopped.
use cf_app_sd_release.AddressTable.Table.{AddressTable, new_address_table}
use cf_app_sd_release.AddressTable.Validity.{IsValid, new_address_table-IsValid}
use cf_app_sd_release.Base.{List, Option-cases, Str, arith, false, inl, inr, none, refl, true, ◌≡◌}
use cf_app_sd_release.Config.Controller.{Config}
use cf_app_sd_release.Mbus.MetricsRecorder.{MetricsRecorder}
use cf_app_sd_release.Mbus.Running.{run_once-needs, run_once-succeeds}
use cf_app_sd_release.Mbus.Subscriber.{Nats, Subscriber, run_once}
use cf_app_sd_release.Process.Events.{ProcessEvent, handle_all, new_service}
use cf_app_sd_release.Process.Main.{
  Environment, Stopped, http_run, later_members, on_signal, run_group, stopped,
}
use cf_app_sd_release.Process.Running.{IsControlled}
use cf_app_sd_release.Process.Settings.{settings}
use cf_app_sd_release.Process.Wiring.{BuiltSubscriber, build_address_table}

-- A subscriber whose first `RunOnce` returns no error keeps its table, and has a client.
pub run_once-IsControlled :
    (conn : Nats) (options_json : Str) (conf : Config) (s : Subscriber AddressTable)
    → s.once_done ≡ false
    → (run_once conn options_json s).1 ≡ none
    → IsValid s.table
    → settings s.table ≡ settings (build_address_table conf)
    → s.table.ticker_stopped ≡ false
    → s.closes ≡ 0
    → IsControlled conf (run_once conn options_json s).0
run_once-IsControlled conn options_json conf s first ok valid configured unstopped unclosed =
    let e =
      run_once-succeeds conn options_json s first (run_once-needs conn options_json s first ok) in
    rw e (record {
      valid = valid;
      configured = configured;
      unstopped = unstopped;
      connected = refl;
      unclosed = unclosed;
    })

-- The state after a signal.
pub record IsShutDown (conf : Config) (st : Stopped) : Type 0 where
  pub valid : IsValid st.service.subscriber.table
  pub configured : settings st.service.subscriber.table ≡ settings (build_address_table conf)
  pub no_ticks : st.service.subscriber.table.ticker_stopped ≡ true
  pub closed : st.service.subscriber.closes ≡ 1

pub build_address_table_sound :
    (conf : Config)
    → IsValid (build_address_table conf) × ((build_address_table conf).ticker_stopped ≡ false)
unfolding build_address_table new_address_table
build_address_table_sound conf = (new_address_table-IsValid _ _ _, refl)

stopped_inj : {a b : Stopped} → stopped a ≡ stopped b → a ≡ b
stopped_inj h = cc

pub run_group-stopped :
    (env : Environment) (conf : Config) (b : BuiltSubscriber) (events : List ProcessEvent)
    (options_json : Str) (st : Stopped)
    → run_group env conf b events options_json ≡ stopped st
    → let started = run_once (env.connection b.url) options_json b.subscriber in
      (started.1 ≡ none)
      × (later_members env conf ≡ none)
      × (st
          ≡ on_signal (
              handle_all env.clock env.decode_message
                (env.connection b.url)
                options_json
                env.answering
                events
                (new_service started.0)))
unfolding run_group
run_group-stopped env conf b events options_json st h =
    elim (Option-cases (run_once (env.connection b.url) options_json b.subscriber).1) [
      | inl ok ↦ elim (Option-cases (later_members env conf)) [
        | inl fine ↦ (ok, fine, ground arith)
        | inr (e, bad) ↦ absurd (ground arith)
      ]
      | inr (e, bad) ↦ absurd (ground arith)
    ]

pub later_members-error :
    (env : Environment) (conf : Config)
    → later_members env conf ≡ none
    → (env.log_level_starts conf.log_level_address conf.log_level_port ≡ true)
      × ((http_run env conf).error ≡ none)
unfolding later_members
later_members-error env conf h = ground arith
