-- ===== src/Process/Steps.antt =====
-- The run of the controller as a run of the table's system: the calls of many goroutines, between the
-- sections of the pruning goroutine.
use cf_app_sd_release.AddressTable.Calls.{Call, apply, shuts_down}
use cf_app_sd_release.AddressTable.Interleaving.{System, waiting}
use cf_app_sd_release.AddressTable.Sections.{section_at-Step}
use cf_app_sd_release.AddressTable.Traces.{
  TableMove, Trace, a_call, trace_end, a_section, trace_call, trace_section,
}
use cf_app_sd_release.Base.{
  Clock, List, Option, Str, [], ap, arith, inr, none, refl, returns, some, ◌++◌, ◌∷◌, ◌≡◌,
}
use cf_app_sd_release.Config.Controller.{Config}
use cf_app_sd_release.Mbus.MetricsRecorder.{new_metrics_recorder}
use cf_app_sd_release.Mbus.Running.{run_once-succeeds}
use cf_app_sd_release.Mbus.Subscriber.{Nats, RegistryMessage, close, new_subscriber}
use cf_app_sd_release.Process.Announced.{called, message_call, receive-called}
use cf_app_sd_release.Process.Ending.{build_address_table_sound, run_once-IsControlled}
use cf_app_sd_release.Process.Events.{
  Answering, ProcessEvent, Service, emit, got_request, handle, handle_all, message, metrics_emitted,
  new_service, on_request, prune_next, pruning_section,
}
use cf_app_sd_release.Process.Main.{Environment, Stopped, main_with_error, on_signal, stopped}
use cf_app_sd_release.Process.Needs.{Starts}
use cf_app_sd_release.Process.Running.{IsControlled, handle-IsControlled, handle_all-IsControlled}
use cf_app_sd_release.Process.Runs.{connected, handled, started, started-table, stopped-end_of}
use cf_app_sd_release.Process.Starting.{stopped-Starts}
use cf_app_sd_release.Process.Wiring.{build_address_table, read_config, subscriber_for}

-- The table and the pruning goroutine of the running controller.
abbrev pub system_of : Service → System
system_of s = record { table = s.subscriber.table; pruner = s.pruner }

-- A call that a message asks for, and then the others.
unfoldable pub call_first : Option Call → List TableMove → List TableMove
call_first none ms = ms
call_first (some c) ms = a_call c ∷ ms

-- What events ask of the table, in their order: requests and readings nothing, and a message the call
-- that its kind and its contents name.
unfoldable pub moves_of : (Str → Option RegistryMessage) → List ProcessEvent → List TableMove
unfolding call_first message_call
moves_of decoder [] = []
moves_of decoder (message m ∷ es) = call_first (message_call decoder m) (moves_of decoder es)
moves_of decoder (pruning_section ∷ es) = a_section ∷ moves_of decoder es
moves_of decoder (got_request path write_fails ∷ es) = moves_of decoder es
moves_of decoder (metrics_emitted ∷ es) = moves_of decoder es

call_first-append :
    (c : Option Call) (ms ns : List TableMove) → call_first c ms ++ ns ≡ call_first c (ms ++ ns)
unfolding call_first
call_first-append none ms ns = refl
call_first-append (some c) ms ns = refl

called-Trace :
    (clock : Clock) (s : System) (c : Option Call) (ms : List TableMove) (u : System)
    → Trace clock ms (record s { table = called clock s.table c }) u
    → Trace clock (call_first c ms) s u
unfolding called call_first
called-Trace clock s none ms u tr = tr
called-Trace clock s (some c) ms u tr = trace_call c tr

module _ (clock : Clock) (decoder : Str → Option RegistryMessage) (conn : Nats) (options_json : Str)
    (a : Answering) (conf : Config) (last : List TableMove) where
  -- From the events on, if it goes on by `last`.
  handle_all-Trace :
      (es : List ProcessEvent) (s : Service) (u : System)
      → IsControlled conf s.subscriber
      → Trace clock last (system_of (handle_all clock decoder conn options_json a es s)) u
      → Trace clock (moves_of decoder es ++ last) (system_of s) u
  unfolding handle_all moves_of handle prune_next on_request emit
  handle_all-Trace [] s u h tr = tr
  handle_all-Trace (message m ∷ es) s u h tr =
      let kept = handle-IsControlled clock decoder conn options_json conf a (message m) s h in
      let rest = handle_all-Trace es _ u kept tr in
      let c = message_call decoder m in
      rw (call_first-append c (moves_of decoder es) last) (
        called-Trace clock (system_of s) c _ u
          (rw (receive-called decoder clock conn options_json m s.subscriber) at rest))
  handle_all-Trace (pruning_section ∷ es) s u h tr =
      let kept = handle-IsControlled clock decoder conn options_json conf a pruning_section s h in
      let (st, own) = section_at-Step clock s.subscriber.table s.pruner h.unstopped in
      trace_section st own (handle_all-Trace es _ u kept tr)
  handle_all-Trace (got_request path write_fails ∷ es) s u h tr =
      let e = got_request path write_fails in
      handle_all-Trace es _ u (handle-IsControlled clock decoder conn options_json conf a e s h) tr
  handle_all-Trace (metrics_emitted ∷ es) s u h tr =
      let kept = handle-IsControlled clock decoder conn options_json conf a metrics_emitted s h in
      handle_all-Trace es _ u kept tr

shutdown-Trace :
    (clock : Clock) (s : Service)
    → Trace clock (a_call shuts_down ∷ []) (system_of s) (system_of (on_signal s).service)
unfolding on_signal close apply
shutdown-Trace clock s =
    let same : system_of (on_signal s).service
        ≡ record { table = apply clock s.subscriber.table shuts_down; pruner = s.pruner } =
      ground arith in
    rw same (trace_call shuts_down trace_end)

module _ (env : Environment) (config_path : Str) (events : List ProcessEvent) where
  started-IsControlled :
      (h : Starts env config_path) → IsControlled h.conf (started env config_path h)
  unfolding subscriber_for new_subscriber
  started-IsControlled h =
      let fresh = new_subscriber (build_address_table h.conf) new_metrics_recorder in
      let (valid, unstopped) = build_address_table_sound h.conf in
      let ok =
        run_once-succeeds (connected env config_path h) h.options_json fresh refl h.connected in
      run_once-IsControlled (connected env config_path h) h.options_json h.conf fresh refl
        (ap (λ r. r.1) ok) valid refl unstopped refl

  pub handled-IsControlled :
      (h : Starts env config_path)
      → IsControlled h.conf (handled env config_path events h).subscriber
  unfolding new_service
  handled-IsControlled h =
      handle_all-IsControlled env.clock env.decode_message (connected env config_path h)
        h.options_json h.conf env.answering events (new_service (started env config_path h))
        (started-IsControlled h)

  -- When the controller ends by a signal, its table and its pruning goroutine have gone, from the empty
  -- table of its configuration, through exactly the calls that the messages name, in their order, and as
  -- many steps of the goroutine, between them where its sections came, and `Shutdown` as the last call.
  -- A register message names an `Add` if it decodes and has an address and a name, and an unregister
  -- message a `Remove` if it decodes and has a name; the loss and the return of the connection and the end
  -- of the warming name `PausePruning`, `ResumePruning` and `SetWarm`; nothing else makes a call.
  pub main_with_error-Trace :
      (st : Stopped)
      → main_with_error env config_path events ≡ returns (stopped st)
      → (conf : Config) × (read_config env.read_file env.unmarshal_config env.validator config_path
          ≡ inr conf)
        × Trace env.clock
            (moves_of env.decode_message events ++ a_call shuts_down ∷ [])
            (record { table = build_address_table conf; pruner = waiting })
            (system_of st.service)
  unfolding new_service
  main_with_error-Trace st end =
      let h = stopped-Starts env config_path events st end in
      let s = handled env config_path events h in
      let all =
        handle_all-Trace env.clock env.decode_message (connected env config_path h) h.options_json
          env.answering h.conf (a_call shuts_down ∷ []) events
          (new_service (started env config_path h)) _ (started-IsControlled h)
          (shutdown-Trace env.clock s) in
      (
        h.conf,
        h.read,
        rw (stopped-end_of env config_path events st h end)
            (rw (started-table env config_path h) at all),
      )
