-- ===== src/Process/Running.antt =====
-- What the running controller keeps, whatever happens to it.
use cf_app_sd_release.AddressTable.Sections.{section_at-IsValid}
use cf_app_sd_release.AddressTable.Table.{AddressTable, pause_pruning, resume_pruning, set_warm}
use cf_app_sd_release.AddressTable.Validity.{IsValid, add-IsValid, remove-IsValid, same-IsValid}
use cf_app_sd_release.Base.{
  Bool-cases, Clock, List, Option, Option-cases, Str, [], ap, arith, false, inl, inr, length, refl,
  str_eq, true, ◌==◌, ◌||◌, ◌∙◌, ◌∷◌, ◌≡◌,
}
use cf_app_sd_release.Config.Controller.{Config}
use cf_app_sd_release.Mbus.Handlers.{
  on_disconnect, on_greet, on_reconnect, on_register, on_unregister, on_warm,
}
use cf_app_sd_release.Mbus.Implementation.{table_ops}
use cf_app_sd_release.Mbus.Subscriber.{
  Nats, RegistryMessage, Subscriber, publish_msg, send_start_message, start_subject,
}
use cf_app_sd_release.Process.Events.{
  Answering, ProcessEvent, Service, emit, got_request, handle, handle_all, message, metrics_emitted,
  on_request, prune_next, pruning_section,
}
use cf_app_sd_release.Process.Messages.{
  MessageEvent, got_connection_back, got_greeting, got_register, got_unregister, lost_connection,
  receive, warming_over,
}
use cf_app_sd_release.Process.Settings.{
  add-settings, remove-settings, section_at-settings, settings,
}
use cf_app_sd_release.Process.Wiring.{build_address_table}

-- What a running controller keeps.
pub record IsControlled (conf : Config) (s : Subscriber AddressTable) : Type 0 where
  pub valid : IsValid s.table
  pub configured : settings s.table ≡ settings (build_address_table conf)
  pub unstopped : s.table.ticker_stopped ≡ false
  pub connected : s.has_client ≡ true
  pub unclosed : s.closes ≡ 0

-- A change of the table alone.
table-IsControlled :
    (conf : Config) (s u : Subscriber AddressTable)
    → IsValid u.table
    → (settings u.table ≡ settings s.table) × (u.table.ticker_stopped ≡ s.table.ticker_stopped)
    → (u.has_client ≡ s.has_client) × (u.closes ≡ s.closes)
    → IsControlled conf s
    → IsControlled conf u
table-IsControlled conf s u valid kept same h = record {
  valid = valid;
  configured = kept.0 ∙ h.configured;
  unstopped = kept.1 ∙ h.unstopped;
  connected = same.0 ∙ h.connected;
  unclosed = same.1 ∙ h.unclosed;
}

module _ (clock : Clock) (decoder : Str → Option RegistryMessage) (conn : Nats) (options_json : Str)
    (conf : Config) where
  got_register-IsControlled :
      (s : Subscriber AddressTable) (body : Str)
      → IsControlled conf s
      → IsControlled conf (on_register (table_ops clock) decoder clock s body)
  unfolding on_register
  got_register-IsControlled s body h = elim (Option-cases (decoder body)) [
    | inl e ↦ rw (e, on_register) h
    | inr (m, e) ↦ elim (Bool-cases (str_eq m.ip [] || length m.infra_names == 0)) [
      | inl bad ↦ rw (e, on_register) (rw bad h)
      | inr good ↦
          rw (e, on_register)
            (rw good (
              table-IsControlled conf s _ (add-IsValid clock s.table m.infra_names m.ip h.valid)
                (add-settings clock s.table m.infra_names m.ip) (refl, refl) h))
    ]
  ]

  got_unregister-IsControlled :
      (s : Subscriber AddressTable) (body : Str)
      → IsControlled conf s
      → IsControlled conf (on_unregister (table_ops clock) decoder s body)
  unfolding on_unregister
  got_unregister-IsControlled s body h = elim (Option-cases (decoder body)) [
    | inl e ↦ rw (e, on_unregister) h
    | inr (m, e) ↦ elim (Bool-cases (length m.infra_names == 0)) [
      | inl bad ↦ rw (e, on_unregister) (rw bad h)
      | inr good ↦
          rw (e, on_unregister)
            (rw good (
              table-IsControlled conf s _ (remove-IsValid s.table m.infra_names m.ip h.valid)
                (remove-settings s.table m.infra_names m.ip) (refl, refl) h))
    ]
  ]

  publish_msg-same :
      (s : Subscriber AddressTable) (subject body : Str)
      → ((publish_msg conn s subject body).0.table ≡ s.table)
        × ((publish_msg conn s subject body).0.has_client ≡ s.has_client)
        × ((publish_msg conn s subject body).0.closes ≡ s.closes)
  unfolding publish_msg
  publish_msg-same s subject body = ground arith

  published-IsControlled :
      (s : Subscriber AddressTable) (subject body : Str)
      → IsControlled conf s
      → IsControlled conf (publish_msg conn s subject body).0
  published-IsControlled s subject body h =
      let (same, client, closes) = publish_msg-same s subject body in
      table-IsControlled conf s _ (rw same h.valid)
        (ap settings same, ap (λ t. t.ticker_stopped) same) (client, closes) h

  receive-IsControlled :
      (m : MessageEvent) (s : Subscriber AddressTable)
      → IsControlled conf s
      → IsControlled conf (receive clock decoder conn options_json m s)
  unfolding receive on_greet on_disconnect on_reconnect on_warm send_start_message pause_pruning
      resume_pruning set_warm
  receive-IsControlled (got_register body) s h = got_register-IsControlled s body h
  receive-IsControlled (got_unregister body) s h = got_unregister-IsControlled s body h
  receive-IsControlled (got_greeting reply) s h = published-IsControlled s reply options_json h
  receive-IsControlled lost_connection s h =
      table-IsControlled conf s _ (same-IsValid s.table _ refl h.valid) (refl, refl) (refl, refl) h
  receive-IsControlled got_connection_back s h =
      published-IsControlled (record s { table = resume_pruning clock s.table }) start_subject
        options_json
        (table-IsControlled conf s _ (same-IsValid s.table _ refl h.valid) (refl, refl) (refl, refl)
          h)
  receive-IsControlled warming_over s h =
      table-IsControlled conf s _ (same-IsValid s.table _ refl h.valid) (refl, refl) (refl, refl) h

  pub handle-IsControlled :
      (a : Answering) (e : ProcessEvent) (s : Service)
      → IsControlled conf s.subscriber
      → IsControlled conf (handle clock decoder conn options_json a e s).subscriber
  unfolding handle prune_next on_request emit
  handle-IsControlled a (message m) s h = receive-IsControlled m s.subscriber h
  handle-IsControlled a pruning_section s h =
      let t = s.subscriber.table in
      table-IsControlled conf s.subscriber _ (section_at-IsValid clock t s.pruner h.valid)
        (section_at-settings clock t s.pruner) (refl, refl) h
  handle-IsControlled a (got_request path write_fails) s h = h
  handle-IsControlled a metrics_emitted s h =
      table-IsControlled conf s.subscriber _ h.valid (refl, refl) (refl, refl) h

  pub handle_all-IsControlled :
      (a : Answering) (es : List ProcessEvent) (s : Service)
      → IsControlled conf s.subscriber
      → IsControlled conf (handle_all clock decoder conn options_json a es s).subscriber
  unfolding handle_all
  handle_all-IsControlled a [] s h = h
  handle_all-IsControlled a (e ∷ es) s h =
      handle_all-IsControlled a es _ (handle-IsControlled a e s h)
