-- ===== src/Process/Announced.antt =====
-- What the messages of a run announce, and how one event changes the table.
use cf_app_sd_release.AddressTable.Calls.{
  Call, View, adds, apply, pauses, removes, resumes, view_apply, warms,
}
use cf_app_sd_release.AddressTable.Table.{AddressTable, resume_pruning}
use cf_app_sd_release.Base.{
  Clock, List, Option, Str, [], arith, if◌then◌else◌, inl, inr, length, none, refl, some, str_eq,
  ◌==◌, ◌||◌, ◌∷◌, ◌≡◌, ◌≢◌, ◌⊎◌,
}
use cf_app_sd_release.Mbus.Handlers.{
  on_disconnect, on_greet, on_reconnect, on_register, on_unregister, on_warm,
}
use cf_app_sd_release.Mbus.Subscriber.{
  Nats, RegistryMessage, Subscriber, publish_msg, send_start_message, start_subject,
}
use cf_app_sd_release.Process.Events.{
  Answering, ProcessEvent, Service, emit, got_request, handle, message, metrics_emitted, on_request,
  pruning_section,
}
use cf_app_sd_release.Process.Messages.{
  MessageEvent, got_connection_back, got_greeting, got_register, got_unregister, lost_connection,
  receive, warming_over,
}

-- A register message needs an address and a name, an unregister message a name.
unfoldable pub registration_call : RegistryMessage → Option Call
registration_call m =
    if str_eq m.ip [] || length m.infra_names == 0 then none else some (adds m.infra_names m.ip)

unfoldable pub unregistration_call : RegistryMessage → Option Call
unregistration_call m =
    if length m.infra_names == 0 then none else some (removes m.infra_names m.ip)

unfoldable pub called : Clock → AddressTable → Option Call → AddressTable
called clock t none = t
called clock t (some c) = apply clock t c

unfoldable pub view_called : View → Option Call → View
view_called v none = v
view_called v (some c) = view_apply v c

pub section_or_not : (e : ProcessEvent) → (e ≡ pruning_section) ⊎ (e ≢ pruning_section)
section_or_not (message m) = inr λ h. cc
section_or_not pruning_section = inl refl
section_or_not (got_request path write_fails) = inr λ h. cc
section_or_not metrics_emitted = inr λ h. cc

module _ (decoder : Str → Option RegistryMessage) where
  -- What a message asks of the table.
  unfoldable pub message_call : MessageEvent → Option Call
  unfolding registration_call unregistration_call
  message_call (got_register body) = elim (decoder body) [
    | none ↦ none
    | some m ↦ registration_call m
  ]
  message_call (got_unregister body) = elim (decoder body) [
    | none ↦ none
    | some m ↦ unregistration_call m
  ]
  message_call (got_greeting reply) = none
  message_call lost_connection = some pauses
  message_call got_connection_back = some resumes
  message_call warming_over = some warms

  unfoldable pub call_of : ProcessEvent → Option Call
  unfolding message_call
  call_of (message m) = message_call m
  call_of pruning_section = none
  call_of (got_request path write_fails) = none
  call_of metrics_emitted = none

  publish_msg-table :
      (conn : Nats) (s : Subscriber AddressTable) (subject body : Str)
      → (publish_msg conn s subject body).0.table ≡ s.table
  unfolding publish_msg
  publish_msg-table conn s subject body = ground arith

  pub receive-called :
      (clock : Clock) (conn : Nats) (options_json : Str) (m : MessageEvent)
      (s : Subscriber AddressTable)
      → (receive clock decoder conn options_json m s).table ≡ called clock s.table (message_call m)
  unfolding receive on_register on_unregister on_greet on_disconnect on_reconnect on_warm
      send_start_message apply message_call called registration_call unregistration_call
  receive-called clock conn options_json (got_register body) s = ground arith
  receive-called clock conn options_json (got_unregister body) s = ground arith
  receive-called clock conn options_json (got_greeting reply) s =
      publish_msg-table conn s reply options_json
  receive-called clock conn options_json lost_connection s = refl
  receive-called clock conn options_json got_connection_back s =
      publish_msg-table conn (record s { table = resume_pruning clock s.table }) start_subject
        options_json
  receive-called clock conn options_json warming_over s = refl

  -- An event other than a section of the pruning goroutine changes the table by its call.
  pub handle-called :
      (clock : Clock) (conn : Nats) (options_json : Str) (a : Answering) (e : ProcessEvent)
      (s : Service)
      → e ≢ pruning_section
      → (handle clock decoder conn options_json a e s).subscriber.table
        ≡ called clock s.subscriber.table (call_of e)
  unfolding handle call_of on_request emit called
  handle-called clock conn options_json a (message m) s h =
      receive-called clock conn options_json m s.subscriber
  handle-called clock conn options_json a pruning_section s h = absurd (h refl)
  handle-called clock conn options_json a (got_request path write_fails) s h = refl
  handle-called clock conn options_json a metrics_emitted s h = refl

-- The abstract table after the events.
unfoldable pub announced : (Str → Option RegistryMessage) → View → List ProcessEvent → View
announced decoder v [] = v
announced decoder v (e ∷ es) = announced decoder (view_called v (call_of decoder e)) es
