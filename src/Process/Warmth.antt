-- ===== src/Process/Warmth.antt =====
-- When the table of the running controller is warm.
use cf_app_sd_release.AddressTable.Interleaving.{Pruner, checked, collected, waiting}
use cf_app_sd_release.AddressTable.Prune.{
  Totals, addresses_with_stale_entries, may_prune, prune_address, prune_addresses,
}
use cf_app_sd_release.AddressTable.Sections.{section_at}
use cf_app_sd_release.AddressTable.Table.{
  AddressTable, pause_pruning, remove, remove_host, resume_pruning, set_warm,
}
use cf_app_sd_release.AddressTable.Ticks.{no_totals, prune_stale_entries-table}
use cf_app_sd_release.Base.{
  Bool, Clock, List, Option, Option-cases, Str, [], ap, arith, false, inl, inr, refl, sym, true,
  ◌||◌, ◌∙◌, ◌∷◌, ◌≡◌,
}
use cf_app_sd_release.Mbus.Handlers.{
  on_disconnect, on_greet, on_reconnect, on_register, on_unregister, on_warm,
}
use cf_app_sd_release.Mbus.Subscriber.{
  Nats, RegistryMessage, Subscriber, publish_msg, send_start_message,
}
use cf_app_sd_release.Process.Events.{
  Answering, ProcessEvent, Service, emit, got_request, handle, handle_all, message, metrics_emitted,
  on_request, prune_next, pruning_section,
}
use cf_app_sd_release.Process.Messages.{
  MessageEvent, got_connection_back, got_greeting, got_register, got_unregister, lost_connection,
  receive, warming_over,
}
use cf_app_sd_release.Routes.Serving.{add-warm}

abbrev ends_warming : MessageEvent → Bool
ends_warming (got_register body) = false
ends_warming (got_unregister body) = false
ends_warming (got_greeting reply) = false
ends_warming lost_connection = false
ends_warming got_connection_back = false
ends_warming warming_over = true

unfoldable pub warms_now : ProcessEvent → Bool
warms_now (message m) = ends_warming m
warms_now pruning_section = false
warms_now (got_request path write_fails) = false
warms_now metrics_emitted = false

-- Whether the warming duration is over after the events.
unfoldable pub warmed : List ProcessEvent → Bool
warmed [] = false
warmed (e ∷ es) = warms_now e || warmed es

remove-warm :
    (t : AddressTable) (hostnames : List Str) (ip : Str) → (remove t hostnames ip).warm ≡ t.warm
unfolding remove remove_host
remove-warm t [] ip = refl
remove-warm t (h ∷ hs) ip = ground (arith, remove-warm (remove_host ip t h) hs ip)

prune_addresses-warm :
    (clock : Clock) (t : AddressTable) (totals : Totals) (cs : List Str)
    → (prune_addresses clock (t, totals) cs).0.warm ≡ t.warm
unfolding prune_addresses prune_address
prune_addresses-warm clock t totals [] = refl
prune_addresses-warm clock t totals (c ∷ cs) =
    let s = prune_address clock (t, totals) c in
    ground (arith, prune_addresses-warm clock s.0 s.1 cs)

section_at-warm :
    (clock : Clock) (t : AddressTable) (p : Pruner) → (section_at clock t p).table.warm ≡ t.warm
unfolding section_at may_prune addresses_with_stale_entries
section_at-warm clock t waiting = ground arith
section_at-warm clock t checked = refl
section_at-warm clock t (collected cs) =
    rw (prune_stale_entries-table clock t cs) (prune_addresses-warm clock t no_totals cs)

or_false : (b : Bool) → (b || false) ≡ b
or_false true = refl
or_false false = refl

or_assoc : (a b c : Bool) → (a || (b || c)) ≡ ((a || b) || c)
or_assoc true b c = refl
or_assoc false b c = refl

module _ (clock : Clock) (decoder : Str → Option RegistryMessage) (conn : Nats) (options_json : Str)
    (a : Answering) where
  receive-warm :
      (m : MessageEvent) (s : Subscriber AddressTable)
      → (receive clock decoder conn options_json m s).table.warm ≡ (s.table.warm || ends_warming m)
  unfolding receive on_register on_unregister on_greet on_disconnect on_reconnect on_warm
      publish_msg send_start_message pause_pruning resume_pruning set_warm
  receive-warm (got_register body) s = elim (Option-cases (decoder body)) [
    | inl e ↦ ground arith
    | inr (m, e) ↦ ground (arith, add-warm clock s.table m.infra_names m.ip)
  ]
  receive-warm (got_unregister body) s = elim (Option-cases (decoder body)) [
    | inl e ↦ ground arith
    | inr (m, e) ↦ ground (arith, remove-warm s.table m.infra_names m.ip)
  ]
  receive-warm (got_greeting reply) s = ground arith
  receive-warm lost_connection s = ground arith
  receive-warm got_connection_back s = ground arith
  receive-warm warming_over s = ground arith

  handle-warm :
      (e : ProcessEvent) (s : Service)
      → (handle clock decoder conn options_json a e s).subscriber.table.warm
        ≡ (s.subscriber.table.warm || warms_now e)
  unfolding handle prune_next on_request emit warms_now
  handle-warm (message m) s = receive-warm m s.subscriber
  handle-warm pruning_section s =
      section_at-warm clock s.subscriber.table s.pruner ∙ sym (or_false s.subscriber.table.warm)
  handle-warm (got_request path write_fails) s = sym (or_false s.subscriber.table.warm)
  handle-warm metrics_emitted s = sym (or_false s.subscriber.table.warm)

  -- The table is warm if it was, or if the warming duration has ended since.
  pub handle_all-warm :
      (es : List ProcessEvent) (s : Service)
      → (handle_all clock decoder conn options_json a es s).subscriber.table.warm
        ≡ (s.subscriber.table.warm || warmed es)
  unfolding handle_all warmed
  handle_all-warm [] s = sym (or_false s.subscriber.table.warm)
  handle_all-warm (e ∷ es) s =
      handle_all-warm es (handle clock decoder conn options_json a e s)
      ∙ ap (λ b. b || warmed es) (handle-warm e s)
      ∙ sym (or_assoc s.subscriber.table.warm (warms_now e) (warmed es))
