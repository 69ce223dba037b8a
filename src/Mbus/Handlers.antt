-- ===== src/Mbus/Handlers.antt =====
-- service-discovery-controller/mbus/subscriber.go: the callbacks that the subscriber gives to NATS.
use cf_app_sd_release.AddressTable.Addresses.{erase_ip, insert_ip, member}
use cf_app_sd_release.AddressTable.Hostname.{fqdn}
use cf_app_sd_release.Base.{
  Bool-cases, Clock, Option, Option-cases, Str, [], arith, false, if◌then◌else◌, inl, inr, length,
  map, none, refl, some, str_eq, str_eq_refl, str_eq_iff, true, ◌++◌, ◌+◌, ◌==◌, ◌||◌, ◌∷◌, ◌≡◌,
  ◌≢◌, ◌⊎◌,
}
use cf_app_sd_release.Mbus.MetricsRecorder.{record_message_transit_time}
use cf_app_sd_release.Mbus.Subscriber.{
  Nats, RegistryMessage, Subscriber, publish_msg, send_start_message, start_subject,
}
use cf_app_sd_release.Mbus.Table.{TableOps}

module _ (ops : TableOps) where
  open ops use {Table, add, remove, pause_pruning, resume_pruning, set_warm}

  -- `service-discovery.greet`: the answer goes to the subject that the message names. A failure to
  -- publish is only logged.
  unfoldable pub on_greet : Nats → Str → Subscriber Table → Str → Subscriber Table
  on_greet nats options_json s reply = (publish_msg nats s reply options_json).0

  -- `service-discovery.register`
  unfoldable pub on_register :
      (Str → Option RegistryMessage) → Clock → Subscriber Table → Str → Subscriber Table
  on_register unmarshal clock s body = elim (unmarshal body) [
    | none ↦ s
    | some m ↦ if str_eq m.ip [] || length m.infra_names == 0 then s else record s {
      recorder = record_message_transit_time clock s.recorder m.endpoint_updated_at;
      register_messages_received = s.register_messages_received + 1;
      table = add s.table m.infra_names m.ip;
    }
  ]

  -- `service-discovery.unregister`
  unfoldable pub on_unregister :
      (Str → Option RegistryMessage) → Subscriber Table → Str → Subscriber Table
  on_unregister unmarshal s body = elim (unmarshal body) [
    | none ↦ s
    | some m ↦
        if length m.infra_names == 0
        then s
        else record s { table = remove s.table m.infra_names m.ip }
  ]

  unfoldable pub on_disconnect : Subscriber Table → Subscriber Table
  on_disconnect s = record s { table = pause_pruning s.table }

  -- The error of the start message is dropped.
  unfoldable pub on_reconnect : Nats → Str → Subscriber Table → Subscriber Table
  on_reconnect nats options_json s =
      (send_start_message nats options_json (record s { table = resume_pruning s.table })).0

  -- The goroutine that waits for the warming duration.
  unfoldable pub on_warm : Subscriber Table → Subscriber Table
  on_warm s = record s { table = set_warm s.table }

  pub on_register-accepted :
      (unmarshal : Str → Option RegistryMessage) (clock : Clock) (s : Subscriber Table) (body : Str)
      (m : RegistryMessage)
      → unmarshal body ≡ some m
      → (str_eq m.ip [] || length m.infra_names == 0) ≡ false
      → on_register unmarshal clock s body ≡ record s {
        recorder = record_message_transit_time clock s.recorder m.endpoint_updated_at;
        register_messages_received = s.register_messages_received + 1;
        table = add s.table m.infra_names m.ip;
      }
  unfolding on_register
  on_register-accepted unmarshal clock s body m decoded valid =
      rw (decoded, on_register) (rw valid refl)

  -- A register message that decodes, with an address and at least one name, is counted once and puts
  -- the address behind the others of every host that it names, unless it is there; every other host
  -- keeps its addresses. Nothing is published.
  pub on_register-lookup :
      (unmarshal : Str → Option RegistryMessage) (clock : Clock) (s : Subscriber Table) (body : Str)
      (m : RegistryMessage) (h : Str)
      → unmarshal body ≡ some m
      → m.ip ≢ []
      → m.infra_names ≢ []
      → let s' = on_register unmarshal clock s body in
        (ops.lookup_ips s'.table h ≡ (
          if member (fqdn h) (map fqdn m.infra_names)
          then insert_ip m.ip (ops.lookup_ips s.table h)
          else ops.lookup_ips s.table h))
        × (s'.register_messages_received ≡ s.register_messages_received + 1)
        × (s'.published ≡ s.published)
  on_register-lookup unmarshal clock s body m h decoded ip names =
      let law = ops.lookup-add s.table m.infra_names m.ip h in
      let valid : (str_eq m.ip [] || length m.infra_names == 0) ≡ false =
        ground (arith, str_eq_iff m.ip []) in
      rw (on_register-accepted unmarshal clock s body m decoded valid) (law, refl, refl)

  -- A register message that does not decode, or has no address, or names no host, changes nothing.
  on_register-malformed :
      (unmarshal : Str → Option RegistryMessage) (clock : Clock) (s : Subscriber Table) (body : Str)
      → ((m : RegistryMessage) → unmarshal body ≡ some m → (m.ip ≡ []) ⊎ (m.infra_names ≡ []))
      → on_register unmarshal clock s body ≡ s
  unfolding on_register
  on_register-malformed unmarshal clock s body bad = elim (Option-cases (unmarshal body)) [
    | inl e ↦ rw (e, on_register) refl
    | inr (m, e) ↦ rw (e, on_register) (ground (arith, bad m e, str_eq_refl []))
  ]

  -- An unregister message that decodes and names a host takes its address from every host that it
  -- names, also without an address; every other host keeps its addresses. (The table must be sound.)
  pub on_unregister-lookup :
      (unmarshal : Str → Option RegistryMessage) (s : Subscriber Table) (body : Str)
      (m : RegistryMessage) (h : Str)
      → unmarshal body ≡ some m
      → m.infra_names ≢ []
      → ops.IsSound s.table
      → ops.lookup_ips (on_unregister unmarshal s body).table h ≡ (
          if member (fqdn h) (map fqdn m.infra_names)
          then erase_ip m.ip (ops.lookup_ips s.table h)
          else ops.lookup_ips s.table h)
  unfolding on_unregister
  on_unregister-lookup unmarshal s body m h decoded names sound =
      let law = ops.lookup-remove s.table m.infra_names m.ip h sound in
      let valid : (length m.infra_names == 0) ≡ false = ground arith in
      let e : on_unregister unmarshal s body
          ≡ record s { table = remove s.table m.infra_names m.ip } =
        rw (decoded, on_unregister) (rw valid refl) in
      rw e law

  -- A lost connection pauses pruning, and its return resumes it and sends the start message once more
  -- if that attempt to publish succeeds; neither changes what else was published.
  on_disconnect-on_reconnect :
      (nats : Nats) (options_json : Str) (s : Subscriber Table)
      → let off = on_disconnect s in
        let on = on_reconnect nats options_json off in
        (ops.is_paused off.table ≡ true)
        × (off.published ≡ s.published)
        × (ops.is_paused on.table ≡ false)
        × (on.published ≡ (
            if nats.publishes s.attempts
            then s.published ++ (start_subject, options_json) ∷ []
            else s.published))
  unfolding on_disconnect on_reconnect send_start_message publish_msg
  on_disconnect-on_reconnect nats options_json s = (
    ops.is_paused-pause s.table,
    refl,
    elim (Bool-cases (nats.publishes s.attempts)) [
      | inl e ↦ rw (e, on_reconnect) (ops.is_paused-resume _)
      | inr e ↦ rw (e, on_reconnect) (ops.is_paused-resume _)
    ],
    ground arith,
  )
