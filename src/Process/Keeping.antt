-- ===== src/Process/Keeping.antt =====
-- Why the running controller loses an address.
use mathlib.Core.Bool.{false≢true}
use cf_app_sd_release.AddressTable.Addresses.{member, member-insert_ip}
use cf_app_sd_release.AddressTable.Calls.{adds, apply}
use cf_app_sd_release.AddressTable.Entries.{Entry}
use cf_app_sd_release.AddressTable.Hostname.{fqdn}
use cf_app_sd_release.AddressTable.Interleaving.{
  Pruner, checked, collected, may_prune-addresses, waiting,
}
use cf_app_sd_release.AddressTable.Lookups.{add-ips, ips_at}
use cf_app_sd_release.AddressTable.Losses.{add-keeps, prunes-stale, remove-lost, same-ips}
use cf_app_sd_release.AddressTable.Prune.{addresses_with_stale_entries, is_stale}
use cf_app_sd_release.AddressTable.Sections.{section_at}
use cf_app_sd_release.AddressTable.Staleness.{Holds}
use cf_app_sd_release.AddressTable.Table.{
  AddressTable, entries_for_hostname, pause_pruning, resume_pruning, set_warm,
}
use cf_app_sd_release.AddressTable.Validity.{IsValid}
use cf_app_sd_release.Base.{
  Bool-cases, Clock, IsMonotone, List, Option, Option-cases, Str, [], ap, arith, false, inl, inr,
  length, map, refl, some, str_eq_iff, sym, true, ◌++◌, ◌==◌, ◌∙◌, ◌∷◌, ◌≡◌, ◌≢◌,
}
use cf_app_sd_release.Config.Controller.{Config}
use cf_app_sd_release.Mbus.Accepting.{accepted}
use cf_app_sd_release.Mbus.Subscriber.{Nats, RegistryMessage}
use cf_app_sd_release.Process.Announced.{
  called, message_call, receive-called, registration_call, unregistration_call,
}
use cf_app_sd_release.Process.Events.{
  Answering, ProcessEvent, Service, emit, got_request, handle, handle_all, message, metrics_emitted,
  on_request, prune_next, pruning_section,
}
use cf_app_sd_release.Process.Messages.{
  MessageEvent, got_connection_back, got_greeting, got_register, got_unregister, lost_connection,
  warming_over,
}
use cf_app_sd_release.Process.Running.{IsControlled, handle-IsControlled}

-- What an event can have been that takes an address from a name.
pub data LostBy (clock : Clock) (decoder : Str → Option RegistryMessage) (e : ProcessEvent)
    (t u : AddressTable) (k ip : Str) : Type 0 where
  unregistered :
      (body : Str) (m : RegistryMessage)
      → e ≡ message (got_unregister body)
      → decoder body ≡ some m
      → m.ip ≡ ip
      → member k (map fqdn m.infra_names) ≡ true
      → LostBy clock decoder e t u k ip
  went_stale :
      (d : Entry)
      → e ≡ pruning_section
      → Holds d (entries_for_hostname t k)
      → d.ip ≡ ip
      → is_stale clock t.staleness_threshold u.reads d ≡ true
      → LostBy clock decoder e t u k ip

module _ (clock : Clock) (decoder : Str → Option RegistryMessage) (k ip : Str) where
  -- The same addresses, or more.
  same-LostBy :
      (e : ProcessEvent) (t u : AddressTable)
      → (member ip (ips_at t k) ≡ true → member ip (ips_at u k) ≡ true)
      → member ip (ips_at t k) ≡ true
      → member ip (ips_at u k) ≡ false
      → LostBy clock decoder e t u k ip
  same-LostBy e t u kept was gone = absurd (false≢true (sym gone ∙ kept was))

  section-LostBy :
      (t : AddressTable) (p : Pruner)
      → IsMonotone clock
      → member ip (ips_at t k) ≡ true
      → member ip (ips_at (section_at clock t p).table k) ≡ false
      → LostBy clock decoder pruning_section t (section_at clock t p).table k ip
  unfolding section_at addresses_with_stale_entries entries_for_hostname
  section-LostBy t waiting monotone was gone =
      same-LostBy pruning_section t (section_at clock t waiting).table
        (λ h.
          rw
            (same-ips t (section_at clock t waiting).table k
              (ground (arith, may_prune-addresses clock t)))
            h)
        was gone
  section-LostBy t checked monotone was gone =
      same-LostBy pruning_section t (section_at clock t checked).table (λ h. h) was gone
  section-LostBy t (collected cs) monotone was gone =
      let (d, held, named, stale) =
        prunes-stale clock t (section_at clock t (collected cs)).table cs k ip monotone refl was
          gone in
      went_stale d refl held named stale

  unregister-LostBy :
      (t : AddressTable) (body : Str)
      → IsValid t
      → member ip (ips_at t k) ≡ true
      → member ip (ips_at (called clock t (message_call decoder (got_unregister body))) k) ≡ false
      → LostBy clock decoder
          (message (got_unregister body))
          t
          (called clock t (message_call decoder (got_unregister body)))
          k
          ip
  unfolding called message_call unregistration_call apply
  unregister-LostBy t body valid was gone = elim (Option-cases (decoder body)) [
    | inl none_read ↦ same-LostBy (message (got_unregister body)) t _ (λ h. ground arith) was gone
    | inr (m, read) ↦ elim (Bool-cases (length m.infra_names == 0)) [
      | inl empty ↦ same-LostBy (message (got_unregister body)) t _ (λ h. ground arith) was gone
      | inr given ↦
          let (named, same) = remove-lost t m.infra_names m.ip k ip valid was (ground arith) in
          unregistered body m refl read same named
    ]
  ]

  -- A register message keeps what is there, and adds its address under its names.
  register-keeps :
      (t : AddressTable) (body : Str)
      → member ip (ips_at t k) ≡ true
      → member ip (ips_at (called clock t (message_call decoder (got_register body))) k) ≡ true
  unfolding called message_call registration_call apply
  register-keeps t body was = elim (Option-cases (decoder body)) [
    | inl unread ↦ ground arith
    | inr (m, read) ↦ ground (arith, add-keeps clock t m.infra_names m.ip k ip was)
  ]

  pub register-there :
      (t : AddressTable) (body : Str) (m : RegistryMessage)
      → decoder body ≡ some m
      → m.ip ≡ ip
      → ip ≢ []
      → member k (map fqdn m.infra_names) ≡ true
      → member ip (ips_at (called clock t (message_call decoder (got_register body))) k) ≡ true
  unfolding called message_call registration_call apply
  register-there t body m read same has_ip named =
      let good = accepted m.ip m.infra_names k (λ no_ip. has_ip (sym same ∙ no_ip)) named in
      let asked : message_call decoder (got_register body) ≡ some (adds m.infra_names m.ip) =
        ground (arith, read, good) in
      rw (asked) (
        rw (add-ips clock t m.infra_names m.ip k, named)
          (ground (arith, member-insert_ip m.ip ip (ips_at t k), str_eq_iff m.ip ip)))

  message-LostBy :
      (t : AddressTable) (m : MessageEvent)
      → IsValid t
      → member ip (ips_at t k) ≡ true
      → member ip (ips_at (called clock t (message_call decoder m)) k) ≡ false
      → LostBy clock decoder (message m) t (called clock t (message_call decoder m)) k ip
  unfolding called message_call apply set_warm pause_pruning resume_pruning entries_for_hostname
  message-LostBy t (got_register body) valid was gone =
      same-LostBy (message (got_register body)) t _ (register-keeps t body) was gone
  message-LostBy t (got_unregister body) valid was gone = unregister-LostBy t body valid was gone
  message-LostBy t (got_greeting reply) valid was gone =
      same-LostBy (message (got_greeting reply)) t t (λ h. h) was gone
  message-LostBy t lost_connection valid was gone =
      same-LostBy (message lost_connection) t _ (λ h. h) was gone
  message-LostBy t got_connection_back valid was gone =
      same-LostBy (message got_connection_back) t _ (λ h. h) was gone
  message-LostBy t warming_over valid was gone =
      same-LostBy (message warming_over) t _ (λ h. h) was gone

  module _ (conn : Nats) (options_json : Str) (a : Answering) where
    handle-LostBy :
        (e : ProcessEvent) (s : Service)
        → IsMonotone clock
        → IsValid s.subscriber.table
        → let u = handle clock decoder conn options_json a e s in
          member ip (ips_at s.subscriber.table k) ≡ true
          → member ip (ips_at u.subscriber.table k) ≡ false
          → LostBy clock decoder e s.subscriber.table u.subscriber.table k ip
    unfolding handle prune_next on_request emit
    handle-LostBy (message m) s monotone valid was gone =
        let same = receive-called decoder clock conn options_json m s.subscriber in
        rw same (message-LostBy s.subscriber.table m valid was (rw same at gone))
    handle-LostBy pruning_section s monotone valid was gone =
        section-LostBy s.subscriber.table s.pruner monotone was gone
    handle-LostBy (got_request path w) s monotone valid was gone =
        same-LostBy (got_request path w) s.subscriber.table s.subscriber.table (λ h. h) was gone
    handle-LostBy metrics_emitted s monotone valid was gone =
        same-LostBy metrics_emitted s.subscriber.table s.subscriber.table (λ h. h) was gone

    -- The last event that takes the address, if it is there at the start and not at the end.
    pub handle_all-LostBy :
        (conf : Config) (es : List ProcessEvent) (s : Service)
        → IsMonotone clock
        → IsControlled conf s.subscriber
        → member ip (ips_at s.subscriber.table k) ≡ true
        → member ip (ips_at (handle_all clock decoder conn options_json a es s).subscriber.table k)
          ≡ false
        → (kept rest : List ProcessEvent) × (e : ProcessEvent) × (es ≡ kept ++ e ∷ rest)
          × (let t = handle_all clock decoder conn options_json a kept s in
              LostBy clock decoder e t.subscriber.table
                (handle clock decoder conn options_json a e t).subscriber.table
                k
                ip)
    unfolding handle_all
    handle_all-LostBy conf [] s monotone h was gone = absurd (false≢true (sym gone ∙ was))
    handle_all-LostBy conf (e ∷ es) s monotone h was gone =
        let u = handle clock decoder conn options_json a e s in
        elim (Bool-cases (member ip (ips_at u.subscriber.table k))) [
          | inl still ↦
              let (kept, rest, d, split, why) =
                handle_all-LostBy conf es u monotone
                  (handle-IsControlled clock decoder conn options_json conf a e s h) still gone in
              (e ∷ kept, rest, d, ap (◌∷◌ e) split, why)
          | inr now ↦ ([], es, e, refl, handle-LostBy e s monotone h.valid was now)
        ]
