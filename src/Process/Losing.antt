-- ===== src/Process/Losing.antt =====
-- Why an address that was registered at the controller is no longer looked up.
use cf_app_sd_release.AddressTable.Addresses.{member}
use cf_app_sd_release.AddressTable.Hostname.{fqdn}
use cf_app_sd_release.AddressTable.Lookups.{ips_at}
use cf_app_sd_release.AddressTable.Table.{lookup_ips}
use cf_app_sd_release.Base.{
  IsMonotone, List, Str, [], ap, false, map, returns, some, sym, true, ◌++◌, ◌∙◌, ◌∷◌, ◌≡◌, ◌≢◌,
}
use cf_app_sd_release.Mbus.Subscriber.{RegistryMessage}
use cf_app_sd_release.Process.Announced.{receive-called}
use cf_app_sd_release.Process.Answers.{handle_all-append}
use cf_app_sd_release.Process.Events.{ProcessEvent, handle, handle_all, message, new_service}
use cf_app_sd_release.Process.Keeping.{LostBy, handle_all-LostBy, register-there}
use cf_app_sd_release.Process.Main.{Environment, Stopped, main_with_error, stopped}
use cf_app_sd_release.Process.Messages.{got_register}
use cf_app_sd_release.Process.Needs.{Starts}
use cf_app_sd_release.Process.Promises.{stopped-lookup}
use cf_app_sd_release.Process.Running.{handle-IsControlled}
use cf_app_sd_release.Process.Runs.{connected, handled, started}
use cf_app_sd_release.Process.Starting.{stopped-Starts}
use cf_app_sd_release.Process.Steps.{handled-IsControlled}

module _ (env : Environment) (config_path : Str) (before : List ProcessEvent) where
  registered :
      (h : Starts env config_path) (body : Str) (m : RegistryMessage) (name ip : Str)
      → env.decode_message body ≡ some m
      → m.ip ≡ ip
      → ip ≢ []
      → member (fqdn name) (map fqdn m.infra_names) ≡ true
      → let s = handled env config_path before h in
        let u =
          handle env.clock env.decode_message
            (connected env config_path h)
            h.options_json
            env.answering
            (message (got_register body))
            s in
        member ip (ips_at u.subscriber.table (fqdn name)) ≡ true
  unfolding handle
  registered h body m name ip read same has_ip named =
      let s = handled env config_path before h in
      rw
        (receive-called env.decode_message env.clock (connected env config_path h) h.options_json
          (got_register body) s.subscriber)
        (register-there env.clock env.decode_message (fqdn name) ip s.subscriber.table body m read
          same has_ip named)

  -- When the controller ends by a signal, and its clock does not run backwards: if a register message
  -- had an address and a name, and at the end `Lookup` of the name does not return the address, then
  -- some event after that message took it: an unregister message with that address and name, or a
  -- section of the pruning goroutine, and then the table before the section had for the name an entry
  -- of that address that was stale by the clock as it stood after the section.
  pub main_with_error-LostBy :
      (after : List ProcessEvent) (body : Str) (m : RegistryMessage) (name ip : Str) (st : Stopped)
      → IsMonotone env.clock
      → env.decode_message body ≡ some m
      → m.ip ≡ ip
      → ip ≢ []
      → member (fqdn name) (map fqdn m.infra_names) ≡ true
      → main_with_error env config_path (before ++ message (got_register body) ∷ after)
        ≡ returns (stopped st)
      → member ip (lookup_ips st.service.subscriber.table name) ≡ false
      → (h : Starts env config_path) × (kept rest : List ProcessEvent) × (e : ProcessEvent) × (after
          ≡ kept ++ e ∷ rest)
        × (let t = handled env config_path (before ++ message (got_register body) ∷ kept) h in
            let u =
              handle env.clock env.decode_message
                (connected env config_path h)
                h.options_json
                env.answering
                e
                t in
            LostBy env.clock env.decode_message e t.subscriber.table u.subscriber.table
              (fqdn name)
              ip)
  unfolding handle_all
  main_with_error-LostBy after body m name ip st monotone read same has_ip named end gone =
      let events = before ++ message (got_register body) ∷ after in
      let h = stopped-Starts env config_path events st end in
      let conn = connected env config_path h in
      let s = handled env config_path before h in
      let u =
        handle env.clock env.decode_message conn h.options_json env.answering
          (message (got_register body)) s in
      let split = λ (es : List ProcessEvent).
        handle_all-append env.clock env.decode_message conn h.options_json env.answering before
          (message (got_register body) ∷ es) (new_service (started env config_path h)) in
      let absent = rw (stopped-lookup env config_path events st h name end) at gone in
      let controlled =
        handle-IsControlled env.clock env.decode_message conn h.options_json h.conf env.answering
          (message (got_register body)) s (handled-IsControlled env config_path before h) in
      let (kept, rest, e, at, why) =
        handle_all-LostBy env.clock env.decode_message (fqdn name) ip conn h.options_json
          env.answering h.conf after u monotone controlled
          (registered h body m name ip read same has_ip named)
          (ap (λ q. member ip (ips_at q.subscriber.table (fqdn name))) (sym (split after))
            ∙ absent) in
      (h, kept, rest, e, at, rw (split kept) why)
