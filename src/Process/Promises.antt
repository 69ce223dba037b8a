-- ===== src/Process/Promises.antt =====
-- What a lookup returns at the end of a run of the controller.
use mathlib.Core.Path.{fun_ext}
use cf_app_sd_release.AddressTable.Addresses.{member}
use cf_app_sd_release.AddressTable.Calls.{View}
use cf_app_sd_release.AddressTable.Entries.{entries_to_ips}
use cf_app_sd_release.AddressTable.Hostname.{fqdn}
use cf_app_sd_release.AddressTable.Lookups.{ips_at}
use cf_app_sd_release.AddressTable.Table.{
  AddressTable, entries_for_hostname, lookup_ips, new_address_table, shutdown,
}
use cf_app_sd_release.Base.{
  All, Bool-cases, IsMonotone, List, Str, [], ap, inl, inr, lookup, refl, returns, true, ◌∙◌, ◌≡◌,
  ◌≢◌,
}
use cf_app_sd_release.Config.Controller.{Config}
use cf_app_sd_release.Mbus.Subscriber.{Subscriber, close}
use cf_app_sd_release.Process.Announced.{announced}
use cf_app_sd_release.Process.Directory.{IsWithin, handle_all-IsWithin, handle_all-ips}
use cf_app_sd_release.Process.Events.{ProcessEvent, new_service, pruning_section}
use cf_app_sd_release.Process.Main.{Environment, Stopped, main_with_error, on_signal, stopped}
use cf_app_sd_release.Process.Needs.{Starts}
use cf_app_sd_release.Process.Runs.{
  connected, fresh-IsValid, handled, started, started-table, stopped-end_of,
}
use cf_app_sd_release.Process.Starting.{stopped-Starts}
use cf_app_sd_release.Process.Wiring.{build_address_table}

-- No name has an address.
abbrev pub empty_view : View
empty_view k = []

close-ips :
    (s : Subscriber AddressTable) (k : Str) → ips_at (shutdown (close s).table) k ≡ ips_at s.table k
unfolding close shutdown entries_for_hostname
close-ips s k = elim (Bool-cases s.has_client) [
  | inl on ↦ rw (on, close) refl
  | inr off ↦ rw (off, close) refl
]

fresh-ips : (conf : Config) (k : Str) → ips_at (build_address_table conf) k ≡ []
unfolding build_address_table new_address_table entries_for_hostname entries_to_ips lookup
fresh-ips conf k = refl

module _ (env : Environment) (config_path : Str) (events : List ProcessEvent) where
  -- After the events, every address of the table is announced by them.
  pub handled-IsWithin :
      (h : Starts env config_path)
      → IsMonotone env.clock
      → IsWithin
          (handled env config_path events h).subscriber.table
          (announced env.decode_message empty_view events)
  unfolding new_service
  handled-IsWithin h monotone =
      handle_all-IsWithin env.clock env.decode_message (connected env config_path h) h.options_json
        env.answering events (new_service (started env config_path h)) empty_view monotone
        (rw (started-table env config_path h) (fresh-IsValid h.conf))
        (λ j a m. rw (started-table env config_path h, fresh-ips h.conf j) at m)

  -- After events without a section of the pruning goroutine, the table holds what they announce.
  pub handled-ips :
      (h : Starts env config_path) (k : Str)
      → All (λ e. e ≢ pruning_section) events
      → ips_at (handled env config_path events h).subscriber.table k
        ≡ announced env.decode_message empty_view events k
  unfolding new_service
  handled-ips h k quiet =
      handle_all-ips env.clock env.decode_message (connected env config_path h) h.options_json
        env.answering events (new_service (started env config_path h)) k
        (rw (started-table env config_path h) (fresh-IsValid h.conf)) quiet
      ∙ ap (λ v. announced env.decode_message v events k)
          (fun_ext (λ j. rw (started-table env config_path h) (fresh-ips h.conf j)))

module _ (env : Environment) (config_path : Str) (events : List ProcessEvent) (st : Stopped) where
  pub stopped-lookup :
      (h : Starts env config_path) (k : Str)
      → main_with_error env config_path events ≡ returns (stopped st)
      → lookup_ips st.service.subscriber.table k
        ≡ ips_at (handled env config_path events h).subscriber.table (fqdn k)
  unfolding lookup_ips on_signal
  stopped-lookup h k ended =
      rw (stopped-end_of env config_path events st h ended)
        (close-ips (handled env config_path events h).subscriber (fqdn k))

  -- When the controller ends by a signal, and its clock does not run backwards: whatever messages,
  -- losses of the connection, requests and sections of the pruning goroutine there were, `Lookup` of a
  -- name returns only addresses that the abstract table has for it, to which the valid register and
  -- unregister messages were applied in order.
  main_with_error-announced :
      (k ip : Str)
      → IsMonotone env.clock
      → main_with_error env config_path events ≡ returns (stopped st)
      → member ip (lookup_ips st.service.subscriber.table k) ≡ true
      → member ip (announced env.decode_message empty_view events (fqdn k)) ≡ true
  main_with_error-announced k ip monotone ended there =
      let h = stopped-Starts env config_path events st ended in
      handled-IsWithin env config_path events h monotone (fqdn k) ip
        (rw (stopped-lookup h k ended) at there)

  -- When the controller ends by a signal and no section of the pruning goroutine ran before, `Lookup` of a
  -- name returns exactly the list that the abstract table has for it, to which the valid register and
  -- unregister messages were applied in order.
  main_with_error-lookup :
      (k : Str)
      → All (λ e. e ≢ pruning_section) events
      → main_with_error env config_path events ≡ returns (stopped st)
      → lookup_ips st.service.subscriber.table k
        ≡ announced env.decode_message empty_view events (fqdn k)
  main_with_error-lookup k quiet ended =
      let h = stopped-Starts env config_path events st ended in
      stopped-lookup h k ended ∙ handled-ips env config_path events h (fqdn k) quiet
