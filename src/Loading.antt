-- ===== src/Loading.antt =====
-- From the route populator to the controller: the goroutines of src/route_populator publish the routes of
-- a job, and the running controller of src/service-discovery-controller/main.go gets the messages.
-- NATS and the two JSON codecs are parameters.
use mathlib.Core.List.{Memᴰ}
use mathlib.Core.List.Memᴰ
use cf_app_sd_release.Adapter.Shuffle.{count}
use cf_app_sd_release.AddressTable.Addresses.{member}
use cf_app_sd_release.AddressTable.Hostname.{fqdn}
use cf_app_sd_release.AddressTable.Table.{AddressTable, lookup_ips}
use cf_app_sd_release.Base.{
  All, Bool-cases, Clock, IsMonotone, List, Option, Str, [], ap, inl, inr, map, pos, refl, returns,
  some, str_eq_refl, sym, true, ℕ, ◌%◌, ◌++◌, ◌+◌, ◌/◌, ◌<◌, ◌∷◌, ◌≡◌, ◌≢◌, ◌≤◌,
}
use cf_app_sd_release.Mbus.Subscriber.{RegistryMessage}
use cf_app_sd_release.Populator.Announcing.{IsLooping, SendReach-announces}
use cf_app_sd_release.Populator.Job.{Job, RouteData, route_data, uri}
use cf_app_sd_release.Populator.Publisher.{service_discovery_register}
use cf_app_sd_release.Populator.Runner.{start_jobs}
use cf_app_sd_release.Populator.Sending.{SendReach, Sending, sending_start}
use cf_app_sd_release.Process.Events.{ProcessEvent, message, pruning_section}
use cf_app_sd_release.Process.Keeping.{LostBy, unregistered, went_stale}
use cf_app_sd_release.Process.Losing.{main_with_error-LostBy}
use cf_app_sd_release.Process.Main.{Environment, Stopped, main_with_error, stopped}
use cf_app_sd_release.Process.Messages.{got_register, got_unregister}

-- An event that takes no address from the table.
abbrev pub IsHarmless : ProcessEvent → Type 0
IsHarmless e = ((body : Str) → e ≢ message (got_unregister body)) × (e ≢ pruning_section)

module _ {A : Type 0} where
  All-Memᴰ : (P : A → Type 0) (a : A) (l : List A) → All P l → Memᴰ a l → P a
  All-Memᴰ P a [] h m = elim m [ ]
  All-Memᴰ P a (x ∷ l) h (Memᴰ.head e) = rw (e) (h.0)
  All-Memᴰ P a (x ∷ l) h (Memᴰ.tail m) = All-Memᴰ P a l h.1 m

  Memᴰ-split : (a : A) (l : List A) → Memᴰ a l → (before after : List A) × (l ≡ before ++ a ∷ after)
  Memᴰ-split a [] m = elim m [ ]
  Memᴰ-split a (x ∷ l) (Memᴰ.head e) = ([], l, ap (λ y. y ∷ l) (sym e))
  Memᴰ-split a (x ∷ l) (Memᴰ.tail m) =
      let (before, after, e) = Memᴰ-split a l m in (x ∷ before, after, ap (◌∷◌ x) e)

  Memᴰ-middle : (a : A) (before after : List A) → Memᴰ a (before ++ a ∷ after)
  Memᴰ-middle a before after = Memᴰ.append_right before (Memᴰ.head refl)

-- Harmless events lose nothing.
LostBy-harmless :
    (clock : Clock) (decoder : Str → Option RegistryMessage) (e : ProcessEvent) (t u : AddressTable)
    (k ip : Str)
    → LostBy clock decoder e t u k ip
    → IsHarmless e
    → ⊥
LostBy-harmless clock decoder e t u k ip (unregistered body m same read ip_same named) h =
    h.0 body same
LostBy-harmless clock decoder e t u k ip (went_stale d same held ip_same stale) h = h.1 same

named_route : (j : Job) (x : ℕ) → member (fqdn (uri j x)) (map fqdn (uri j x ∷ [])) ≡ true
unfolding member
named_route j x = rw (str_eq_refl (fqdn (uri j x))) refl

-- A registered address stays if nothing takes it.
registered-member :
    (env : Environment) (config_path : Str) (events : List ProcessEvent) (st : Stopped) (body : Str)
    (m : RegistryMessage) (name : Str)
    → IsMonotone env.clock
    → env.decode_message body ≡ some m
    → m.ip ≢ []
    → member (fqdn name) (map fqdn m.infra_names) ≡ true
    → Memᴰ (message (got_register body)) events
    → All IsHarmless events
    → main_with_error env config_path events ≡ returns (stopped st)
    → member m.ip (lookup_ips st.service.subscriber.table name) ≡ true
registered-member env config_path events st body m name monotone read has_ip named got harmless
      end =
    elim (Bool-cases (member m.ip (lookup_ips st.service.subscriber.table name))) [
      | inl there ↦ there
      | inr gone ↦
          let (before, after, split) = Memᴰ-split (message (got_register body)) events got in
          let (h, kept, rest, e, at, why) =
            main_with_error-LostBy env config_path before after body m name m.ip st monotone read
              refl has_ip named (rw (split) at end) gone in
          let within : Memᴰ e events =
            rw (split, at) (Memᴰ.append_right before (Memᴰ.tail (Memᴰ-middle e kept rest))) in
          absurd (
            LostBy-harmless env.clock env.decode_message e _ _ (fqdn name) m.ip why
              (All-Memᴰ IsHarmless e events harmless within))
    ]

-- Let a job with `count` routes be published by `n` goroutines, at least one, where the division leaves
-- less than one range over, and let each goroutine be past its first publishing and in its loop. Let a
-- running controller, whose clock does not run backwards, get every message that was sent to
-- `service-discovery.register`, in any order and among other events, but no unregister message and no
-- section of the pruning goroutine. If it ends by a signal, then `Lookup` of the name of each route
-- returns the host of the job among its addresses. The encoder does not fail, the controller's decoder
-- reads the host and the names back, and the job has a host.
pub SendReach-lookup_ips :
    (marshal : RouteData → Option Str) (encode : RouteData → Str) (fuel n count x : ℕ) (j : Job)
    (js : List Job) (u : Sending) (env : Environment) (config_path : Str)
    (events : List ProcessEvent) (st : Stopped)
    → ((r : RouteData) → marshal r ≡ some (encode r))
    → ((r : RouteData)
        → env.decode_message (encode r)
          ≡ some (record { ip = r.host; infra_names = r.uris; endpoint_updated_at = pos 0 }))
    → IsMonotone env.clock
    → j.end_range ≡ j.start_range + count
    → 0 < n
    → count % n < count / n
    → count + 1 < fuel
    → start_jobs fuel j n ≡ returns js
    → SendReach marshal (sending_start js) u
    → All (λ s. IsLooping s.doing) u.senders
    → All
        (λ s.
          (d : Str)
          → Memᴰ (service_discovery_register, d) s.sent
          → Memᴰ (message (got_register d)) events)
        u.senders
    → All IsHarmless events
    → main_with_error env config_path events ≡ returns (stopped st)
    → j.backend_host ≢ []
    → j.start_range ≤ x
    → x < j.end_range
    → member j.backend_host (lookup_ips st.service.subscriber.table (uri j x)) ≡ true
unfolding route_data
SendReach-lookup_ips marshal encode fuel n count x j js u env config_path events st enc dec monotone
      e p r f made reach loop delivered harmless end has_host lo hi =
    let (s, there, _, sent) =
      SendReach-announces marshal encode fuel n count x j js u enc e p r f made reach loop lo hi in
    let got =
      All-Memᴰ
        (λ s.
          (d : Str)
          → Memᴰ (service_discovery_register, d) s.sent
          → Memᴰ (message (got_register d)) events)
        s u.senders delivered there (encode (route_data j x)) sent in
    registered-member env config_path events st (encode (route_data j x))
      (record { ip = j.backend_host; infra_names = uri j x ∷ []; endpoint_updated_at = pos 0 })
      (uri j x) monotone (dec (route_data j x)) has_host (named_route j x) got harmless end
