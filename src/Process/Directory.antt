-- ===== src/Process/Directory.antt =====
-- What the table of a run holds, against what its messages announce.
use mathlib.Core.Path.{fun_ext}
use cf_app_sd_release.AddressTable.Addresses.{
  Distinct, erase_ip, insert_ip, member, member-erase_ip_self, member-insert_ip,
}
use cf_app_sd_release.AddressTable.Calls.{
  Call, View, adds, apply, pauses, removes, resumes, shuts_down, view_apply, warms,
}
use cf_app_sd_release.AddressTable.History.{apply-ips}
use cf_app_sd_release.AddressTable.Hostname.{fqdn}
use cf_app_sd_release.AddressTable.Interleaving.{Pruner}
use cf_app_sd_release.AddressTable.Lookups.{ips_at}
use cf_app_sd_release.AddressTable.Losses.{Holds-member, member-Holds, member-erase_ip_ne}
use cf_app_sd_release.AddressTable.Sections.{section_at, section_at-IsValid, section_at-sub}
use cf_app_sd_release.AddressTable.Table.{AddressTable, entries_for_hostname}
use cf_app_sd_release.AddressTable.Validity.{IsValid, apply-IsValid}
use cf_app_sd_release.Base.{
  All, Bool-cases, Clock, IsMonotone, List, Option, Str, [], ap, arith, inl, inr, map, none, refl,
  some, str_eq, str_eq_iff, true, ◌∙◌, ◌∷◌, ◌≡◌, ◌≢◌,
}
use cf_app_sd_release.Mbus.Subscriber.{Nats, RegistryMessage}
use cf_app_sd_release.Process.Announced.{
  announced, call_of, called, handle-called, section_or_not, view_called,
}
use cf_app_sd_release.Process.Events.{
  Answering, ProcessEvent, Service, handle, handle_all, prune_next, pruning_section,
}

-- Every address of the table is in the abstract table.
abbrev pub IsWithin : AddressTable → View → Type 0
IsWithin t v = (k ip : Str) → member ip (ips_at t k) ≡ true → member ip (v k) ≡ true

erase_ip-within :
    (a b : Str) (l l' : List Str)
    → Distinct l
    → (member b l ≡ true → member b l' ≡ true)
    → member b (erase_ip a l) ≡ true
    → member b (erase_ip a l') ≡ true
erase_ip-within a b l l' d h m = elim (Bool-cases (str_eq a b)) [
  | inl same ↦ ground (arith, str_eq_iff a b, member-erase_ip_self a l d)
  | inr other ↦ ground (arith, member-erase_ip_ne a b l other, member-erase_ip_ne a b l' other)
]

insert_ip-within :
    (a b : Str) (l l' : List Str)
    → (member b l ≡ true → member b l' ≡ true)
    → member b (insert_ip a l) ≡ true
    → member b (insert_ip a l') ≡ true
insert_ip-within a b l l' h m = ground (arith, member-insert_ip a b l, member-insert_ip a b l')

view_apply-within :
    (v v' : View) (c : Call) (k b : Str)
    → Distinct (v k)
    → (member b (v k) ≡ true → member b (v' k) ≡ true)
    → member b (view_apply v c k) ≡ true
    → member b (view_apply v' c k) ≡ true
unfolding view_apply
view_apply-within v v' (adds hostnames ip) k b d h m =
    elim (Bool-cases (member k (map fqdn hostnames))) [
      | inl named ↦ rw (named) (insert_ip-within ip b (v k) (v' k) h (rw named at m))
      | inr unnamed ↦ rw (unnamed) (h (rw unnamed at m))
    ]
view_apply-within v v' (removes hostnames ip) k b d h m =
    elim (Bool-cases (member k (map fqdn hostnames))) [
      | inl named ↦ rw (named) (erase_ip-within ip b (v k) (v' k) d h (rw named at m))
      | inr unnamed ↦ rw (unnamed) (h (rw unnamed at m))
    ]
view_apply-within v v' warms k b d h m = h m
view_apply-within v v' pauses k b d h m = h m
view_apply-within v v' resumes k b d h m = h m
view_apply-within v v' shuts_down k b d h m = h m

module _ (clock : Clock) where
  apply-IsWithin :
      (t : AddressTable) (v : View) (c : Call)
      → IsValid t
      → IsWithin t v
      → IsWithin (apply clock t c) (view_apply v c)
  apply-IsWithin t v c valid h k ip m =
      view_apply-within (ips_at t) v c k ip (valid.no_repeats k) (h k ip)
        (rw (apply-ips clock t c k valid) at m)

  section-IsWithin :
      (t : AddressTable) (p : Pruner) (v : View)
      → IsMonotone clock
      → IsWithin t v
      → IsWithin (section_at clock t p).table v
  section-IsWithin t p v monotone h k ip m =
      let after = entries_for_hostname (section_at clock t p).table k in
      let (e, held, named) = member-Holds ip after m in
      h k ip (
        Holds-member ip (entries_for_hostname t k) e (section_at-sub clock t p k e monotone held)
          named)

  called-IsWithin :
      (t : AddressTable) (v : View) (c : Option Call)
      → IsValid t
      → IsWithin t v
      → IsWithin (called clock t c) (view_called v c)
  unfolding called view_called
  called-IsWithin t v none valid h = h
  called-IsWithin t v (some c) valid h = apply-IsWithin t v c valid h

  called-IsValid : (t : AddressTable) (c : Option Call) → IsValid t → IsValid (called clock t c)
  unfolding called
  called-IsValid t none valid = valid
  called-IsValid t (some c) valid = apply-IsValid clock t c valid

module _ (clock : Clock) (decoder : Str → Option RegistryMessage) (conn : Nats) (options_json : Str)
    (a : Answering) where
  handle-IsValid :
      (e : ProcessEvent) (s : Service)
      → IsValid s.subscriber.table
      → IsValid (handle clock decoder conn options_json a e s).subscriber.table
  unfolding handle prune_next
  handle-IsValid e s valid = elim (section_or_not e) [
    | inl section ↦
        rw (section, handle) (section_at-IsValid clock s.subscriber.table s.pruner valid)
    | inr other ↦
        rw (handle-called decoder clock conn options_json a e s other)
          (called-IsValid clock s.subscriber.table (call_of decoder e) valid)
  ]

  handle-IsWithin :
      (e : ProcessEvent) (s : Service) (v : View)
      → IsMonotone clock
      → IsValid s.subscriber.table
      → IsWithin s.subscriber.table v
      → IsWithin
          (handle clock decoder conn options_json a e s).subscriber.table
          (view_called v (call_of decoder e))
  unfolding handle prune_next call_of view_called
  handle-IsWithin e s v monotone valid h = elim (section_or_not e) [
    | inl section ↦ rw (section) (section-IsWithin clock s.subscriber.table s.pruner v monotone h)
    | inr other ↦
        rw (handle-called decoder clock conn options_json a e s other)
          (called-IsWithin clock s.subscriber.table v (call_of decoder e) valid h)
  ]

  pub handle_all-IsWithin :
      (es : List ProcessEvent) (s : Service) (v : View)
      → IsMonotone clock
      → IsValid s.subscriber.table
      → IsWithin s.subscriber.table v
      → IsWithin
          (handle_all clock decoder conn options_json a es s).subscriber.table
          (announced decoder v es)
  unfolding handle_all announced
  handle_all-IsWithin [] s v monotone valid h = h
  handle_all-IsWithin (e ∷ es) s v monotone valid h =
      handle_all-IsWithin es _ (view_called v (call_of decoder e)) monotone
        (handle-IsValid e s valid) (handle-IsWithin e s v monotone valid h)

  called-ips :
      (t : AddressTable) (c : Option Call) (k : Str)
      → IsValid t
      → ips_at (called clock t c) k ≡ view_called (ips_at t) c k
  unfolding called view_called
  called-ips t none k valid = refl
  called-ips t (some c) k valid = apply-ips clock t c k valid

  -- Without a section of the pruning goroutine, the table holds what the messages announce.
  pub handle_all-ips :
      (es : List ProcessEvent) (s : Service) (k : Str)
      → IsValid s.subscriber.table
      → All (λ e. e ≢ pruning_section) es
      → ips_at (handle_all clock decoder conn options_json a es s).subscriber.table k
        ≡ announced decoder (ips_at s.subscriber.table) es k
  unfolding handle_all announced
  handle_all-ips [] s k valid quiet = refl
  handle_all-ips (e ∷ es) s k valid quiet =
      handle_all-ips es (handle clock decoder conn options_json a e s) k (handle-IsValid e s valid)
        quiet.1
      ∙ ap (λ v. announced decoder v es k)
          (fun_ext (λ j.
            rw (handle-called decoder clock conn options_json a e s quiet.0)
              (called-ips s.subscriber.table (call_of decoder e) j valid)))
