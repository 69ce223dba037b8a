-- ===== src/AddressTable/Ticks.antt =====
-- A whole tick: when it prunes, and exactly which entries it drops.
use cf_app_sd_release.AddressTable.Addresses.{member}
use cf_app_sd_release.AddressTable.Entries.{Entry}
use cf_app_sd_release.AddressTable.Prune.{
  Totals, addresses_with_stale_entries, may_prune, prune_addresses, prune_stale_entries, tick,
}
use cf_app_sd_release.AddressTable.Pruned.{
  IsFreshAt, prune_addresses-drops, prune_addresses-keeps, prune_addresses-sub,
  stale_addresses-misses, stale_addresses-reads,
}
use cf_app_sd_release.AddressTable.Staleness.{Holds}
use cf_app_sd_release.AddressTable.Table.{AddressTable, entries_for_hostname}
use cf_app_sd_release.Base.{
  Bool-cases, Clock, IsMonotone, List, Option-cases, Str, [], arith, false, inl, inr, lookup, ltb_ℤ,
  refl, sub_time, suc, true, ◌∷◌, ◌≡◌, ◌⊎◌,
}

abbrev pub no_totals : Totals
no_totals = record { old_total = 0; new_total = 0 }

-- The early return for no candidates changes nothing.
pub prune_stale_entries-table :
    (clock : Clock) (t : AddressTable) (cs : List Str)
    → (prune_stale_entries clock t cs).0 ≡ (prune_addresses clock (t, no_totals) cs).0
unfolding prune_stale_entries prune_addresses
prune_stale_entries-table clock t [] = refl
prune_stale_entries-table clock t (c ∷ cs) = refl

module _ (clock : Clock) (monotone : IsMonotone clock) where
  -- The second and the third section of a tick, from any table.
  abbrev swept : AddressTable → AddressTable
  swept t =
      let found = addresses_with_stale_entries clock t in
      (prune_stale_entries clock found.1 found.0).0

  -- What the sections work on.
  abbrev counted : AddressTable → AddressTable
  counted t = (addresses_with_stale_entries clock t).1

  abbrev candidates : AddressTable → List Str
  candidates t = (addresses_with_stale_entries clock t).0

  swept-keeps :
      (t : AddressTable) (k : Str) (e : Entry)
      → IsFreshAt clock t (swept t).reads e
      → Holds e (entries_for_hostname t k)
      → Holds e (entries_for_hostname (swept t) k)
  unfolding addresses_with_stale_entries entries_for_hostname
  swept-keeps t k e f h = rw (prune_stale_entries-table clock (counted t) (candidates t)) (
      prune_addresses-keeps clock monotone _ (counted t) no_totals (candidates t) k e (omega arith)
        (rw (prune_stale_entries-table clock (counted t) (candidates t)) at f) h)

  missed-IsFreshAt :
      (t : AddressTable) (k : Str) (e : Entry)
      → member k (candidates t) ≡ false
      → Holds e (entries_for_hostname t k)
      → IsFreshAt clock t t.reads e
  unfolding addresses_with_stale_entries entries_for_hostname
  missed-IsFreshAt t k e c h = elim (Option-cases (lookup k t.addresses)) [
    | inl absent ↦ ground arith
    | inr (es, found) ↦
        stale_addresses-misses clock monotone t.staleness_threshold t.reads t.reads t.addresses k es
          e (omega arith) found c (rw (found, entries_for_hostname) at h)
  ]

  swept-drops :
      (t : AddressTable) (k : Str) (e : Entry)
      → Holds e (entries_for_hostname (swept t) k)
      → Holds e (entries_for_hostname t k) × IsFreshAt clock t t.reads e
  unfolding addresses_with_stale_entries entries_for_hostname
  swept-drops t k e h =
      let h' = rw (prune_stale_entries-table clock (counted t) (candidates t)) at h in
      let was = prune_addresses-sub clock monotone (counted t) no_totals (candidates t) k e h' in
      (
        was,
        elim (Bool-cases (member k (candidates t))) [
          | inl c ↦
              prune_addresses-drops clock monotone t.reads (counted t) no_totals (candidates t) k e
                (stale_addresses-reads clock monotone t.staleness_threshold t.reads t.addresses) c
                h'
          | inr c ↦ missed-IsFreshAt t k e c was
        ],
      )

  tick-swept :
      (t : AddressTable)
      → (may_prune clock t).0 ≡ true
      → tick clock t ≡ swept (record t { reads = suc t.reads })
  unfolding tick may_prune
  tick-swept t go = elim (Bool-cases t.paused_pruning) [
    | inl paused ↦ ground arith
    | inr open_ ↦
        let e : (may_prune clock t).1 ≡ record t { reads = suc t.reads } = (rw open_) in
        rw (go, tick) (rw e refl)
  ]

tick-stopped :
    (clock : Clock) (t : AddressTable)
    → (may_prune clock t).0 ≡ false
    → (tick clock t).addresses ≡ t.addresses
unfolding tick may_prune
tick-stopped clock t stop = ground arith

-- A tick while pruning is paused, or before the resume delay is over, changes no entry and no key.
tick_blocked :
    (clock : Clock) (t : AddressTable)
    → (t.paused_pruning ≡ true)
      ⊎ (ltb_ℤ (sub_time (clock t.reads) t.last_resume) t.resume_pruning_delay ≡ true)
    → (tick clock t).addresses ≡ t.addresses
unfolding tick may_prune
tick_blocked clock t h = ground arith

-- With a clock that does not run backwards: after a tick that was allowed to prune, every entry under
-- a name was there before, and was not stale by the first clock reading of the search. So all that
-- was stale then is gone, under every name.
pub tick_drops :
    (clock : Clock) (t : AddressTable) (k : Str) (e : Entry)
    → IsMonotone clock
    → (may_prune clock t).0 ≡ true
    → Holds e (entries_for_hostname (tick clock t) k)
    → Holds e (entries_for_hostname t k) × IsFreshAt clock t (suc t.reads) e
unfolding entries_for_hostname
tick_drops clock t k e monotone go h =
    swept-drops clock monotone (record t { reads = suc t.reads }) k e
      (rw (tick-swept clock monotone t go) at h)

-- With a clock that does not run backwards: a tick keeps every entry that is not stale by the clock
-- as it stands when the tick ends.
pub tick_keeps :
    (clock : Clock) (t : AddressTable) (k : Str) (e : Entry)
    → IsMonotone clock
    → Holds e (entries_for_hostname t k)
    → IsFreshAt clock t (tick clock t).reads e
    → Holds e (entries_for_hostname (tick clock t) k)
unfolding entries_for_hostname
tick_keeps clock t k e monotone h f = elim (Bool-cases (may_prune clock t).0) [
  | inl go ↦ rw (tick-swept clock monotone t go) (
      swept-keeps clock monotone (record t { reads = suc t.reads }) k e
        (rw (tick-swept clock monotone t go) at f) h)
  | inr stop ↦ rw (tick-stopped clock t stop, entries_for_hostname) h
]
