-- ===== src/AddressTable/Pruned.antt =====
-- What the critical sections of a tick do to the entries under one key.
use cf_app_sd_release.AddressTable.Addresses.{member}
use cf_app_sd_release.AddressTable.Entries.{Entry}
use cf_app_sd_release.AddressTable.Prune.{
  Totals, fresh_entries, has_stale, is_stale, prune_address, prune_addresses, stale_addresses,
}
use cf_app_sd_release.AddressTable.Staleness.{
  Holds, fresh_entries-drops, fresh_entries-keeps, fresh_entries-reads, fresh_entries-sub,
  has_stale-none, has_stale-reads,
}
use cf_app_sd_release.AddressTable.Table.{AddressTable, entries_for_hostname}
use cf_app_sd_release.Base.{
  Bool-cases, Clock, GoMap, IsMonotone, List, Option-cases, Str, [], arith, false, if◌then◌else◌,
  inl, inr, lookup, lookup-insert, some, str_eq, str_eq_iff, true, ℕ, ℤ, ◌∷◌, ◌≡◌, ◌≤◌,
}

-- One candidate: its entries are filtered, all others are kept.
prune_address-entries :
    (clock : Clock) (t : AddressTable) (totals : Totals) (a k : Str)
    → entries_for_hostname (prune_address clock (t, totals) a).0 k ≡ (
        if str_eq a k
        then (fresh_entries clock t.staleness_threshold t.reads (entries_for_hostname t a)).0
        else entries_for_hostname t k)
unfolding prune_address entries_for_hostname fresh_entries
prune_address-entries clock t totals a k = elim (Option-cases (lookup a t.addresses)) [
  | inl e ↦ rw (e, prune_address) (ground (arith, str_eq_iff a k))
  | inr (es, e) ↦
      rw (e, prune_address)
        (ground (
          arith,
          lookup-insert a k (fresh_entries clock t.staleness_threshold t.reads es).0 t.addresses,
        ))
]

prune_address-reads :
    (clock : Clock) (t : AddressTable) (totals : Totals) (a : Str)
    → (prune_address clock (t, totals) a).0.reads
      ≡ (fresh_entries clock t.staleness_threshold t.reads (entries_for_hostname t a)).1
unfolding prune_address entries_for_hostname fresh_entries
prune_address-reads clock t totals a = ground arith

prune_address-threshold :
    (clock : Clock) (s : AddressTable × Totals) (a : Str)
    → (prune_address clock s a).0.staleness_threshold ≡ s.0.staleness_threshold
unfolding prune_address
prune_address-threshold clock (t, totals) a = ground arith

-- An entry that is not stale by the reading `n`, against the table's own threshold.
abbrev pub IsFreshAt : Clock → AddressTable → ℕ → Entry → Type 0
IsFreshAt clock t n e = is_stale clock t.staleness_threshold n e ≡ false

module _ (clock : Clock) (monotone : IsMonotone clock) where
  step-reads :
      (t : AddressTable) (totals : Totals) (a : Str)
      → t.reads ≤ (prune_address clock (t, totals) a).0.reads
  step-reads t totals a =
      rw (prune_address-reads clock t totals a) (
        fresh_entries-reads clock monotone t.staleness_threshold t.reads (entries_for_hostname t a))

  prune_addresses-reads :
      (t : AddressTable) (totals : Totals) (cs : List Str)
      → t.reads ≤ (prune_addresses clock (t, totals) cs).0.reads
  unfolding prune_addresses
  prune_addresses-reads t totals [] = omega arith
  prune_addresses-reads t totals (a ∷ cs) =
      let s = prune_address clock (t, totals) a in
      omega (arith, step-reads t totals a, prune_addresses-reads s.0 s.1 cs)

  -- No entry comes in.
  pub prune_addresses-sub :
      (t : AddressTable) (totals : Totals) (cs : List Str) (k : Str) (e : Entry)
      → Holds e (entries_for_hostname (prune_addresses clock (t, totals) cs).0 k)
      → Holds e (entries_for_hostname t k)
  unfolding prune_addresses
  prune_addresses-sub t totals [] k e h = h
  prune_addresses-sub t totals (a ∷ cs) k e h =
      let s = prune_address clock (t, totals) a in
      let later = prune_addresses-sub s.0 s.1 cs k e h in
      ground (
        arith,
        later,
        prune_address-entries clock t totals a k,
        str_eq_iff a k,
        fresh_entries-sub clock monotone t.staleness_threshold t.reads (entries_for_hostname t a) e,
      )

  -- An entry that is fresh once all is done is kept.
  pub prune_addresses-keeps :
      (m : ℕ) (t : AddressTable) (totals : Totals) (cs : List Str) (k : Str) (e : Entry)
      → (prune_addresses clock (t, totals) cs).0.reads ≤ m
      → IsFreshAt clock t m e
      → Holds e (entries_for_hostname t k)
      → Holds e (entries_for_hostname (prune_addresses clock (t, totals) cs).0 k)
  unfolding prune_addresses
  prune_addresses-keeps m t totals [] k e le f h = h
  prune_addresses-keeps m t totals (a ∷ cs) k e le f h =
      let s = prune_address clock (t, totals) a in
      prune_addresses-keeps m s.0 s.1 cs k e le (rw (prune_address-threshold clock (t, totals) a) f)
        (ground (
          arith,
          prune_address-entries clock t totals a k,
          str_eq_iff a k,
          prune_address-reads clock t totals a,
          prune_addresses-reads s.0 s.1 cs,
          fresh_entries-keeps clock monotone t.staleness_threshold m t.reads
              (entries_for_hostname t a) e,
        ))

  -- Of a candidate no entry is left that was stale before.
  pub prune_addresses-drops :
      (m : ℕ) (t : AddressTable) (totals : Totals) (cs : List Str) (k : Str) (e : Entry)
      → m ≤ t.reads
      → member k cs ≡ true
      → Holds e (entries_for_hostname (prune_addresses clock (t, totals) cs).0 k)
      → IsFreshAt clock t m e
  unfolding prune_addresses member
  prune_addresses-drops m t totals [] k e le c h = cc
  prune_addresses-drops m t totals (a ∷ cs) k e le c h =
      let s = prune_address clock (t, totals) a in
      elim (Bool-cases (str_eq a k)) [
        | inl same ↦ ground (
          arith,
          prune_addresses-sub s.0 s.1 cs k e h,
          prune_address-entries clock t totals a k,
          fresh_entries-drops clock monotone t.staleness_threshold m t.reads
              (entries_for_hostname t a) e le,
        )
        | inr other ↦ rw (prune_address-threshold clock (t, totals) a) at (
            prune_addresses-drops m s.0 s.1 cs k e (omega (arith, step-reads t totals a))
              (ground arith) h)
      ]

  pub stale_addresses-reads :
      (threshold : ℤ) (n : ℕ) (m : GoMap (List Entry)) → n ≤ (stale_addresses clock threshold n m).1
  unfolding stale_addresses
  stale_addresses-reads threshold n [] = omega arith
  stale_addresses-reads threshold n ((a, es) ∷ m) =
      let found = has_stale clock threshold n es in
      omega (
        arith,
        has_stale-reads clock monotone threshold n es,
        stale_addresses-reads threshold found.1 m,
      )

  -- A host that is no candidate had no stale entry.
  pub stale_addresses-misses :
      (threshold : ℤ) (n₀ n : ℕ) (m : GoMap (List Entry)) (k : Str) (es : List Entry) (e : Entry)
      → n₀ ≤ n
      → lookup k m ≡ some es
      → member k (stale_addresses clock threshold n m).0 ≡ false
      → Holds e es
      → is_stale clock threshold n₀ e ≡ false
  unfolding stale_addresses lookup member
  stale_addresses-misses threshold n₀ n [] k es e le l c h = cc
  stale_addresses-misses threshold n₀ n ((a, fs) ∷ m) k es e le l c h =
      let found = has_stale clock threshold n fs in
      ground (
        arith,
        str_eq_iff a k,
        has_stale-reads clock monotone threshold n fs,
        has_stale-none clock monotone threshold n₀ n fs e le,
        stale_addresses-misses threshold n₀ found.1 m k es e,
      )
