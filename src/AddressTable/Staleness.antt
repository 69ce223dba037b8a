-- ===== src/AddressTable/Staleness.antt =====
-- Staleness of single entries along the readings of a clock that does not run backwards.
use cf_app_sd_release.AddressTable.Addresses.{member}
use cf_app_sd_release.AddressTable.Entries.{Entry, entries_to_ips}
use cf_app_sd_release.AddressTable.Prune.{fresh_entries, has_stale, is_stale}
use cf_app_sd_release.Base.{
  Any, Clock, IsMonotone, List, Str, [], arith, false, refl, sub_time-mono, suc, true, ℕ, ℤ, ◌∷◌,
  ◌≡◌, ◌≤◌,
}

-- The entry stands in the list.
abbrev pub Holds : Entry → List Entry → Type 0
Holds e = Any (λ e'. e' ≡ e)

module _ (clock : Clock) (monotone : IsMonotone clock) (threshold : ℤ) where
  is_stale-later :
      (m n : ℕ) (e : Entry)
      → m ≤ n
      → is_stale clock threshold m e ≡ true
      → is_stale clock threshold n e ≡ true
  unfolding is_stale
  is_stale-later m n e le h =
      ground (arith, sub_time-mono (clock m) (clock n) e.update_time (monotone m n le))

  is_stale-earlier :
      (m n : ℕ) (e : Entry)
      → m ≤ n
      → is_stale clock threshold n e ≡ false
      → is_stale clock threshold m e ≡ false
  is_stale-earlier m n e le h = ground (arith, is_stale-later m n e le)

  pub fresh_entries-reads : (n : ℕ) (es : List Entry) → n ≤ (fresh_entries clock threshold n es).1
  unfolding fresh_entries
  fresh_entries-reads n [] = omega arith
  fresh_entries-reads n (e ∷ es) = omega (arith, fresh_entries-reads (suc n) es)

  -- Nothing new comes in.
  pub fresh_entries-sub :
      (n : ℕ) (es : List Entry) (e : Entry)
      → Holds e (fresh_entries clock threshold n es).0
      → Holds e es
  unfolding fresh_entries
  fresh_entries-sub n [] e h = h
  fresh_entries-sub n (d ∷ es) e h = ground (arith, fresh_entries-sub (suc n) es e)

  -- What was stale before the first reading is dropped.
  pub fresh_entries-drops :
      (m n : ℕ) (es : List Entry) (e : Entry)
      → m ≤ n
      → Holds e (fresh_entries clock threshold n es).0
      → is_stale clock threshold m e ≡ false
  unfolding fresh_entries is_stale
  fresh_entries-drops m n [] e le h = elim h [ ]
  fresh_entries-drops m n (d ∷ es) e le h =
      ground (arith, fresh_entries-drops m (suc n) es e, is_stale-later m n e le)

  -- What is fresh at some later reading is kept.
  pub fresh_entries-keeps :
      (m n : ℕ) (es : List Entry) (e : Entry)
      → (fresh_entries clock threshold n es).1 ≤ m
      → is_stale clock threshold m e ≡ false
      → Holds e es
      → Holds e (fresh_entries clock threshold n es).0
  unfolding fresh_entries is_stale
  fresh_entries-keeps m n [] e le s h = h
  fresh_entries-keeps m n (d ∷ es) e le s h = ground (
    arith,
    fresh_entries-keeps m (suc n) es e,
    fresh_entries-reads (suc n) es,
    is_stale-earlier n m e,
  )

  pub has_stale-reads : (n : ℕ) (es : List Entry) → n ≤ (has_stale clock threshold n es).1
  unfolding has_stale
  has_stale-reads n [] = omega arith
  has_stale-reads n (e ∷ es) = ground (arith, has_stale-reads (suc n) es)

  -- A list that is passed over has no entry that was stale before.
  pub has_stale-none :
      (m n : ℕ) (es : List Entry) (e : Entry)
      → m ≤ n
      → (has_stale clock threshold n es).0 ≡ false
      → Holds e es
      → is_stale clock threshold m e ≡ false
  unfolding has_stale
  has_stale-none m n [] e le p h = elim h [ ]
  has_stale-none m n (d ∷ es) e le p h =
      ground (arith, has_stale-none m (suc n) es e, is_stale-later m n e le)

pub fresh_entries-member :
    (clock : Clock) (threshold : ℤ) (n : ℕ) (es : List Entry) (a : Str)
    → member a (entries_to_ips es) ≡ false
    → member a (entries_to_ips (fresh_entries clock threshold n es).0) ≡ false
unfolding fresh_entries entries_to_ips member
fresh_entries-member clock threshold n [] a h = refl
fresh_entries-member clock threshold n (e ∷ es) a h =
    ground (arith, fresh_entries-member clock threshold (suc n) es a)
