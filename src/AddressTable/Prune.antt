-- ===== src/AddressTable/Prune.antt =====
-- Pruning: the body of the goroutine that `pruneStaleEntriesOnInterval` starts. It takes the lock
-- three times, so a tick is three steps between which other operations may run.
use cf_app_sd_release.Base.{
  ℕ, suc, ◌+◌, Bool, true, false, Option, none, some, List, [], ◌∷◌, if◌then◌else◌, Str, length,
  GoMap, lookup, insert, ℤ, ltb_ℤ, leb_ℤ, Clock, sub_time,
}
use cf_app_sd_release.AddressTable.Entries.{Entry}
use cf_app_sd_release.AddressTable.Table.{AddressTable}

-- The first critical section of a tick: whether it goes on, and the table with its clock read.
unfoldable pub may_prune : Clock → AddressTable → Bool × AddressTable
may_prune clock t = if t.paused_pruning then (false, t) else (
  leb_ℤ t.resume_pruning_delay (sub_time (clock t.reads) t.last_resume),
  record t { reads = suc t.reads },
)

-- `clock.Since(entry.updateTime) > stalenessThreshold`, by the reading with number `n`.
unfoldable pub is_stale : Clock → ℤ → ℕ → Entry → Bool
is_stale clock threshold n e = ltb_ℤ threshold (sub_time (clock n) e.update_time)

-- The inner loop, with its `break`: the answer, and the number of the next reading.
unfoldable pub has_stale : Clock → ℤ → ℕ → List Entry → Bool × ℕ
has_stale clock threshold n [] = (false, n)
has_stale clock threshold n (e ∷ es) =
    let rest = has_stale clock threshold (suc n) es in
    if is_stale clock threshold n e then (true, suc n) else rest

unfoldable pub stale_addresses : Clock → ℤ → ℕ → GoMap (List Entry) → List Str × ℕ
stale_addresses clock threshold n [] = ([], n)
stale_addresses clock threshold n ((address, entries) ∷ m) =
    let found = has_stale clock threshold n entries in
    let rest = stale_addresses clock threshold found.1 m in
    (if found.0 then address ∷ rest.0 else rest.0, rest.1)

-- The second critical section.
unfoldable pub addresses_with_stale_entries : Clock → AddressTable → List Str × AddressTable
addresses_with_stale_entries clock t =
    let found = stale_addresses clock t.staleness_threshold t.reads t.addresses in
    (found.0, record t { reads = found.1 })

-- `freshEntries`, and the number of the next reading.
unfoldable pub fresh_entries : Clock → ℤ → ℕ → List Entry → List Entry × ℕ
fresh_entries clock threshold n [] = ([], n)
fresh_entries clock threshold n (e ∷ es) =
    let rest = fresh_entries clock threshold (suc n) es in
    (if leb_ℤ (sub_time (clock n) e.update_time) threshold then e ∷ rest.0 else rest.0, rest.1)

-- `oldTotal` and `newTotal`, which the source logs.
pub record Totals : Type 0 where
  pub old_total : ℕ
  pub new_total : ℕ

-- One round of the loop over the candidates.
unfoldable pub prune_address : Clock → AddressTable × Totals → Str → AddressTable × Totals
prune_address clock (t, totals) address = elim (lookup address t.addresses) [
  | none ↦ (t, totals)
  | some entries ↦
      let fresh = fresh_entries clock t.staleness_threshold t.reads entries in
      (
        record t { addresses = insert address fresh.0 t.addresses; reads = fresh.1 },
        record {
          old_total = totals.old_total + length entries;
          new_total = totals.new_total + length fresh.0;
        },
      )
]

unfoldable pub prune_addresses : Clock → AddressTable × Totals → List Str → AddressTable × Totals
prune_addresses clock s [] = s
prune_addresses clock s (address ∷ rest) =
    prune_addresses clock (prune_address clock s address) rest

-- The third critical section. There are no totals to log when there is no candidate.
unfoldable pub prune_stale_entries : Clock → AddressTable → List Str → AddressTable × Option Totals
prune_stale_entries clock t [] = (t, none)
prune_stale_entries clock t (address ∷ rest) =
    let done =
      prune_addresses clock (t, record { old_total = 0; new_total = 0 }) (address ∷ rest) in
    (done.0, some done.1)

-- A whole tick, when nothing runs between its sections.
unfoldable pub tick : Clock → AddressTable → AddressTable
tick clock t =
    let (go, t') = may_prune clock t in
    let (candidates, t'') = addresses_with_stale_entries clock t' in
    let (pruned, _) = prune_stale_entries clock t'' candidates in if go then pruned else t'
