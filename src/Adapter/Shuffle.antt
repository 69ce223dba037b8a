-- ===== src/Adapter/Shuffle.antt =====
-- bosh-dns-adapter/sdcclient/service_discovery_client.go: `shuffle`. The random source is a parameter:
-- `intn n` is what `r.Intn(n)` returns, which is documented to lie below `n`; the loop asks once for
-- each `n`.
use cf_app_sd_release.Base.{
  List, Outcome, Str, [], ap, arith, if◌then◌else◌, index, length, refl, returns, set, str_eq, suc,
  zero, ℕ, ◌+◌, ◌<◌, ◌>>=◌, ◌∙◌, ◌∷◌, ◌≡◌, ◌≤◌,
}

-- `vals[i], vals[j] = vals[j], vals[i]`; an index out of range would panic.
unfoldable pub swap : List Str → ℕ → ℕ → Outcome (List Str)
swap vals i j = do a ← index vals i; b ← index vals j; returns (set (set vals i b) j a)

-- The loop, with `n` values of the slice left.
unfoldable pub shuffle_from : (ℕ → ℕ) → ℕ → List Str → Outcome (List Str)
shuffle_from intn zero vals = returns vals
shuffle_from intn (suc n) vals = swap vals n (intn (suc n)) >>= λ vals'. shuffle_from intn n vals'

unfoldable pub shuffle : (ℕ → ℕ) → List Str → Outcome (List Str)
shuffle intn vals = shuffle_from intn (length vals) vals

-- How often a value stands in a list.
unfoldable pub count : Str → List Str → ℕ
count a [] = 0
count a (b ∷ l) = (if str_eq b a then 1 else 0) + count a l

index-total : (l : List Str) (i : ℕ) → i < length l → (a : Str) × (index l i ≡ returns a)
unfolding index
index-total [] i h = absurd (omega arith)
index-total (x ∷ l) zero h = (x, refl)
index-total (x ∷ l) (suc i) h = index-total l i (omega arith)

length-set : (l : List Str) (i : ℕ) (v : Str) → length (set l i v) ≡ length l
length-set [] i v = refl
length-set (x ∷ l) zero v = refl
length-set (x ∷ l) (suc i) v = ap suc (length-set l i v)

-- One write moves one occurrence.
count-set :
    (c : Str) (l : List Str) (i : ℕ) (old v : Str)
    → index l i ≡ returns old
    → count c (set l i v) + count c (old ∷ []) ≡ count c l + count c (v ∷ [])
unfolding count index
count-set c [] i old v h = ground arith
count-set c (x ∷ l) zero old v h = ground arith
count-set c (x ∷ l) (suc i) old v h = omega (arith, count-set c l i old v h)

index-set :
    (l : List Str) (i j : ℕ) (a b : Str)
    → index l i ≡ returns a
    → index l j ≡ returns b
    → index (set l i b) j ≡ returns b
unfolding index
index-set [] i j a b h k = ground arith
index-set (x ∷ l) zero zero a b h k = refl
index-set (x ∷ l) zero (suc j) a b h k = k
index-set (x ∷ l) (suc i) zero a b h k = k
index-set (x ∷ l) (suc i) (suc j) a b h k = index-set l i j a b h k

-- A swap in range gives a list with the same values.
swap-count :
    (l : List Str) (i j : ℕ)
    → i < length l
    → j < length l
    → (l' : List Str) × (swap l i j ≡ returns l')
      × (length l' ≡ length l)
      × ((c : Str) → count c l' ≡ count c l)
unfolding swap
swap-count l i j h k =
    let (a, at_i) = index-total l i h in
    let (b, at_j) = index-total l j k in
    (
      set (set l i b) j a,
      ground (arith, at_i, at_j),
      length-set (set l i b) j a ∙ length-set l i b,
      λ c. omega (
        arith,
        count-set c l i a b at_i,
        count-set c (set l i b) j b a (index-set l i j a b at_i at_j),
      ),
    )

shuffle_from-count :
    (intn : ℕ → ℕ) (n : ℕ) (l : List Str)
    → ((m : ℕ) → 0 < m → intn m < m)
    → n ≤ length l
    → (l' : List Str) × (shuffle_from intn n l ≡ returns l')
      × (length l' ≡ length l)
      × ((c : Str) → count c l' ≡ count c l)
unfolding shuffle_from
shuffle_from-count intn zero l h le = (l, refl, refl, λ c. refl)
shuffle_from-count intn (suc n) l h le =
    let (m, swapped, size, same) =
      swap-count l n (intn (suc n)) (omega arith) (omega (arith, h (suc n) (omega arith))) in
    let (l', done, size', same') = shuffle_from-count intn n m h (omega arith) in
    (l', (rw swapped done), size' ∙ size, λ c. same' c ∙ same c)

-- With a random source in its documented range, `shuffle` does not panic and returns the same values,
-- each as often as before.
pub shuffle-count :
    (intn : ℕ → ℕ) (l : List Str)
    → ((m : ℕ) → 0 < m → intn m < m)
    → (l' : List Str) × (shuffle intn l ≡ returns l')
      × (length l' ≡ length l)
      × ((c : Str) → count c l' ≡ count c l)
unfolding shuffle
shuffle-count intn l h = shuffle_from-count intn (length l) l h (omega arith)
