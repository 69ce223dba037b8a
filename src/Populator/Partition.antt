-- ===== src/Populator/Partition.antt =====
-- route_populator/runner/runner.go: `PartitionRange`, which cuts the routes into ranges for the
-- goroutines. The numbers of routes are not negative (`checkRequiredFields` of main.go), so they are
-- natural here; the branch `last < start` is where `end - start` is negative in the source.
use cf_app_sd_release.Base.{
  ==_iff, Bool-cases, List, Outcome, [], arith, if◌then◌else◌, index, inl, inr, leb, ltb, panics,
  refl, returns, suc, unfinished, zero, ℕ, ◌%◌, ◌&&◌, ◌*◌, ◌+◌, ◌-◌, ◌/◌, ◌<◌, ◌==◌, ◌>>=◌, ◌∷◌,
  ◌≡◌, ◌≤◌,
}

-- `for i := start; i <= end; i += partitionSize { result = append(result, i) }`, on fuel.
unfoldable pub bounds_from : ℕ → ℕ → ℕ → ℕ → Outcome (List ℕ)
bounds_from zero i last partition_size = unfinished
bounds_from (suc fuel) i last partition_size =
    let round =
      (bounds_from fuel (i + partition_size) last partition_size >>= λ rest. returns (i ∷ rest)) in
    if leb i last then round else returns []

-- `result[len(result)-1] = end`
unfoldable pub set_last : List ℕ → ℕ → Outcome (List ℕ)
set_last [] v = panics
set_last (x ∷ []) v = returns (v ∷ [])
set_last (x ∷ y ∷ xs) v = set_last (y ∷ xs) v >>= λ rest. returns (x ∷ rest)

-- `a % b`, which panics for `b = 0`.
unfoldable pub remainder : ℕ → ℕ → Outcome ℕ
remainder a b = if b == 0 then panics else returns (a % b)

unfoldable pub partition_range : ℕ → ℕ → ℕ → ℕ → Outcome (List ℕ)
partition_range fuel start last partition_size =
    if ltb last start
    then (remainder 0 partition_size >>= λ _. returns [])
    else if partition_size == last - start
    then returns (start ∷ last ∷ [])
    else do
      result ← bounds_from fuel start last partition_size
      rest ← remainder (last - start) partition_size
      if ltb 0 rest then set_last result last else returns result

-- The bounds in closed form: the multiples of the size, and at the end of an uneven division `last`.
abbrev pub bound : ℕ → ℕ → ℕ → ℕ → ℕ
bound start count size j =
    if j == count / size && ltb 0 (count % size) then start + count else start + j * size

-- The loop's slice in closed form.
multiples : ℕ → ℕ → ℕ → List ℕ
multiples zero i size = i ∷ []
multiples (suc k) i size = i ∷ multiples k (i + size) size

bounds_from-multiples :
    (k fuel i last size : ℕ)
    → 0 < size
    → i + k * size ≤ last
    → last < i + k * size + size
    → suc k < fuel
    → bounds_from fuel i last size ≡ returns (multiples k i size)
unfolding bounds_from multiples
bounds_from-multiples k zero i last size p lo hi f = absurd (omega arith)
bounds_from-multiples zero (suc zero) i last size p lo hi f = absurd (omega arith)
bounds_from-multiples zero (suc (suc fuel)) i last size p lo hi f = ground arith
bounds_from-multiples (suc k) (suc fuel) i last size p lo hi f =
    ground (arith, bounds_from-multiples k fuel (i + size) last size)

index-multiples : (k i size j : ℕ) → j ≤ k → index (multiples k i size) j ≡ returns (i + j * size)
unfolding multiples index
index-multiples zero i size zero h = ground arith
index-multiples zero i size (suc j) h = absurd (omega arith)
index-multiples (suc k) i size zero h = ground arith
index-multiples (suc k) i size (suc j) h = ground (arith, index-multiples k (i + size) size j)

-- The same with its last item replaced.
ended : ℕ → ℕ → ℕ → ℕ → List ℕ
ended zero i size v = v ∷ []
ended (suc k) i size v = i ∷ ended k (i + size) size v

set_last-multiples : (k i size v : ℕ) → set_last (multiples k i size) v ≡ returns (ended k i size v)
unfolding set_last multiples ended
set_last-multiples zero i size v = refl
set_last-multiples (suc zero) i size v = refl
set_last-multiples (suc (suc k)) i size v =
    ground (arith, set_last-multiples (suc k) (i + size) size v)

index-ended :
    (k i size v j : ℕ)
    → j ≤ k
    → index (ended k i size v) j ≡ returns (if j == k then v else i + j * size)
unfolding ended index
index-ended zero i size v zero h = ground arith
index-ended zero i size v (suc j) h = absurd (omega arith)
index-ended (suc k) i size v zero h = ground arith
index-ended (suc k) i size v (suc j) h = ground (arith, index-ended k (i + size) size v j)

-- The whole slice in closed form.
partition_of : ℕ → ℕ → ℕ → List ℕ
partition_of start count size =
    if ltb 0 (count % size)
    then ended (count / size) start size (start + count)
    else multiples (count / size) start size

pub div_bounds :
    (count size : ℕ)
    → 0 < size
    → (count / size * size ≤ count) × (count < count / size * size + size)
div_bounds count size h = grind arith

whole : (count size : ℕ) → 0 < size → size ≡ count → (count / size ≡ 1) × (count % size ≡ 0)
whole count size p e = grind arith

partition_range-partition_of :
    (fuel start count size : ℕ)
    → 0 < size
    → count / size + 1 < fuel
    → partition_range fuel start (start + count) size ≡ returns (partition_of start count size)
unfolding partition_range partition_of remainder multiples
partition_range-partition_of fuel start count size p f =
    let (lo, hi) = div_bounds count size p in
    let loop =
      bounds_from-multiples (count / size) fuel start (start + count) size p (omega arith)
        (omega arith) (omega arith) in
    elim (Bool-cases (size == count)) [
      | inl same ↦ ground (arith, whole count size p ((==_iff size count).0 same))
      | inr other ↦
          ground (arith, loop, set_last-multiples (count / size) start size (start + count))
    ]

-- With a positive size and enough fuel the slice is made without a panic, and holds the bounds.
pub partition_range-bound :
    (fuel start count size : ℕ)
    → 0 < size
    → count / size + 1 < fuel
    → (result : List ℕ) × (partition_range fuel start (start + count) size ≡ returns result)
      × ((j : ℕ) → j ≤ count / size → index result j ≡ returns (bound start count size j))
unfolding partition_of
partition_range-bound fuel start count size p f = (
  partition_of start count size,
  partition_range-partition_of fuel start count size p f,
  λ j h. ground (
    arith,
    index-ended (count / size) start size (start + count) j,
    index-multiples (count / size) start size j,
  ),
)

bounds_from-unfinished : (fuel i last : ℕ) → i ≤ last → bounds_from fuel i last 0 ≡ unfinished
unfolding bounds_from
bounds_from-unfinished zero i last h = refl
bounds_from-unfinished (suc fuel) i last h =
    ground (arith, bounds_from-unfinished fuel (i + 0) last)

-- Without a positive size the loop never ends: this is what happens with more goroutines than routes.
pub partition_range-unfinished :
    (fuel start last : ℕ) → start < last → partition_range fuel start last 0 ≡ unfinished
unfolding partition_range
partition_range-unfinished fuel start last h =
    ground (arith, bounds_from-unfinished fuel start last)
