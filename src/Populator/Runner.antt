-- ===== src/Populator/Runner.antt =====
-- route_populator/runner/runner.go: how `Start` hands the job out to its goroutines.
-- The range of a job is not negative, as its validation demands, so its ends are natural here.
use cf_app_sd_release.Base.{
  List, Outcome, [], arith, if◌then◌else◌, index, panics, refl, returns, suc, zero, ℕ, ◌%◌, ◌*◌,
  ◌+◌, ◌-◌, ◌/◌, ◌<◌, ◌==◌, ◌>>=◌, ◌∷◌, ◌≡◌, ◌≤◌,
}
use cf_app_sd_release.Populator.Job.{Job}
use cf_app_sd_release.Populator.Partition.{bound, div_bounds, partition_range}

-- The body of the loop of `Start`, up to the goroutine's publisher: the job of the goroutine `id`.
unfoldable pub job_of : Job → List ℕ → ℕ → Outcome Job
job_of j ranges id = do
  first ← index ranges id
  end ← index ranges (id + 1)
  returns (record j { start_range = first; end_range = end })

unfoldable pub jobs_from : Job → List ℕ → ℕ → ℕ → Outcome (List Job)
jobs_from j ranges zero id = returns []
jobs_from j ranges (suc rounds) id = do
  first ← job_of j ranges id
  rest ← jobs_from j ranges rounds (id + 1)
  returns (first ∷ rest)

-- The quotient panics for 0 goroutines. `fuel` is that of the loop in `PartitionRange`.
unfoldable pub quotient : ℕ → ℕ → Outcome ℕ
quotient a b = if b == 0 then panics else returns (a / b)

unfoldable pub start_jobs : ℕ → Job → ℕ → Outcome (List Job)
start_jobs fuel j num_go_routines = do
  range_size ← quotient (j.end_range - j.start_range) num_go_routines
  ranges ← partition_range fuel j.start_range j.end_range range_size
  jobs_from j ranges num_go_routines 0

-- The jobs in closed form: `n` jobs from number `id` on, cut at the bounds of the partition.
unfoldable pub jobs_at : Job → ℕ → ℕ → ℕ → ℕ → List Job
jobs_at j count size zero id = []
jobs_at j count size (suc n) id =
    record j {
      start_range = bound j.start_range count size id;
      end_range = bound j.start_range count size (id + 1);
    }
    ∷ jobs_at j count size n (id + 1)

pub jobs_from-jobs_at :
    (j : Job) (ranges : List ℕ) (count size n id : ℕ)
    → ((i : ℕ) → i ≤ count / size → index ranges i ≡ returns (bound j.start_range count size i))
    → id + n ≤ count / size
    → jobs_from j ranges n id ≡ returns (jobs_at j count size n id)
unfolding jobs_from jobs_at job_of
jobs_from-jobs_at j ranges count size zero id at le = refl
jobs_from-jobs_at j ranges count size (suc n) id at le = rw (
  at id (omega arith),
  at (id + 1) (omega arith),
  jobs_from-jobs_at j ranges count size n (id + 1) at (omega arith),
)

-- The quotient and the rest, for the number of bounds.
pub division : (count n : ℕ) → 0 < n → (count / n * n + count % n ≡ count) × (count % n < n)
division count n h = grind arith

le_of_mul : (a b q : ℕ) → a * q < b * q + q → a ≤ b
le_of_mul a b q h = grind arith

-- With the quotient as the size there are at least as many ranges as goroutines.
pub enough_ranges : (count n : ℕ) → 0 < n → 0 < count / n → n ≤ count / (count / n)
enough_ranges count n p q =
    le_of_mul n (count / (count / n)) (count / n)
      (grind (arith, div_bounds count (count / n) q, division count n p))

-- The last goroutine's range ends at the end of the routes exactly if the division leaves less than
-- one range over.
pub last_bound :
    (start count n : ℕ)
    → 0 < n
    → 0 < count / n
    → count % n < count / n
    → bound start count (count / n) n ≡ start + count
last_bound start count n p q r =
    let exact : count / (count / n) ≡ n = omega (
      arith,
      le_of_mul (count / (count / n)) n (count / n)
          (grind (arith, div_bounds count (count / n) q, division count n p)),
      enough_ranges count n p q,
    ) in
    ground (arith, exact, division count (count / n) q)

pub short_bound :
    (start count n : ℕ)
    → 0 < n
    → 0 < count / n
    → count / n ≤ count % n
    → bound start count (count / n) n ≡ start + n * (count / n)
short_bound start count n p q r =
    let more : n + 1 ≤ count / (count / n) =
      le_of_mul (n + 1) (count / (count / n)) (count / n)
        (grind (arith, div_bounds count (count / n) q, division count n p)) in
    ground (arith, more)
