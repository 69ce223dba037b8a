-- ===== src/Populator/Coverage.antt =====
-- Which goroutine publishes which route.
use cf_app_sd_release.Base.{
  List, [], ap, arith, if◌then◌else◌, leb, length, ltb, refl, returns, suc, sym, zero, ℕ, ◌%◌, ◌&&◌,
  ◌*◌, ◌+◌, ◌/◌, ◌<◌, ◌∙◌, ◌∷◌, ◌≡◌, ◌≤◌,
}
use cf_app_sd_release.Populator.Job.{Job}
use cf_app_sd_release.Populator.Partition.{bound, div_bounds, partition_range-bound}
use cf_app_sd_release.Populator.Runner.{
  division, enough_ranges, jobs_at, jobs_from-jobs_at, last_bound, quotient, short_bound,
  start_jobs,
}

-- How many of the jobs hold the route number `x`.
unfoldable pub holders : ℕ → List Job → ℕ
holders x [] = 0
holders x (j ∷ js) = (if leb j.start_range x && ltb x j.end_range then 1 else 0) + holders x js

bound_mono :
    (start count size i : ℕ)
    → 0 < size
    → i + 1 ≤ count / size
    → bound start count size i ≤ bound start count size (i + 1)
bound_mono start count size i p h = grind (arith, div_bounds count size p)

shift : (i n : ℕ) → i + 1 + n ≡ i + suc n
shift i n = omega arith

bound-le :
    (start count size i n : ℕ)
    → 0 < size
    → i + n ≤ count / size
    → bound start count size i ≤ bound start count size (i + n)
bound-le start count size i zero p h = ground arith
bound-le start count size i (suc n) p h = omega (
  arith,
  bound_mono start count size i p (omega arith),
  bound-le start count size (i + 1) n p (omega arith),
  ap (bound start count size) (shift i n),
)

plus_zero : (i : ℕ) → i + 0 ≡ i
plus_zero i = omega arith

zero_plus : (n : ℕ) → 0 + n ≡ n
zero_plus n = omega arith

joined :
    (a b c c' x : ℕ)
    → a ≤ b
    → b ≤ c
    → c ≡ c'
    → (if leb a x && ltb x b then 1 else 0) + (if leb b x && ltb x c then 1 else 0)
      ≡ (if leb a x && ltb x c' then 1 else 0)
joined a b c c' x h k e = ground arith

-- Jobs cut at rising bounds hold each route between the first and the last bound once.
holders-jobs_at :
    (x : ℕ) (j : Job) (count size n id : ℕ)
    → 0 < size
    → id + n ≤ count / size
    → holders x (jobs_at j count size n id) ≡ (
        if leb (bound j.start_range count size id) x
          && ltb x (bound j.start_range count size (id + n))
        then 1
        else 0)
unfolding holders jobs_at
holders-jobs_at x j count size zero id p h =
    let e : bound j.start_range count size (id + 0) ≡ bound j.start_range count size id =
      ap (bound j.start_range count size) (plus_zero id) in
    ground (arith, e)
holders-jobs_at x j count size (suc n) id p h =
    let b = bound j.start_range count size in
    rw (holders-jobs_at x j count size n (id + 1) p (omega arith)) (
      joined (b id) (b (id + 1)) (b (id + 1 + n)) (b (id + suc n)) x
        (bound_mono j.start_range count size id p (omega arith))
        (bound-le j.start_range count size (id + 1) n p (omega arith)) (ap b (shift id n)))

length-jobs_at : (j : Job) (count size n id : ℕ) → length (jobs_at j count size n id) ≡ n
unfolding jobs_at
length-jobs_at j count size zero id = refl
length-jobs_at j count size (suc n) id = ap suc (length-jobs_at j count size n (id + 1))

fits : (fuel count size : ℕ) → 0 < size → count + 1 < fuel → count / size + 1 < fuel
fits fuel count size p f = grind (arith, div_bounds count size p)

-- What `Start` computes, for at least as many routes as goroutines.
pub start_jobs-jobs_at :
    (fuel n count : ℕ) (j : Job)
    → j.end_range ≡ j.start_range + count
    → 0 < n
    → 0 < count / n
    → count + 1 < fuel
    → start_jobs fuel j n ≡ returns (jobs_at j count (count / n) n 0)
unfolding start_jobs quotient
start_jobs-jobs_at fuel n count j e p q f =
    let g = fits fuel count (count / n) q f in
    let (result, made, at) = partition_range-bound fuel j.start_range count (count / n) q g in
    let cut =
      jobs_from-jobs_at j result count (count / n) n 0 at
        (omega (arith, enough_ranges count n p q)) in
    ground (arith, made, cut)

first_bound : (start count size : ℕ) → 0 < count / size → bound start count size 0 ≡ start
first_bound start count size h = ground arith

pub holders-all :
    (x end count size n : ℕ) (j : Job)
    → 0 < size
    → 0 < n
    → n ≤ count / size
    → bound j.start_range count size n ≡ end
    → holders x (jobs_at j count size n 0) ≡ (if leb j.start_range x && ltb x end then 1 else 0)
holders-all x end count size n j p q h e =
    let b = bound j.start_range count size in
    let s : b 0 ≡ j.start_range = first_bound j.start_range count size (omega arith) in
    let l : b (0 + n) ≡ end = ap b (zero_plus n) ∙ e in
    holders-jobs_at x j count size n 0 p (omega arith) ∙ (rw (s, l) refl)

-- When less than one range is left over by the division of the routes by the goroutines, and there is
-- a goroutine, `Start` neither panics nor hangs, makes one job for each goroutine, and
-- every route of the job, and no other, is in exactly one of them. The fuel stands for the loop of
-- `PartitionRange`, which then ends.
pub start_jobs_cover :
    (fuel n count x : ℕ) (j : Job)
    → j.end_range ≡ j.start_range + count
    → 0 < n
    → count % n < count / n
    → count + 1 < fuel
    → (js : List Job) × (start_jobs fuel j n ≡ returns js)
      × (length js ≡ n)
      × (holders x js ≡ (if leb j.start_range x && ltb x j.end_range then 1 else 0))
start_jobs_cover fuel n count x j e p r f =
    let q : 0 < count / n = omega arith in
    let size = count / n in
    (
      jobs_at j count size n 0,
      start_jobs-jobs_at fuel n count j e p q f,
      length-jobs_at j count size n 0,
      holders-all x j.end_range count size n j q p (enough_ranges count n p q)
          (last_bound j.start_range count n p q r ∙ sym e),
    )

-- Otherwise the tail is lost: when the division leaves at least one range over, the jobs that `Start`
-- makes hold the first `n * (count / n)` routes once, and no job holds any of the `count % n` routes
-- behind them.
pub start_jobs_lose :
    (fuel n count x : ℕ) (j : Job)
    → j.end_range ≡ j.start_range + count
    → 0 < n
    → 0 < count / n
    → count / n ≤ count % n
    → count + 1 < fuel
    → (js : List Job) × (start_jobs fuel j n ≡ returns js)
      × (length js ≡ n)
      × (holders x js
          ≡ (if leb j.start_range x && ltb x (j.start_range + n * (count / n)) then 1 else 0))
      × (j.start_range + n * (count / n) + count % n ≡ j.end_range)
start_jobs_lose fuel n count x j e p q r f =
    let size = count / n in
    (
      jobs_at j count size n 0,
      start_jobs-jobs_at fuel n count j e p q f,
      length-jobs_at j count size n 0,
      holders-all x _ count size n j q p (enough_ranges count n p q)
          (short_bound j.start_range count n p q r),
      grind (arith, division count n p),
    )
