-- ===== src/Populator/Waiting.antt =====
-- route_populator/runner/runner.go: `Wait`.
use cf_app_sd_release.Base.{
  Bool, List, Option, [], arith, false, if◌then◌else◌, ltb, none, some, suc, true, zero, ℕ, ◌++◌,
  ◌∷◌, ◌≡◌, ◌≢◌,
}
use cf_app_sd_release.Populator.Goroutines.{
  Event, Phase, RunnerReach, RunnerStep, Running, Shared, all_starting, at_start, before_close,
  before_set, before_test, fails, finished, in_loop, move, moves, one_more, outside, quits,
  start_state, starting, succeeds,
}

unfoldable pub is_finished : Phase → Bool
is_finished finished = true
is_finished p = false

-- Of the first `n` in the list, which are the goroutines of `Start`.
unfoldable pub all_finished : ℕ → List Phase → Bool
all_finished zero ps = true
all_finished (suc n) [] = true
all_finished (suc n) (p ∷ ps) =
    let rest = all_finished n ps in if is_finished p then rest else false

-- `none` while it waits; then whether it returns an error.
unfoldable pub wait : ℕ → Running → Option Bool
wait n s = if all_finished n s.phases then some (ltb 0 s.shared.errors) else none

-- The first `n` are goroutines of `Start`.
abbrev pub AreInside : ℕ → List Phase → Type 0
AreInside zero ps = Unit
AreInside (suc n) [] = ⊥
AreInside (suc n) (p ∷ ps) = (p ≢ outside) × AreInside n ps

move-inside : (e : Event) (a b : Shared) (p q : Phase) → move e a p ≡ some (b, q) → q ≢ outside
unfolding move
move-inside succeeds a b starting q m = ground arith
move-inside fails a b starting q m = ground arith
move-inside quits a b starting q m = ground arith
move-inside succeeds a b in_loop q m = ground arith
move-inside fails a b in_loop q m = ground arith
move-inside quits a b in_loop q m = ground arith
move-inside e a b before_test q m = ground arith
move-inside e a b before_set q m = ground arith
move-inside e a b before_close q m = ground arith
move-inside e a b finished q m = ground arith
move-inside e a b outside q m = ground arith

inside-replaced :
    (n : ℕ) (before after : List Phase) (p q : Phase)
    → q ≢ outside
    → AreInside n (before ++ p ∷ after)
    → AreInside n (before ++ q ∷ after)
inside-replaced zero before after p q h i = tt
inside-replaced (suc n) [] after p q h i = (h, i.1)
inside-replaced (suc n) (r ∷ before) after p q h i =
    (i.0, inside-replaced n before after p q h (i.1))

all_starting-AreInside : (n : ℕ) → AreInside n (all_starting n)
unfolding all_starting
all_starting-AreInside zero = tt
all_starting-AreInside (suc n) = (λ e. cc, all_starting-AreInside n)

Step-AreInside :
    {s u : Running} (n : ℕ) → RunnerStep s u → AreInside n s.phases → AreInside n u.phases
Step-AreInside {s} n (moves e before after p q b ok at m same) h =
    rw same (inside-replaced n before after p q (move-inside e s.shared b p q m) (rw at at h))

pub RunnerReach-AreInside :
    (n : ℕ) {u : Running} → RunnerReach (start_state n) u → AreInside n u.phases
RunnerReach-AreInside n at_start = all_starting-AreInside n
RunnerReach-AreInside n (one_more r st) = Step-AreInside n st (RunnerReach-AreInside n r)
