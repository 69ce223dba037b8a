-- ===== src/Populator/Settled.antt =====
-- The goroutines that are not in `Stop` behind the test of `stopped`.
use cf_app_sd_release.Base.{
  List, [], arith, false, refl, some, suc, true, zero, ℕ, ◌++◌, ◌<◌, ◌∷◌, ◌≡◌, ◌≢◌, ◌≤◌,
}
use cf_app_sd_release.Populator.Goroutines.{
  Event, Phase, RunnerReach, RunnerStep, Running, Shared, at_start, before_close, before_set,
  before_test, fails, finished, has_panicked, in_loop, move, moves, one_more, outside, quits,
  start_state, starting, succeeds,
}
use cf_app_sd_release.Populator.Waiting.{
  AreInside, RunnerReach-AreInside, all_finished, is_finished,
}

pub reach_trans : {s t u : Running} → RunnerReach s t → RunnerReach t u → RunnerReach s u
reach_trans r at_start = r
reach_trans r (one_more q st) = one_more (reach_trans r q) st

-- A goroutine that is not in `Stop` behind the test.
abbrev pub IsSettled : Phase → Type 0
IsSettled before_set = ⊥
IsSettled before_close = ⊥
IsSettled outside = ⊥
IsSettled starting = Unit
IsSettled in_loop = Unit
IsSettled before_test = Unit
IsSettled finished = Unit

-- The same of the first `n` of them.
abbrev pub AreSettled : ℕ → List Phase → Type 0
AreSettled zero ps = Unit
AreSettled (suc n) [] = ⊥
AreSettled (suc n) (p ∷ ps) = IsSettled p × AreSettled n ps

pub all_finished-AreSettled :
    (n : ℕ) (ps : List Phase) → AreInside n ps → all_finished n ps ≡ true → AreSettled n ps
unfolding all_finished is_finished
all_finished-AreSettled zero ps i h = tt
all_finished-AreSettled (suc n) [] i h = absurd i
all_finished-AreSettled (suc n) (finished ∷ ps) i h =
    (tt, all_finished-AreSettled n ps i.1 (ground arith))
all_finished-AreSettled (suc n) (starting ∷ ps) i h = absurd (ground arith)
all_finished-AreSettled (suc n) (in_loop ∷ ps) i h = absurd (ground arith)
all_finished-AreSettled (suc n) (before_test ∷ ps) i h = absurd (ground arith)
all_finished-AreSettled (suc n) (before_set ∷ ps) i h = absurd (ground arith)
all_finished-AreSettled (suc n) (before_close ∷ ps) i h = absurd (ground arith)
all_finished-AreSettled (suc n) (outside ∷ ps) i h = absurd (ground arith)

-- Whoever is behind the test goes on to close the channel, a second time.
move-IsSettled :
    (e : Event) (a b : Shared) (p q : Phase)
    → 0 < a.closes
    → p ≢ outside
    → move e a p ≡ some (b, q)
    → has_panicked b ≡ false
    → IsSettled q
    → IsSettled p
unfolding move
move-IsSettled e a b starting q h i m ok k = tt
move-IsSettled e a b in_loop q h i m ok k = tt
move-IsSettled e a b before_test q h i m ok k = tt
move-IsSettled e a b before_set q h i m ok k =
    let same : q ≡ before_close = ground arith in absurd (rw same at k)
move-IsSettled e a b before_close q h i m ok k = absurd (ground arith)
move-IsSettled e a b finished q h i m ok k = tt
move-IsSettled e a b outside q h i m ok k = absurd (i refl)

replaced-AreSettled :
    (n : ℕ) (before after : List Phase) (p q : Phase)
    → (p ≢ outside → IsSettled q → IsSettled p)
    → AreInside n (before ++ p ∷ after)
    → AreSettled n (before ++ q ∷ after)
    → AreSettled n (before ++ p ∷ after)
replaced-AreSettled zero before after p q f i h = tt
replaced-AreSettled (suc n) [] after p q f i h = (f i.0 h.0, h.1)
replaced-AreSettled (suc n) (r ∷ before) after p q f i h =
    (h.0, replaced-AreSettled n before after p q f i.1 h.1)

move_more :
    (e : Event) (a b : Shared) (p q : Phase) → move e a p ≡ some (b, q) → a.closes ≤ b.closes
unfolding move
move_more succeeds a b starting q m = ground arith
move_more fails a b starting q m = ground arith
move_more quits a b starting q m = ground arith
move_more succeeds a b in_loop q m = ground arith
move_more fails a b in_loop q m = ground arith
move_more quits a b in_loop q m = ground arith
move_more e a b before_test q m = ground arith
move_more e a b before_set q m = ground arith
move_more e a b before_close q m = ground arith
move_more e a b finished q m = ground arith
move_more e a b outside q m = ground arith

Step-AreSettled :
    {s u : Running} (n : ℕ)
    → RunnerStep s u
    → 0 < s.shared.closes
    → has_panicked u.shared ≡ false
    → AreInside n s.phases
    → AreSettled n u.phases
    → AreSettled n s.phases
Step-AreSettled {s} {u} n (moves e before after p q b ok at m same) h fine i k = rw at (
    replaced-AreSettled n before after p q
      (λ in_it. move-IsSettled e s.shared b p q h in_it m (rw same at fine)) (rw at at i)
      (rw same at k))

Step-closes : {s u : Running} → RunnerStep s u → s.shared.closes ≤ u.shared.closes
Step-closes {s} (moves e before after p q b ok at m same) = rw same (move_more e s.shared b p q m)

Step-ok : {s u : Running} → RunnerStep s u → has_panicked s.shared ≡ false
Step-ok (moves e before after p q b ok at m same) = ok

RunnerReach-closes : {u t : Running} → RunnerReach u t → u.shared.closes ≤ t.shared.closes
RunnerReach-closes at_start = omega arith
RunnerReach-closes (one_more r st) = omega (arith, RunnerReach-closes r, Step-closes st)

pub RunnerReach-AreSettled :
    (n : ℕ) {u t : Running}
    → RunnerReach (start_state n) u
    → 0 < u.shared.closes
    → RunnerReach u t
    → has_panicked t.shared ≡ false
    → AreSettled n t.phases
    → AreSettled n u.phases
RunnerReach-AreSettled n from h at_start ok k = k
RunnerReach-AreSettled n from h (one_more r st) ok k =
    RunnerReach-AreSettled n from h r (Step-ok st) (
      Step-AreSettled n st (omega (arith, RunnerReach-closes r, h)) ok
        (RunnerReach-AreInside n (reach_trans from r)) k)
