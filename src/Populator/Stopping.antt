-- ===== src/Populator/Stopping.antt =====
-- What the goroutines of the runner can and cannot do to each other.
use mathlib.Core.Bool.{false≢true}
use cf_app_sd_release.Base.{
  Bool, List, [], arith, false, ltb, refl, some, suc, true, zero, ℕ, ◌++◌, ◌+◌, ◌<◌, ◌∷◌, ◌≡◌, ◌≤◌,
}
use cf_app_sd_release.Populator.Goroutines.{
  Event, Phase, RunnerReach, RunnerStep, Running, Shared, all_starting, at_close, at_start,
  before_close, before_set, before_test, fails, finished, has_panicked, in_loop, in_stop, may_send,
  move, moves, one_more, outside, quits, start_state, starting, succeeds, total, total-middle,
}

-- The three facts of `IsOrderly` below for one goroutine at `p`, with what the others add to the three counts.
abbrev Orders : ℕ → Shared → Phase → ℕ → ℕ → ℕ → Type 0
Orders n a p senders closers stoppers =
    (a.errors + (senders + may_send p) ≤ n)
    × (a.stopped ≡ true → 0 < a.closes + (closers + at_close p))
    × (0 < a.errors → 0 < a.closes + (stoppers + in_stop p))

move-Orders :
    (e : Event) (a b : Shared) (p q : Phase) (n s c t : ℕ)
    → c ≤ t
    → move e a p ≡ some (b, q)
    → Orders n a p s c t
    → Orders n b q s c t
unfolding move may_send in_stop at_close
move-Orders succeeds a b starting q n s c t le m h = ground arith
move-Orders fails a b starting q n s c t le m h = ground arith
move-Orders quits a b starting q n s c t le m h = ground arith
move-Orders succeeds a b in_loop q n s c t le m h = ground arith
move-Orders fails a b in_loop q n s c t le m h = ground arith
move-Orders quits a b in_loop q n s c t le m h = ground arith
move-Orders e a b before_test q n s c t le m h = ground arith
move-Orders e a b before_set q n s c t le m h = ground arith
move-Orders e a b before_close q n s c t le m h = ground arith
move-Orders e a b finished q n s c t le m h = ground arith
move-Orders e a b outside q n s c t le m h = ground arith

one_by_one : (p : Phase) → at_close p ≤ in_stop p
unfolding at_close in_stop
one_by_one starting = omega arith
one_by_one in_loop = omega arith
one_by_one before_test = omega arith
one_by_one before_set = omega arith
one_by_one before_close = omega arith
one_by_one finished = omega arith
one_by_one outside = omega arith

closers-stoppers : (ps : List Phase) → total at_close ps ≤ total in_stop ps
unfolding total at_close in_stop
closers-stoppers [] = omega arith
closers-stoppers (p ∷ ps) = omega (arith, closers-stoppers ps, one_by_one p)

-- In a run with `n` goroutines: the channel of errors has room left for each goroutine that may still
-- send; whoever has set `stopped` has closed the channel or is about to; and once an error was sent,
-- the channel was closed or someone is in `Stop`.
pub record IsOrderly (n : ℕ) (s : Running) : Type 0 where
  pub room : s.shared.errors + total may_send s.phases ≤ n
  pub pending : s.shared.stopped ≡ true → 0 < s.shared.closes + total at_close s.phases
  pub noticed : 0 < s.shared.errors → 0 < s.shared.closes + total in_stop s.phases

-- The counts of all the others.
abbrev rest_of : (Phase → ℕ) → List Phase → List Phase → ℕ
rest_of f before after = total f before + total f after

middle :
    (f : Phase → ℕ) (before after : List Phase) (p : Phase)
    → total f (before ++ p ∷ after) ≡ rest_of f before after + f p
middle f before after p = omega (arith, total-middle f before after p)

middle-Orders :
    (n : ℕ) (a : Shared) (before after : List Phase) (p : Phase)
    → IsOrderly n (record { shared = a; phases = before ++ p ∷ after })
    → Orders n a p
        (rest_of may_send before after)
        (rest_of at_close before after)
        (rest_of in_stop before after)
middle-Orders n a before after p h = (
  rw (middle may_send before after p) at h.room,
  rw (middle at_close before after p) at h.pending,
  rw (middle in_stop before after p) at h.noticed,
)

middle-IsOrderly :
    (n : ℕ) (a : Shared) (before after : List Phase) (p : Phase)
    → Orders n a p
        (rest_of may_send before after)
        (rest_of at_close before after)
        (rest_of in_stop before after)
    → IsOrderly n (record { shared = a; phases = before ++ p ∷ after })
middle-IsOrderly n a before after p h = record {
  room = rw (middle may_send before after p) (h.0);
  pending = rw (middle at_close before after p) (h.1);
  noticed = rw (middle in_stop before after p) (h.2);
}

Step-IsOrderly : {s u : Running} (n : ℕ) → RunnerStep s u → IsOrderly n s → IsOrderly n u
Step-IsOrderly {s} n (moves e before after p q b ok at m same) h =
    let le : rest_of at_close before after ≤ rest_of in_stop before after =
      omega (arith, closers-stoppers before, closers-stoppers after) in
    rw same (
      middle-IsOrderly n b before after q (
        move-Orders e s.shared b p q n _ _ _ le m
          (middle-Orders n s.shared before after p (rw at at h))))

senders : (n : ℕ) → total may_send (all_starting n) ≡ n
unfolding total may_send all_starting
senders zero = refl
senders (suc n) = omega (arith, senders n)

start-IsOrderly : (n : ℕ) → IsOrderly n (start_state n)
start-IsOrderly n = record {
  room = omega (arith, senders n);
  pending = λ e. absurd (false≢true e);
  noticed = λ h. absurd (omega (arith, h));
}

-- In every state that the runner can reach with `n` goroutines, in any order of their steps: the
-- channel of errors, which has room for `n`, has room left for each goroutine that may still send; if
-- `stopped` is set, then `quitChan` was closed or someone is about to close it; and once an error was
-- sent, it was closed or someone is in `Stop`.
pub RunnerReach-IsOrderly : (n : ℕ) {u : Running} → RunnerReach (start_state n) u → IsOrderly n u
RunnerReach-IsOrderly n at_start = start-IsOrderly n
RunnerReach-IsOrderly n (one_more r st) = Step-IsOrderly n st (RunnerReach-IsOrderly n r)

abbrev pair : Bool → ℕ → ℕ → Phase → Phase → List Phase → Running
pair stopped closes errors p q others = record {
  shared = record { stopped = stopped; closes = closes; errors = errors };
  phases = p ∷ q ∷ others;
}

first_moves :
    (e : Event) (others : List Phase) (stopped stopped' : Bool) (c c' n n' : ℕ) (p p' q : Phase)
    → ltb 1 c ≡ false
    → move e (record { stopped = stopped; closes = c; errors = n }) p
      ≡ some (record { stopped = stopped'; closes = c'; errors = n' }, p')
    → RunnerStep (pair stopped c n p q others) (pair stopped' c' n' p' q others)
first_moves e others stopped stopped' c c' n n' p p' q ok m =
    moves e [] (q ∷ others) p p' _ ok refl m refl

second_moves :
    (e : Event) (others : List Phase) (stopped stopped' : Bool) (c c' n n' : ℕ) (p q q' : Phase)
    → ltb 1 c ≡ false
    → move e (record { stopped = stopped; closes = c; errors = n }) q
      ≡ some (record { stopped = stopped'; closes = c'; errors = n' }, q')
    → RunnerStep (pair stopped c n p q others) (pair stopped' c' n' p q' others)
second_moves e others stopped stopped' c c' n n' p q q' ok m =
    moves e (p ∷ []) others q q' _ ok refl m refl

-- Two goroutines that fail one after the other, and test `stopped` before either sets it.
both_close :
    (others : List Phase)
    → RunnerReach (pair false 0 0 starting starting others) (pair true 2 2 finished finished others)
unfolding move
both_close others =
    let r1 =
      one_more at_start
        (first_moves fails others false false 0 0 0 1 starting before_test starting refl refl) in
    let r2 =
      one_more r1 (
        second_moves fails others false false 0 0 1 2 before_test starting before_test refl refl) in
    let r3 =
      one_more r2 (
        first_moves quits others false false 0 0 2 2 before_test before_set before_test refl
          refl) in
    let r4 =
      one_more r3 (
        second_moves quits others false false 0 0 2 2 before_set before_test before_set refl
          refl) in
    let r5 =
      one_more r4 (
        first_moves quits others false true 0 0 2 2 before_set before_close before_set refl refl) in
    let r6 = one_more r5 (
      second_moves quits others true true 0 0 2 2 before_close before_set before_close refl refl) in
    let r7 =
      one_more r6
        (first_moves quits others true true 0 1 2 2 before_close finished before_close refl refl) in
    let r8 =
      one_more r7
        (second_moves quits others true true 1 2 2 2 finished before_close finished refl refl) in
    r8

-- With two goroutines or more, the runner can panic: there is an order of steps in which two of them close
-- the channel.
pub RunnerReach-has_panicked :
    (n : ℕ)
    → (u : Running) × RunnerReach (start_state (suc (suc n))) u × (has_panicked u.shared ≡ true)
unfolding all_starting
RunnerReach-has_panicked n =
    (pair true 2 2 finished finished (all_starting n), both_close (all_starting n), refl)
