-- ===== src/Populator/Finishing.antt =====
-- The end of a run of the runner.
use mathlib.Core.List.{append_assoc}
use cf_app_sd_release.Base.{
  List, [], arith, false, ltb, refl, some, suc, true, zero, ℕ, ◌++◌, ◌+◌, ◌<◌, ◌↔◌, ◌∷◌, ◌≡◌,
}
use cf_app_sd_release.Populator.Goroutines.{
  Event, Phase, RunnerReach, RunnerStep, Running, Shared, all_starting, at_close, at_start,
  before_close, before_set, before_test, fails, finished, has_panicked, in_loop, move, moves,
  one_more, outside, quits, start_state, starting, succeeds, total, total-middle,
}
use cf_app_sd_release.Populator.Settled.{
  AreSettled, IsSettled, RunnerReach-AreSettled, all_finished-AreSettled, reach_trans,
}
use cf_app_sd_release.Populator.Waiting.{RunnerReach-AreInside, all_finished, is_finished, wait}

abbrev running : Shared → List Phase → Running
running a ps = record { shared = a; phases = ps }

-- Whoever closes the channel, or is about to, has set `stopped` before.
abbrev IsNoted : Running → Type 0
IsNoted s = 0 < s.shared.closes + total at_close s.phases → s.shared.stopped ≡ true

move-noted :
    (e : Event) (a b : Shared) (p q : Phase) (c : ℕ)
    → move e a p ≡ some (b, q)
    → (0 < a.closes + (c + at_close p) → a.stopped ≡ true)
    → 0 < b.closes + (c + at_close q)
    → b.stopped ≡ true
unfolding move at_close
move-noted succeeds a b starting q c m h k = ground arith
move-noted fails a b starting q c m h k = ground arith
move-noted quits a b starting q c m h k = ground arith
move-noted succeeds a b in_loop q c m h k = ground arith
move-noted fails a b in_loop q c m h k = ground arith
move-noted quits a b in_loop q c m h k = ground arith
move-noted e a b before_test q c m h k = ground arith
move-noted e a b before_set q c m h k = ground arith
move-noted e a b before_close q c m h k = ground arith
move-noted e a b finished q c m h k = ground arith
move-noted e a b outside q c m h k = ground arith

-- The count of all the others.
abbrev others : List Phase → List Phase → ℕ
others before after = total at_close before + total at_close after

closers :
    (before after : List Phase) (p : Phase)
    → total at_close (before ++ p ∷ after) ≡ others before after + at_close p
closers before after p = omega (arith, total-middle at_close before after p)

Step-IsNoted : {s u : Running} → RunnerStep s u → IsNoted s → IsNoted u
Step-IsNoted {s} (moves e before after p q b ok at m same) h = rw same (λ k.
    move-noted e s.shared b p q (others before after) m (rw (at, closers before after p) at h)
      (rw (closers before after q) at k))

nobody_closes : (n : ℕ) → total at_close (all_starting n) ≡ 0
unfolding total at_close all_starting
nobody_closes zero = refl
nobody_closes (suc n) = omega (arith, nobody_closes n)

start-IsNoted : (n : ℕ) → IsNoted (start_state n)
start-IsNoted n = λ k. absurd (omega (arith, k, nobody_closes n))

RunnerReach-IsNoted : (n : ℕ) {u : Running} → RunnerReach (start_state n) u → IsNoted u
RunnerReach-IsNoted n at_start = start-IsNoted n
RunnerReach-IsNoted n (one_more r st) = Step-IsNoted st (RunnerReach-IsNoted n r)

-- Once the channel is closed and `stopped` is set, a goroutine that is not behind the test can end, with
-- no change of what is shared.
module _ (a : Shared) (closed : 0 < a.closes) (ok : has_panicked a ≡ false)
    (on : a.stopped ≡ true) where
  phase_ends :
      (before after : List Phase) (p : Phase)
      → IsSettled p
      → RunnerReach (running a (before ++ p ∷ after)) (running a (before ++ finished ∷ after))
  unfolding move
  phase_ends before after starting h =
      let looping =
        one_more at_start (moves succeeds before after starting in_loop a ok refl refl refl) in
      one_more looping (moves quits before after in_loop finished a ok refl (ground arith) refl)
  phase_ends before after in_loop h =
      one_more at_start (moves quits before after in_loop finished a ok refl (ground arith) refl)
  phase_ends before after before_test h =
      one_more at_start
        (moves quits before after before_test finished a ok refl (ground arith) refl)
  phase_ends before after before_set h = absurd h
  phase_ends before after before_close h = absurd h
  phase_ends before after finished h = at_start
  phase_ends before after outside h = absurd h

  all_end :
      (n : ℕ) (before after : List Phase)
      → AreSettled n after
      → (last : List Phase) × RunnerReach (running a (before ++ after)) (running a (before ++ last))
        × (all_finished n last ≡ true)
  unfolding all_finished is_finished
  all_end zero before after h = (after, at_start, refl)
  all_end (suc n) before [] h = absurd h
  all_end (suc n) before (p ∷ after) h =
      let (last, reached, all) = all_end n (before ++ finished ∷ []) after h.1 in
      let moved =
        rw (append_assoc before (finished ∷ []) after, append_assoc before (finished ∷ []) last) at
          reached in
      (finished ∷ last, reach_trans (phase_ends before after p h.0) moved, all)

-- Take any state that the runner with `n` goroutines can reach, in which `quitChan` is closed, but not
-- twice. There is an order of steps, without a further error and without a second close, after which
-- `Wait` returns, with an error exactly if one was sent, exactly if none of the `n` stands in
-- `Stop` between the test of `stopped` and the close.
pub RunnerReach-wait :
    (n : ℕ) {u : Running}
    → RunnerReach (start_state n) u
    → 0 < u.shared.closes
    → has_panicked u.shared ≡ false
    → ((t : Running) × RunnerReach u t
        × (has_panicked t.shared ≡ false)
        × (t.shared.errors ≡ u.shared.errors)
        × (wait n t ≡ some (ltb 0 u.shared.errors)))
      ↔ AreSettled n u.phases
unfolding wait
RunnerReach-wait n {u} r h ok = (
  λ (t, reached, fine, _, returned).
      let inside = RunnerReach-AreInside n (reach_trans r reached) in
      RunnerReach-AreSettled n r h reached fine
        (all_finished-AreSettled n t.phases inside (ground arith)),
  λ settled.
      let on = RunnerReach-IsNoted n r (omega arith) in
      let (last, reached, all) = all_end u.shared h ok on n [] u.phases settled in
      (running u.shared last, reached, ok, refl, rw (all, wait) refl),
)
