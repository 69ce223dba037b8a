-- ===== src/Populator/Refining.antt =====
-- The goroutines with their messages take the steps of the goroutines without.
use mathlib.Core.List.{append_assoc}
use cf_app_sd_release.Base.{
  Bool, List, Option, Option-cases, Str, [], ap, arith, false, inl, inr, length, map, refl, some,
  sym, true, ℕ, ◌++◌, ◌∙◌, ◌∷◌, ◌≡◌, ◌⊎◌,
}
use cf_app_sd_release.Populator.Goroutines.{
  Event, Phase, RunnerReach, RunnerStep, Running, Shared, all_starting, at_start, fails, move,
  moves, one_more, outside, quits, start_state, starting, succeeds,
}
use cf_app_sd_release.Populator.Job.{Job, RouteData}
use cf_app_sd_release.Populator.Publisher.{initialize}
use cf_app_sd_release.Populator.Rounds.{publish_next-cases}
use cf_app_sd_release.Populator.Sending.{
  Doing, SendReach, SendStep, Sender, Sending, advance, advances, at_phase, attempt,
  before_initialize, give_up, in_select, new_sender, phase_of, publishing, send, sending_start,
  sends_more, sends_nothing, start_publishing, stops,
}

abbrev phases_of : List Sender → List Phase
phases_of = map (λ p. phase_of p.doing)

-- The state without the messages.
abbrev running_of : Sending → Running
running_of s = record { shared = s.shared; phases = phases_of s.senders ++ s.caller ∷ [] }

map-append :
    (before after : List Sender) → phases_of (before ++ after) ≡ phases_of before ++ phases_of after
map-append [] after = refl
map-append (p ∷ before) after = ap (◌∷◌ (phase_of p.doing)) (map-append before after)

phases-middle :
    (before after : List Sender) (p : Sender) (caller : Phase)
    → phases_of (before ++ p ∷ after) ++ caller ∷ []
      ≡ phases_of before ++ phase_of p.doing ∷ (phases_of after ++ caller ∷ [])
phases-middle before after p caller =
    ap (λ l. l ++ caller ∷ []) (map-append before (p ∷ after))
    ∙ append_assoc (phases_of before) (phase_of p.doing ∷ phases_of after) (caller ∷ [])

module _ (marshal : RouteData → Option Str) where
  start_publishing-move :
      (reached : Bool) (a b : Shared) (s u : Sender)
      → start_publishing marshal reached a s ≡ some (b, u)
      → ((b ≡ a) × (phase_of u.doing ≡ starting))
        ⊎ ((f : Event) × (move f a starting ≡ some (b, phase_of u.doing)))
  unfolding start_publishing give_up move phase_of
  start_publishing-move reached a b s u h =
      elim (Option-cases (initialize (λ endpoint. reached) marshal s.publisher).1) [
        | inl fine ↦ inl (ground arith)
        | inr (err, bad) ↦ inr (fails, ground arith)
      ]

  attempt-move :
      (e : Event) (a b : Shared) (s u : Sender) (first : Bool) (i : ℕ) (half : Bool) (d : Str)
      → attempt e a s first i half d ≡ some (b, u)
      → ((b ≡ a) × (phase_of u.doing ≡ phase_of (publishing first i half)))
        ⊎ ((f : Event) × (move f a (phase_of (publishing first i half))
              ≡ some (b, phase_of u.doing)))
  unfolding attempt send give_up move phase_of
  attempt-move succeeds a b s u first i false d h = inl (ground arith)
  attempt-move succeeds a b s u first i true d h = inl (ground arith)
  attempt-move fails a b s u true i half d h = inr (fails, ground arith)
  attempt-move fails a b s u false i half d h = inr (fails, ground arith)
  attempt-move quits a b s u first i half d h = absurd (ground arith)

  ended-move :
      (a b : Shared) (s u : Sender) (first : Bool) (i : ℕ) (half : Bool)
      → b ≡ a
      → u ≡ record s { doing = in_select }
      → ((b ≡ a) × (phase_of u.doing ≡ phase_of (publishing first i half)))
        ⊎ ((f : Event) × (move f a (phase_of (publishing first i half))
              ≡ some (b, phase_of u.doing)))
  unfolding move phase_of
  ended-move a b s u true i half h same = inr (succeeds, ground arith)
  ended-move a b s u false i half h same = inl (ground arith)

  -- A step shows, or it only sends.
  advance-move :
      (e : Event) (a b : Shared) (s u : Sender) (d : Doing)
      → advance marshal e a s d ≡ some (b, u)
      → ((b ≡ a) × (phase_of u.doing ≡ phase_of d))
        ⊎ ((f : Event) × (move f a (phase_of d) ≡ some (b, phase_of u.doing)))
  unfolding advance start_publishing give_up move phase_of
  advance-move succeeds a b s u before_initialize h = start_publishing-move true a b s u h
  advance-move fails a b s u before_initialize h = start_publishing-move false a b s u h
  advance-move quits a b s u before_initialize h = absurd (ground arith)
  advance-move e a b s u (publishing first i half) h =
      elim (publish_next-cases e a b s u first i half h) [
        | inl (d, at, made) ↦ attempt-move e a b s u first i half d made
        | inr (whole, over, unshared, same) ↦ ended-move a b s u first i half unshared same
      ]
  advance-move succeeds a b s u in_select h = inl (ground arith)
  advance-move fails a b s u in_select h = absurd (ground arith)
  advance-move quits a b s u in_select h = inr (quits, ground arith)
  advance-move e a b s u (at_phase p) h = elim (Option-cases (move e a p)) [
    | inl stuck ↦ absurd (ground arith)
    | inr (r, moved) ↦ inr (e, ground arith)
  ]

  SendStep-RunnerStep :
      {s u : Sending}
      → SendStep marshal s u
      → (running_of u ≡ running_of s) ⊎ RunnerStep (running_of s) (running_of u)
  SendStep-RunnerStep {s} {u} (advances e before after p q b ok at m same) =
      let rest = phases_of after ++ s.caller ∷ [] in
      let was : (running_of s).phases ≡ phases_of before ++ phase_of p.doing ∷ rest =
        ap (λ l. phases_of l ++ s.caller ∷ []) at ∙ phases-middle before after p s.caller in
      let now : running_of u
          ≡ record { shared = b; phases = phases_of before ++ phase_of q.doing ∷ rest } =
        ap running_of same
        ∙ ap (λ l. record { shared = b; phases = l }) (phases-middle before after q s.caller) in
      elim (advance-move e s.shared b p q p.doing m) [
        | inl (unshared, unmoved) ↦ inl (
            now
            ∙ (rw (unshared, unmoved)
                (ap (λ l. record { shared = s.shared; phases = l }) (sym was))))
        | inr (f, shown) ↦ inr (
            moves f (phases_of before) rest (phase_of p.doing) (phase_of q.doing) b ok was shown
              now)
      ]
  SendStep-RunnerStep {s} {u} (stops e q b ok m same) =
      inr (moves e (phases_of s.senders) [] s.caller q b ok refl m (ap running_of same))

  SendReach-RunnerReach :
      {s u : Sending} → SendReach marshal s u → RunnerReach (running_of s) (running_of u)
  SendReach-RunnerReach sends_nothing = at_start
  SendReach-RunnerReach {s} {u} (sends_more {t} r st) = elim (SendStep-RunnerStep st) [
    | inl same ↦ rw same (SendReach-RunnerReach r)
    | inr shown ↦ one_more (SendReach-RunnerReach r) shown
  ]

  start-running : (js : List Job) → running_of (sending_start js) ≡ start_state (length js)
  unfolding all_starting phase_of new_sender
  start-running js =
      ap (λ l. record { shared = record { stopped = false; closes = 0; errors = 0 }; phases = l })
        (starts js)
    where
      starts :
          (is : List Job) → phases_of (map new_sender is) ++ outside ∷ [] ≡ all_starting (length is)
      starts [] = refl
      starts (i ∷ is) = ap (◌∷◌ starting) (starts is)

  -- The goroutines with their publishers and connections, in whatever order their steps come, go only
  -- through steps of the goroutines without the messages, from the state after `Start` with as many
  -- goroutines as jobs: what holds of all states that those reach holds here too.
  sending_start-RunnerReach :
      (js : List Job) (u : Sending)
      → SendReach marshal (sending_start js) u
      → RunnerReach (start_state (length js)) (running_of u)
  sending_start-RunnerReach js u reach = rw (← start-running js) (SendReach-RunnerReach reach)
