-- ===== src/Populator/Sent.antt =====
-- What a goroutine of `Start` has sent: whole rounds of its messages, and a part of one more.
use cf_app_sd_release.Base.{
  Bool, Bool-cases, List, Option, Option-cases, Str, [], ap, arith, false, index, inl, inr, map,
  none, refl, returns, some, suc, sym, true, ℕ, ◌++◌, ◌+◌, ◌==◌, ◌∙◌, ◌∷◌, ◌≡◌, ◌⊎◌,
}
use cf_app_sd_release.Populator.Goroutines.{Event, Shared, fails, move, quits, succeeds}
use cf_app_sd_release.Populator.Job.{Job, RouteData}
use cf_app_sd_release.Populator.Progress.{
  HasSent, at_least, nothing_sent, one_sent, round_of, round_sent,
}
use cf_app_sd_release.Populator.Publisher.{
  Publisher, initialize, new_publisher, router_register, service_discovery_register,
}
use cf_app_sd_release.Populator.Rounds.{
  left_at, left_at-end, left_at-first, left_at-second, left_at-start, length-initialize,
  publish_next-cases,
}
use cf_app_sd_release.Populator.Sending.{
  Doing, SendReach, SendStep, Sender, Sending, advance, advances, at_phase, attempt,
  before_initialize, give_up, in_select, new_sender, publish_next, publishing, send, sending_start,
  sends_more, sends_nothing, start_publishing, stops,
}

module _ (marshal : RouteData → Option Str) where
  -- The publisher is that of the job, and `Initialize` returned no error.
  abbrev pub IsReady : Job → Publisher → Type 0
  IsReady j p =
      (reached : Bool) × (initialize (λ endpoint. reached) marshal (new_publisher j) ≡ (p, none))

  -- What a goroutine for the job has sent, by where it stands.
  abbrev pub SentAt : Job → Publisher → List (Str × Str) → Doing → Type 0
  SentAt j p sent before_initialize = (p ≡ new_publisher j) × (sent ≡ [])
  SentAt j p sent in_select = IsReady j p × HasSent p 1 (round_of p) sent
  SentAt j p sent (publishing true i half) =
      IsReady j p × HasSent p 0 (left_at p.messages i half) sent
  SentAt j p sent (publishing false i half) =
      IsReady j p × HasSent p 1 (left_at p.messages i half) sent
  SentAt j p sent (at_phase q) =
      (left : List (Str × Str)) × HasSent p 0 left sent × (IsReady j p ⊎ (sent ≡ []))

  abbrev pub IsSending : Job → Sender → Type 0
  IsSending j s = SentAt j s.publisher s.sent s.doing

  -- The rounds that have ended before the one at hand.
  abbrev rounds_before : Bool → ℕ
  rounds_before true = 0
  rounds_before false = 1

  round_at :
      (j : Job) (p : Publisher) (sent : List (Str × Str)) (first : Bool) (i : ℕ) (half : Bool)
      → SentAt j p sent (publishing first i half)
      → IsReady j p × HasSent p (rounds_before first) (left_at p.messages i half) sent
  round_at j p sent true i half h = h
  round_at j p sent false i half h = h

  at_round :
      (j : Job) (p : Publisher) (sent : List (Str × Str)) (first : Bool) (i : ℕ) (half : Bool)
      → IsReady j p
      → HasSent p (rounds_before first) (left_at p.messages i half) sent
      → SentAt j p sent (publishing first i half)
  at_round j p sent true i half ready h = (ready, h)
  at_round j p sent false i half ready h = (ready, h)

  same_sender :
      {a b : Shared} {s u : Sender}
      → ◌≡◌ {A = Option (Shared × Sender)} (some (a, s)) (some (b, u))
      → u ≡ s
  same_sender h = ground arith

  start_publishing-IsSending :
      (j : Job) (reached : Bool) (a b : Shared) (s u : Sender)
      → s.publisher ≡ new_publisher j
      → s.sent ≡ []
      → start_publishing marshal reached a s ≡ some (b, u)
      → IsSending j u
  unfolding start_publishing give_up
  start_publishing-IsSending j reached a b s u fresh empty h =
      let made = initialize (λ endpoint. reached) marshal s.publisher in
      elim (Option-cases made.1) [
        | inl fine ↦
            let e = same_sender (rw (fine, start_publishing) at h) in
            rw (e) (
              (
                reached,
                ap (initialize (λ endpoint. reached) marshal) (sym fresh)
                    ∙ ap (λ o. (made.0, o)) fine,
              ),
              rw (empty, left_at-start made.0.messages) (nothing_sent made.0),
            )
        | inr (err, bad) ↦
            let e = same_sender (rw (bad, start_publishing) at h) in
            rw (e) (round_of made.0, rw (empty) (nothing_sent made.0), inr empty)
      ]

  attempt-IsSending :
      (j : Job) (e : Event) (a b : Shared) (s u : Sender) (first : Bool) (i : ℕ) (half : Bool)
      (d : Str)
      → IsReady j s.publisher
      → HasSent s.publisher (rounds_before first) (left_at s.publisher.messages i half) s.sent
      → index s.publisher.messages i ≡ returns d
      → attempt e a s first i half d ≡ some (b, u)
      → IsSending j u
  unfolding attempt send give_up
  attempt-IsSending j succeeds a b s u first i false d ready has at h = rw (same_sender h) (
      at_round j s.publisher _ first i true ready (
        one_sent s.publisher (rounds_before first) (router_register, d) _ s.sent
          (rw (left_at-first s.publisher.messages i d at) at has)))
  attempt-IsSending j succeeds a b s u first i true d ready has at h = rw (same_sender h) (
      at_round j s.publisher _ first (i + 1) false ready (
        one_sent s.publisher (rounds_before first) (service_discovery_register, d) _ s.sent
          (rw (left_at-second s.publisher.messages i d at) at has)))
  attempt-IsSending j fails a b s u first i half d ready has at h =
      rw (same_sender h)
        (_, at_least s.publisher (rounds_before first) 0 _ s.sent (omega arith) has, inl ready)
  attempt-IsSending j quits a b s u first i half d ready has at h = cc

  -- A round of the loop, and its end.
  publish_next-IsSending :
      (j : Job) (e : Event) (a b : Shared) (s u : Sender) (first : Bool) (i : ℕ) (half : Bool)
      → SentAt j s.publisher s.sent (publishing first i half)
      → publish_next e a s first i half ≡ some (b, u)
      → IsSending j u
  publish_next-IsSending j e a b s u first i half k h =
      let (ready, has) = round_at j s.publisher s.sent first i half k in
      elim (publish_next-cases e a b s u first i half h) [
        | inl (d, at, made) ↦ attempt-IsSending j e a b s u first i half d ready has at made
        | inr (whole, over, _, same) ↦
            let all = length-initialize ready.0 marshal j s.publisher ready.1 in
            let none_left = left_at-end s.publisher.messages i (omega (arith, all, over)) in
            let ended =
              round_sent s.publisher (rounds_before first) s.sent (rw (whole, none_left) at has) in
            rw same (
              ready,
              at_least s.publisher (suc (rounds_before first)) 1 (round_of s.publisher) s.sent
                  (omega arith) ended,
            )
      ]

  -- A step of the goroutine for a job keeps the record of what it has sent.
  advance-IsSending :
      (j : Job) (e : Event) (a b : Shared) (s u : Sender) (d : Doing)
      → SentAt j s.publisher s.sent d
      → advance marshal e a s d ≡ some (b, u)
      → IsSending j u
  unfolding advance
  advance-IsSending j succeeds a b s u before_initialize k h =
      start_publishing-IsSending j true a b s u k.0 k.1 h
  advance-IsSending j fails a b s u before_initialize k h =
      start_publishing-IsSending j false a b s u k.0 k.1 h
  advance-IsSending j quits a b s u before_initialize k h = cc
  advance-IsSending j e a b s u (publishing first i half) k h =
      publish_next-IsSending j e a b s u first i half k h
  advance-IsSending j succeeds a b s u in_select k h =
      rw (same_sender h) (k.0, rw (left_at-start s.publisher.messages) k.1)
  advance-IsSending j fails a b s u in_select k h = cc
  advance-IsSending j quits a b s u in_select k h = elim (Bool-cases (a.closes == 0)) [
    | inl unclosed ↦ absurd (ground arith)
    | inr closed ↦ rw (same_sender (rw (closed, advance) at h)) (
      round_of s.publisher,
      at_least s.publisher 1 0 (round_of s.publisher) s.sent (omega arith) k.1,
      inl k.0,
    )
  ]
  advance-IsSending j e a b s u (at_phase p) k h = elim (Option-cases (move e a p)) [
    | inl stuck ↦ absurd (ground arith)
    | inr (r, moved) ↦ rw (same_sender (rw (moved, advance) at h)) k
  ]

  -- The senders, each for its job.
  abbrev pub AreSending : List Job → List Sender → Type 0
  AreSending [] [] = Unit
  AreSending [] (s ∷ ss) = ⊥
  AreSending (j ∷ js) [] = ⊥
  AreSending (j ∷ js) (s ∷ ss) = IsSending j s × AreSending js ss

  one_advances :
      (js : List Job) (before after : List Sender) (p q : Sender)
      → ((j : Job) → IsSending j p → IsSending j q)
      → AreSending js (before ++ p ∷ after)
      → AreSending js (before ++ q ∷ after)
  one_advances [] [] after p q f h = absurd h
  one_advances [] (s ∷ before) after p q f h = absurd h
  one_advances (j ∷ js) [] after p q f h = (f j h.0, h.1)
  one_advances (j ∷ js) (s ∷ before) after p q f h = (h.0, one_advances js before after p q f h.1)

  new_sender-AreSending : (js : List Job) → AreSending js (map new_sender js)
  unfolding new_sender
  new_sender-AreSending [] = tt
  new_sender-AreSending (j ∷ js) = ((refl, refl), new_sender-AreSending js)

  SendStep-AreSending :
      (js : List Job) {s u : Sending}
      → SendStep marshal s u
      → AreSending js s.senders
      → AreSending js u.senders
  SendStep-AreSending js {s} (advances e before after p q b ok at m same) h = rw (same) (
      one_advances js before after p q (λ j k. advance-IsSending j e s.shared b p q p.doing k m)
        (rw (at) at h))
  SendStep-AreSending js (stops e q b ok m same) h = rw (same) h

  -- Whatever order the steps come in.
  pub SendReach-AreSending :
      (js : List Job) {u : Sending}
      → SendReach marshal (sending_start js) u
      → AreSending js u.senders
  SendReach-AreSending js sends_nothing = new_sender-AreSending js
  SendReach-AreSending js (sends_more r st) = SendStep-AreSending js st (SendReach-AreSending js r)
