-- ===== src/Populator/Announcing.antt =====
-- Every route of the job is announced.
use native.Mathlib.Decide.{ℕ_discrete}
use mathlib.Core.List.{Memᴰ}
use mathlib.Core.List.Memᴰ
use cf_app_sd_release.Base.{
  All, Bool-cases, List, Option, Str, [], ap, arith, false, if◌then◌else◌, inl, inr, leb, ltb, refl,
  returns, some, suc, sym, true, zero, ℕ, ◌%◌, ◌&&◌, ◌+◌, ◌-◌, ◌/◌, ◌<◌, ◌∙◌, ◌∷◌, ◌≡◌, ◌≤◌, ◌⊎◌,
}
use cf_app_sd_release.Populator.Coverage.{holders, holders-all, start_jobs-jobs_at}
use cf_app_sd_release.Populator.Job.{Job, RouteData, route_data, uri}
use cf_app_sd_release.Populator.Progress.{HasSent, repeated, round_of}
use cf_app_sd_release.Populator.Publisher.{
  Publisher, announcements, initialize, new_publisher, router_register, service_discovery_register,
}
use cf_app_sd_release.Populator.Publishing.{encoded, marshal_routes-encoded}
use cf_app_sd_release.Populator.Runner.{enough_ranges, jobs_at, last_bound, start_jobs}
use cf_app_sd_release.Populator.Sending.{
  Doing, SendReach, Sender, Sending, at_phase, before_initialize, in_select, publishing,
  sending_start,
}
use cf_app_sd_release.Populator.Sent.{AreSending, IsReady, IsSending, SendReach-AreSending, SentAt}

-- A goroutine that is past its first publishing, and in its loop.
abbrev pub IsLooping : Doing → Type 0
IsLooping before_initialize = ⊥
IsLooping in_select = Unit
IsLooping (publishing true i half) = ⊥
IsLooping (publishing false i half) = Unit
IsLooping (at_phase p) = ⊥

-- One of the two messages for a text.
abbrev pub IsAbout : Str → Str × Str → Type 0
IsAbout d m = (m ≡ (router_register, d)) ⊎ (m ≡ (service_discovery_register, d))

mem-encoded :
    (encode : RouteData → Str) (j : Job) (n i x : ℕ)
    → i ≤ x
    → x < i + n
    → Memᴰ (encode (route_data j x)) (encoded encode j n i)
unfolding encoded
mem-encoded encode j zero i x lo hi = absurd (omega arith)
mem-encoded encode j (suc n) i x lo hi = elim (ℕ_discrete i x) [
  | yes now ↦ rw (now) (Memᴰ.head refl)
  | no later ↦ Memᴰ.tail (mem-encoded encode j n (i + 1) x (omega arith) (omega arith))
]

mem-announcements :
    (d : Str) (ds : List Str) (m : Str × Str) → IsAbout d m → Memᴰ d ds → Memᴰ m (announcements ds)
unfolding announcements
mem-announcements d [] m which h = elim h [ ]
mem-announcements d (x ∷ ds) m (inl first) (Memᴰ.head e) =
    Memᴰ.head (first ∙ ap (λ y. (router_register, y)) e)
mem-announcements d (x ∷ ds) m (inr second) (Memᴰ.head e) =
    Memᴰ.tail (Memᴰ.head (second ∙ ap (λ y. (service_discovery_register, y)) e))
mem-announcements d (x ∷ ds) m which (Memᴰ.tail h) =
    Memᴰ.tail (Memᴰ.tail (mem-announcements d ds m which h))

mem-repeated :
    (k : ℕ) (l : List (Str × Str)) (m : Str × Str) → 1 ≤ k → Memᴰ m l → Memᴰ m (repeated k l)
unfolding repeated
mem-repeated zero l m le there = absurd (omega arith)
mem-repeated (suc k) l m le there = Memᴰ.append_right (repeated k l) there

HasSent-mem :
    (p : Publisher) (left sent : List (Str × Str)) (m : Str × Str)
    → HasSent p 1 left sent
    → Memᴰ m (round_of p)
    → Memᴰ m sent
HasSent-mem p left sent m h there =
    rw (h.all) (Memᴰ.append_left h.part (mem-repeated h.rounds (round_of p) m h.enough there))

module _ (marshal : RouteData → Option Str) (encode : RouteData → Str)
    (enc : (r : RouteData) → marshal r ≡ some (encode r)) where
  IsReady-messages :
      (j : Job) (p : Publisher)
      → IsReady marshal j p
      → p.messages ≡ encoded encode j (j.end_range - j.start_range) j.start_range
  unfolding initialize new_publisher
  IsReady-messages j p h =
      let made =
        marshal_routes-encoded marshal encode j (j.end_range - j.start_range) j.start_range []
          enc in
      ground (arith, made)

  looping-HasSent :
      (j : Job) (p : Publisher) (sent : List (Str × Str)) (d : Doing)
      → SentAt marshal j p sent d
      → IsLooping d
      → IsReady marshal j p × (left : List (Str × Str)) × HasSent p 1 left sent
  looping-HasSent j p sent before_initialize h loop = absurd loop
  looping-HasSent j p sent in_select h loop = (h.0, round_of p, h.1)
  looping-HasSent j p sent (publishing true i half) h loop = absurd loop
  looping-HasSent j p sent (publishing false i half) h loop = (h.0, _, h.1)
  looping-HasSent j p sent (at_phase q) h loop = absurd loop

  -- A looping goroutine has sent both messages of each of its routes.
  looping-mem :
      (j : Job) (s : Sender) (x : ℕ) (m : Str × Str)
      → IsSending marshal j s
      → IsLooping s.doing
      → j.start_range ≤ x
      → x < j.end_range
      → IsAbout (encode (route_data j x)) m
      → Memᴰ m s.sent
  looping-mem j s x m h loop lo hi about =
      let (ready, left, has) = looping-HasSent j s.publisher s.sent s.doing h loop in
      let there =
        mem-encoded encode j (j.end_range - j.start_range) j.start_range x lo (omega arith) in
      HasSent-mem s.publisher left s.sent m has (
        mem-announcements _ s.publisher.messages m about
          (rw (IsReady-messages j s.publisher ready) there))

  -- Some goroutine has sent the messages of a route that a job holds.
  holder-sends :
      (j : Job) (x : ℕ) (js : List Job) (ss : List Sender)
      → All (λ i. route_data i x ≡ route_data j x) js
      → AreSending marshal js ss
      → All (λ s. IsLooping s.doing) ss
      → 0 < holders x js
      → (s : Sender) × Memᴰ s ss
        × ((m : Str × Str) → IsAbout (encode (route_data j x)) m → Memᴰ m s.sent)
  unfolding holders
  holder-sends j x [] [] same h loop held = absurd (omega arith)
  holder-sends j x [] (s ∷ ss) same h loop held = absurd h
  holder-sends j x (i ∷ js) [] same h loop held = absurd h
  holder-sends j x (i ∷ js) (s ∷ ss) same h loop held =
      elim (Bool-cases (leb i.start_range x && ltb x i.end_range)) [
        | inl holds ↦ (
          s,
          Memᴰ.head refl,
          λ m about.
              looping-mem i s x m h.0 loop.0 (ground arith) (ground arith)
                (rw (ap encode same.0) about),
        )
        | inr not_here ↦
            let (t, there, sends) = holder-sends j x js ss same.1 h.1 loop.1 (ground arith) in
            (t, Memᴰ.tail there, sends)
      ]

pub jobs_at-route_data :
    (j : Job) (x count size n id : ℕ)
    → All (λ i. route_data i x ≡ route_data j x) (jobs_at j count size n id)
unfolding jobs_at route_data uri
jobs_at-route_data j x count size zero id = tt
jobs_at-route_data j x count size (suc n) id = (refl, jobs_at-route_data j x count size n (id + 1))

-- The jobs that `Start` makes have the routes of the job, and hold each of its routes once.
started_jobs :
    (fuel n count : ℕ) (j : Job) (js : List Job)
    → j.end_range ≡ j.start_range + count
    → 0 < n
    → count % n < count / n
    → count + 1 < fuel
    → start_jobs fuel j n ≡ returns js
    → ((x : ℕ) → All (λ i. route_data i x ≡ route_data j x) js)
      × ((x : ℕ) → holders x js ≡ (if leb j.start_range x && ltb x j.end_range then 1 else 0))
started_jobs fuel n count j js e p r f made =
    let q : 0 < count / n = omega arith in
    let size = count / n in
    let same : js ≡ jobs_at j count size n 0 =
      ground (arith, made, start_jobs-jobs_at fuel n count j e p q f) in
    (
      λ x. rw (same) (jobs_at-route_data j x count size n 0),
      λ x. rw (same) (
          holders-all x j.end_range count size n j q p (enough_ranges count n p q)
            (last_bound j.start_range count n p q r ∙ sym e)),
    )

pub SendReach-announces :
    (marshal : RouteData → Option Str) (encode : RouteData → Str) (fuel n count x : ℕ) (j : Job)
    (js : List Job) (u : Sending)
    → ((r : RouteData) → marshal r ≡ some (encode r))
    → j.end_range ≡ j.start_range + count
    → 0 < n
    → count % n < count / n
    → count + 1 < fuel
    → start_jobs fuel j n ≡ returns js
    → SendReach marshal (sending_start js) u
    → All (λ s. IsLooping s.doing) u.senders
    → j.start_range ≤ x
    → x < j.end_range
    → (s : Sender) × Memᴰ s u.senders
      × Memᴰ (router_register, encode (route_data j x)) s.sent
      × Memᴰ (service_discovery_register, encode (route_data j x)) s.sent
SendReach-announces marshal encode fuel n count x j js u enc e p r f started reach loop lo hi =
    let (same, held) = started_jobs fuel n count j js e p r f started in
    let (s, there, sends) =
      holder-sends marshal encode enc j x js u.senders (same x)
        (SendReach-AreSending marshal js reach) loop (ground (arith, held x)) in
    (s, there, sends _ (inl refl), sends _ (inr refl))
