-- ===== src/Populator/Messages.antt =====
-- Only routes of the job are announced.
use cf_app_sd_release.Base.{
  All, All-append, Bool-cases, List, Option, Option-cases, Str, [], ap, arith, false, inl, inr, ltb,
  none, refl, returns, some, suc, true, zero, ℕ, ◌%◌, ◌++◌, ◌+◌, ◌-◌, ◌/◌, ◌<◌, ◌∷◌, ◌≡◌, ◌≤◌, ◌⊎◌,
}
use cf_app_sd_release.Populator.Announcing.{IsAbout, jobs_at-route_data}
use cf_app_sd_release.Populator.Coverage.{
  holders, start_jobs-jobs_at, start_jobs_cover, start_jobs_lose,
}
use cf_app_sd_release.Populator.Job.{Job, RouteData, route_data}
use cf_app_sd_release.Populator.Progress.{HasSent, at_least, repeated, round_of}
use cf_app_sd_release.Populator.Publisher.{
  Publisher, announcements, initialize, marshal_routes, new_publisher,
}
use cf_app_sd_release.Populator.Runner.{jobs_at, start_jobs}
use cf_app_sd_release.Populator.Sending.{
  Doing, SendReach, Sender, Sending, at_phase, before_initialize, in_select, publishing,
  sending_start,
}
use cf_app_sd_release.Populator.Sent.{AreSending, IsReady, IsSending, SendReach-AreSending, SentAt}

-- The encoding of a route of the job.
abbrev pub IsRoute : (RouteData → Option Str) → Job → Str → Type 0
IsRoute marshal j d =
    (x : ℕ) × (j.start_range ≤ x) × (x < j.end_range) × (marshal (route_data j x) ≡ some d)

-- A message about a route of the job.
abbrev pub IsOf : (RouteData → Option Str) → Job → Str × Str → Type 0
IsOf marshal j m = (d : Str) × IsRoute marshal j d × IsAbout d m

All-map :
    (P Q : Str × Str → Type 0) (l : List (Str × Str))
    → ((m : Str × Str) → P m → Q m)
    → All P l
    → All Q l
All-map P Q [] f h = tt
All-map P Q (m ∷ l) f h = (f m h.0, All-map P Q l f h.1)

announcements-All :
    (P : Str → Type 0) (ds : List Str)
    → All P ds
    → All (λ m. (d : Str) × P d × IsAbout d m) (announcements ds)
unfolding announcements
announcements-All P [] h = tt
announcements-All P (d ∷ ds) h =
    ((d, h.0, inl refl), ((d, h.0, inr refl), announcements-All P ds h.1))

-- The loop of `Initialize`, when it ends without an error.
marshal_routes-All :
    (marshal : RouteData → Option Str) (P : Str → Type 0) (j : Job) (rounds i : ℕ)
    (acc ms : List Str)
    → ((x : ℕ) (d : Str) → i ≤ x → x < i + rounds → marshal (route_data j x) ≡ some d → P d)
    → All P acc
    → marshal_routes marshal j rounds i acc ≡ (ms, none)
    → All P ms
unfolding marshal_routes
marshal_routes-All marshal P j zero i acc ms f h e = rw (ap (λ r. r.0) e) at h
marshal_routes-All marshal P j (suc rounds) i acc ms f h e =
    elim (Option-cases (marshal (route_data j i))) [
      | inl bad ↦ absurd (ground arith)
      | inr (d, made) ↦
          marshal_routes-All marshal P j rounds (i + 1) (acc ++ d ∷ []) ms
            (λ x c lo hi. f x c (omega arith) (omega arith))
            (All-append P acc (d ∷ []) h (f i d (omega arith) (omega arith) made, tt))
            (rw (made, marshal_routes) at e)
    ]

All-first : (P : Str × Str → Type 0) (l l' : List (Str × Str)) → All P (l ++ l') → All P l
All-first P [] l' h = tt
All-first P (m ∷ l) l' h = (h.0, All-first P l l' h.1)

All-repeated :
    (P : Str × Str → Type 0) (k : ℕ) (l : List (Str × Str)) → All P l → All P (repeated k l)
unfolding repeated
All-repeated P zero l h = tt
All-repeated P (suc k) l h = All-append P (repeated k l) l (All-repeated P k l h) h

HasSent-All :
    (P : Str × Str → Type 0) (p : Publisher) (least : ℕ) (left sent : List (Str × Str))
    → HasSent p least left sent
    → All P (round_of p)
    → All P sent
HasSent-All P p least left sent h each = rw (h.all) (
    All-append P (repeated h.rounds (round_of p)) h.part (All-repeated P h.rounds (round_of p) each)
      (All-first P h.part left (rw (h.split) each)))

module _ (marshal : RouteData → Option Str) where
  -- What a publisher has prepared.
  IsReady-All : (j : Job) (p : Publisher) → IsReady marshal j p → All (IsRoute marshal j) p.messages
  unfolding initialize new_publisher
  IsReady-All j p (reached, h) =
      let n = j.end_range - j.start_range in
      let made : marshal_routes marshal j n j.start_range [] ≡ (p.messages, none) = ground arith in
      marshal_routes-All marshal (IsRoute marshal j) j n j.start_range [] p.messages
        (λ x d lo hi m. (x, lo, omega (arith, hi, lo), m)) tt made

  some_rounds :
      (j : Job) (p : Publisher) (sent : List (Str × Str)) (d : Doing)
      → SentAt marshal j p sent d
      → (IsReady marshal j p × (left : List (Str × Str)) × HasSent p 0 left sent) ⊎ (sent ≡ [])
  some_rounds j p sent before_initialize h = inr h.1
  some_rounds j p sent in_select h =
      inl (h.0, round_of p, at_least p 1 0 (round_of p) sent (omega arith) h.1)
  some_rounds j p sent (publishing true i half) h = inl (h.0, _, h.1)
  some_rounds j p sent (publishing false i half) h =
      inl (h.0, _, at_least p 1 0 _ sent (omega arith) h.1)
  some_rounds j p sent (at_phase q) h = elim h.2 [
    | inl ready ↦ inl (ready, h.0, h.1)
    | inr empty ↦ inr empty
  ]

  sender-IsOf : (j : Job) (s : Sender) → IsSending marshal j s → All (IsOf marshal j) s.sent
  sender-IsOf j s h = elim (some_rounds j s.publisher s.sent s.doing h) [
    | inl (ready, left, has) ↦ HasSent-All (IsOf marshal j) s.publisher 0 left s.sent has (
        announcements-All (IsRoute marshal j) s.publisher.messages
          (IsReady-All j s.publisher ready))
    | inr empty ↦ rw (empty) tt
  ]

  -- The senders of jobs that have the routes of `j` send only such routes.
  senders-IsOf :
      (j : Job) (js : List Job) (ss : List Sender)
      → ((x : ℕ) → All (λ i. route_data i x ≡ route_data j x) js)
      → ((x : ℕ) → 0 < holders x js → (j.start_range ≤ x) × (x < j.end_range))
      → AreSending marshal js ss
      → All (λ s. All (IsOf marshal j) s.sent) ss
  unfolding holders
  senders-IsOf j [] [] same within h = tt
  senders-IsOf j [] (s ∷ ss) same within h = absurd h
  senders-IsOf j (i ∷ js) [] same within h = absurd h
  senders-IsOf j (i ∷ js) (s ∷ ss) same within h = (
    All-map (IsOf marshal i) (IsOf marshal j) s.sent
        (λ m (d, (x, lo, hi, made), about).
          let inside = within x (ground (arith, lo, hi)) in
          (d, (x, inside.0, inside.1, rw (ap marshal (same x).0) at made), about))
        (sender-IsOf i s h.0),
    senders-IsOf j js ss (λ x. (same x).1) (λ x held. within x (omega arith)) h.1,
  )

-- However the division comes out, the ranges of the goroutines are within that of the job.
holders-within :
    (fuel n count x : ℕ) (j : Job) (js : List Job)
    → j.end_range ≡ j.start_range + count
    → 0 < n
    → 0 < count / n
    → count + 1 < fuel
    → start_jobs fuel j n ≡ returns js
    → 0 < holders x js
    → (j.start_range ≤ x) × (x < j.end_range)
holders-within fuel n count x j js e p q f made held =
    elim (Bool-cases (ltb (count % n) (count / n))) [
      | inl even ↦
          let (js', made', _, all) = start_jobs_cover fuel n count x j e p (ground arith) f in
          let same : js' ≡ js = ground (arith, made, made') in ground (arith, rw same at all)
      | inr uneven ↦
          let (js', made', _, all, whole) =
            start_jobs_lose fuel n count x j e p q (ground arith) f in
          let same : js' ≡ js = ground (arith, made, made') in ground (arith, rw same at all)
    ]

-- Let a job be started with goroutines, at least one and at most as many as it has routes. In every
-- state that the goroutines reach, in whatever order their steps come, whichever routes the encoder
-- refuses, and whichever connections and publishings fail: each message that a goroutine has sent is what
-- the encoder made of a route of the job, to `router.register` or to `service-discovery.register`.
pub SendReach-IsOf :
    (marshal : RouteData → Option Str) (fuel n count : ℕ) (j : Job) (js : List Job) (u : Sending)
    → j.end_range ≡ j.start_range + count
    → 0 < n
    → 0 < count / n
    → count + 1 < fuel
    → start_jobs fuel j n ≡ returns js
    → SendReach marshal (sending_start js) u
    → All (λ s. All (IsOf marshal j) s.sent) u.senders
SendReach-IsOf marshal fuel n count j js u e p q f made reach =
    let cut : js ≡ jobs_at j count (count / n) n 0 =
      ground (arith, made, start_jobs-jobs_at fuel n count j e p q f) in
    senders-IsOf marshal j js u.senders
      (λ x. rw (cut) (jobs_at-route_data j x count (count / n) n 0))
      (λ x. holders-within fuel n count x j js e p q f made) (SendReach-AreSending marshal js reach)
