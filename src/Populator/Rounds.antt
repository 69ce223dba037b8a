-- ===== src/Populator/Rounds.antt =====
-- One round of `PublishRouteRegistrations`, step by step: what is left to send.
use cf_app_sd_release.Base.{
  Bool, Bool-cases, List, Option, Option-cases, Outcome, Str, [], ap, arith, drop, false, index,
  inl, inr, length, length-append, ltb, none, panics, refl, returns, some, suc, sym, true,
  unfinished, zero, ℕ, ◌++◌, ◌+◌, ◌-◌, ◌||◌, ◌∙◌, ◌∷◌, ◌≡◌, ◌≤◌, ◌⊎◌,
}
use cf_app_sd_release.Populator.Goroutines.{Event, Shared}
use cf_app_sd_release.Populator.Job.{Job, RouteData, route_data}
use cf_app_sd_release.Populator.Publisher.{
  Publisher, announcements, initialize, marshal_routes, new_publisher, router_register,
  service_discovery_register,
}
use cf_app_sd_release.Populator.Sending.{Sender, attempt, in_select, publish_next}

-- Behind the first message of a pair, the second one.
unfoldable pub left_of : Bool → List Str → List (Str × Str)
unfolding announcements
left_of half [] = []
left_of false (d ∷ ds) = announcements (d ∷ ds)
left_of true (d ∷ ds) = (service_discovery_register, d) ∷ announcements ds

-- What is left at a place in the loop.
abbrev pub left_at : List Str → ℕ → Bool → List (Str × Str)
left_at ms i half = left_of half (drop i ms)

drop-suc :
    (ms : List Str) (i : ℕ) (d : Str) → index ms i ≡ returns d → drop i ms ≡ d ∷ drop (suc i) ms
unfolding index
drop-suc [] i d h = cc
drop-suc (m ∷ ms) zero d h = ground arith
drop-suc (m ∷ ms) (suc i) d h = drop-suc ms i d h

suc_add : (i : ℕ) → suc i ≡ i + 1
suc_add i = omega arith

drop-index :
    (ms : List Str) (i : ℕ) (d : Str) → index ms i ≡ returns d → drop i ms ≡ d ∷ drop (i + 1) ms
drop-index ms i d h = drop-suc ms i d h ∙ ap (λ k. d ∷ drop k ms) (suc_add i)

drop-all : (ms : List Str) (i : ℕ) → length ms ≤ i → drop i ms ≡ []
drop-all [] zero h = refl
drop-all [] (suc i) h = refl
drop-all (m ∷ ms) zero h = absurd (omega arith)
drop-all (m ∷ ms) (suc i) h = drop-all ms i (omega arith)

left_of-false : (ds : List Str) → left_of false ds ≡ announcements ds
unfolding left_of announcements
left_of-false [] = refl
left_of-false (d ∷ ds) = refl

pub left_at-start : (ms : List Str) → left_at ms 0 false ≡ announcements ms
left_at-start ms = left_of-false ms

pub left_at-first :
    (ms : List Str) (i : ℕ) (d : Str)
    → index ms i ≡ returns d
    → left_at ms i false ≡ (router_register, d) ∷ left_at ms i true
unfolding left_of announcements
left_at-first ms i d h = rw (drop-index ms i d h) refl

pub left_at-second :
    (ms : List Str) (i : ℕ) (d : Str)
    → index ms i ≡ returns d
    → left_at ms i true ≡ (service_discovery_register, d) ∷ left_at ms (i + 1) false
unfolding left_of
left_at-second ms i d h =
    rw (drop-index ms i d h)
      (ap (◌∷◌ (service_discovery_register, d)) (sym (left_of-false (drop (i + 1) ms))))

pub left_at-end : (ms : List Str) (i : ℕ) → length ms ≤ i → left_at ms i false ≡ []
unfolding left_of
left_at-end ms i h = rw (drop-all ms i h) refl

Outcome-cases :
    {A : Type 0} (o : Outcome A) → ((a : A) × (o ≡ returns a)) ⊎ (o ≡ panics) ⊎ (o ≡ unfinished)
Outcome-cases (returns a) = inl (a, refl)
Outcome-cases panics = inr (inl refl)
Outcome-cases unfinished = inr (inr refl)

-- A step of the loop is an attempt with the message of the round, or the end.
pub publish_next-cases :
    (e : Event) (a b : Shared) (s u : Sender) (first : Bool) (i : ℕ) (half : Bool)
    → publish_next e a s first i half ≡ some (b, u)
    → ((d : Str) × (index s.publisher.messages i ≡ returns d)
        × (attempt e a s first i half d ≡ some (b, u)))
      ⊎ ((half ≡ false)
          × (s.publisher.job.end_range - s.publisher.job.start_range ≤ i)
          × (b ≡ a)
          × (u ≡ record s { doing = in_select }))
unfolding publish_next
publish_next-cases e a b s u first i half h =
    elim (Bool-cases (half || ltb i (s.publisher.job.end_range - s.publisher.job.start_range))) [
      | inl inside ↦ elim (Outcome-cases (index s.publisher.messages i)) [
        | inl (d, at) ↦ inl (d, at, (rw (inside, at, publish_next) at h))
        | inr stuck ↦ elim stuck [
          | inl bad ↦ absurd (ground arith)
          | inr bad ↦ absurd (ground arith)
        ]
      ]
      | inr over ↦ elim (Outcome-cases (index s.publisher.messages 0)) [
        | inl (d, at) ↦ inr (ground arith)
        | inr stuck ↦ elim stuck [
          | inl bad ↦ absurd (ground arith)
          | inr bad ↦ absurd (ground arith)
        ]
      ]
    ]

length-marshal_routes :
    (marshal : RouteData → Option Str) (j : Job) (rounds i : ℕ) (acc ms : List Str)
    → marshal_routes marshal j rounds i acc ≡ (ms, none)
    → length ms ≡ length acc + rounds
unfolding marshal_routes
length-marshal_routes marshal j zero i acc ms h = ground arith
length-marshal_routes marshal j (suc rounds) i acc ms h =
    elim (Option-cases (marshal (route_data j i))) [
      | inl bad ↦ absurd (ground arith)
      | inr (d, made) ↦
          let rest =
            length-marshal_routes marshal j rounds (i + 1) (acc ++ d ∷ []) ms
              (rw (made, marshal_routes) at h) in
          omega (arith, rest, length-append acc (d ∷ []))
    ]

pub length-initialize :
    (reached : Bool) (marshal : RouteData → Option Str) (j : Job) (p : Publisher)
    → initialize (λ endpoint. reached) marshal (new_publisher j) ≡ (p, none)
    → length p.messages ≡ p.job.end_range - p.job.start_range
unfolding initialize new_publisher
length-initialize reached marshal j p h =
    let n = j.end_range - j.start_range in
    let made : marshal_routes marshal j n j.start_range [] ≡ (p.messages, none) = ground arith in
    let same : p.job ≡ j = ground arith in
    let all : length p.messages ≡ n =
      omega (arith, length-marshal_routes marshal j n j.start_range [] p.messages made) in
    rw same all
