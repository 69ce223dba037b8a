-- ===== src/Adapter/Retries.antt =====
-- What `IPs` promises about its requests.
use cf_app_sd_release.Adapter.Client.{
  Host, Reply, Response, decode, failed, ips, non_successful, registration_url, request_loop,
  status_ok, transport, unreadable,
}
use cf_app_sd_release.Base.{
  Bool-cases, List, Option, Option-cases, Outcome, Str, [], ap, arith, bytes, false, if◌then◌else◌,
  inl, inr, none, panics, refl, some, suc, true, zero, ℕ, ◌+◌, ◌<◌, ◌==◌, ◌∷◌, ◌≡◌,
}

-- The numbers below `n`, the greatest first.
abbrev pub countdown : ℕ → List ℕ
countdown zero = []
countdown (suc n) = n ∷ countdown n

-- Request `n` was answered, but not with status 200.
abbrev pub Refused : (ℕ → Option Response) → ℕ → Type 0
Refused get n = (r : Response) × (get n ≡ some r) × ((r.status_code == status_ok) ≡ false)

-- `IPs` makes a request only after all earlier ones were refused.
abbrev pub AllRefused : (ℕ → Option Response) → ℕ → Type 0
AllRefused get zero = Unit
AllRefused get (suc n) = Refused get n × AllRefused get n

-- The ways in which the loop can end after `n` refusals.
pub data Ending (get : ℕ → Option Response) (n : ℕ) : Type 0 where
  lost : n < 4 → get n ≡ none → Ending get n
  answered :
      (r : Response) → n < 4 → get n ≡ some r → (r.status_code == status_ok) ≡ true → Ending get n
  exhausted : n ≡ 4 → Ending get n

-- What `IPs` returns for an ending. All the responses that it got are closed.
unfoldable pub reply_for :
    (Str → Option (Option (List Host)))
    → (ℕ → ℕ)
    → (get : ℕ → Option Response) (n : ℕ) → Ending get n
    → Outcome Reply
reply_for unmarshal intn get n (lost h e) = failed transport (countdown n)
reply_for unmarshal intn get n (answered r h e good) = elim r.body [
  | none ↦ failed unreadable (countdown (suc n))
  | some bytes ↦ decode unmarshal intn (countdown (suc n)) bytes
]
reply_for unmarshal intn get n (exhausted e) = failed non_successful (countdown 4)

-- The part of `ips` behind the loop.
finish :
    (Str → Option (Option (List Host)))
    → (ℕ → ℕ)
    → Option (Option (Response × ℕ)) × List ℕ
    → Outcome Reply
finish unmarshal intn requested = elim requested.0 [
  | none ↦ failed transport requested.1
  | some none ↦ panics
  | some (some (r, i)) ↦
      if r.status_code == status_ok
      then elim r.body [
        | none ↦ failed unreadable (i ∷ requested.1)
        | some bytes ↦ decode unmarshal intn (i ∷ requested.1) bytes
      ]
      else failed non_successful requested.1
]

-- The last response before round `n`, if that is not the first, was refused.
abbrev Last : (ℕ → Option Response) → ℕ → Option (Response × ℕ) → Type 0
Last get zero last = Unit
Last get (suc n) last =
    (r : Response) × (last ≡ some (r, n)) × ((r.status_code == status_ok) ≡ false)

module _ (unmarshal : Str → Option (Option (List Host))) (intn : ℕ → ℕ)
    (get : ℕ → Option Response) where
  loop-Ending :
      (rounds n : ℕ) (last : Option (Response × ℕ))
      → rounds + n ≡ 4
      → AllRefused get n
      → Last get n last
      → (m : ℕ) × AllRefused get m
        × (ending : Ending get m) × (finish unmarshal intn
              (request_loop get rounds n last (countdown n))
            ≡ reply_for unmarshal intn get m ending)
  unfolding request_loop finish reply_for
  loop-Ending zero zero last e h l = absurd (omega arith)
  loop-Ending zero (suc n) last e h (r, got, bad) =
      let four : suc n ≡ 4 = omega arith in
      (
        suc n,
        h,
        exhausted four,
        (rw (got, bad) (ap (λ k. failed non_successful (countdown k)) four)),
      )
  loop-Ending (suc rounds) n last e h l = elim (Option-cases (get n)) [
    | inl off ↦ (n, h, lost (omega arith) off, rw (off, request_loop) refl)
    | inr (r, got) ↦ elim (Bool-cases (r.status_code == status_ok)) [
      | inl good ↦
          (n, h, answered r (omega arith) got good, rw (got, good, request_loop) (rw good refl))
      | inr bad ↦
          let (m, refused, ending, same) =
            loop-Ending rounds (suc n) (some (r, n)) (omega arith) ((r, got, bad), h)
              (r, refl, bad) in
          (m, refused, ending, rw (got, bad, request_loop) same)
    ]
  ]

-- `IPs` always finishes in one way: after `m` requests, at most four, that were answered with another
-- status than 200, either the next one fails in transport, or it is answered with 200, or all four
-- are used up. It returns what `reply_for` says of that way: an error with no addresses, or what it
-- decodes from the body; the bodies of all responses that it got are then closed, each once.
pub ips-reply_for :
    (get : Str → ℕ → Option Response) (unmarshal : Str → Option (Option (List Host))) (intn : ℕ → ℕ)
    (server_url name : Str)
    → let g = get (registration_url server_url name) in
      (m : ℕ) × AllRefused g m
      × (ending : Ending g m) × (ips get unmarshal intn server_url name
          ≡ reply_for unmarshal intn g m ending)
unfolding ips finish
ips-reply_for get unmarshal intn server_url name =
    loop-Ending unmarshal intn (get (registration_url server_url name)) 4 0 none refl tt tt
