-- ===== src/Adapter/Answers.antt =====
-- What `IPs` makes of the first answer with status 200.
use native.Mathlib.Decide.{dec_lt, ℕ_discrete}
use cf_app_sd_release.Adapter.Client.{
  Host, Response, decode, failed, ips, non_successful, registration_url, status_ok,
}
use cf_app_sd_release.Adapter.Retries.{
  AllRefused, Ending, Refused, answered, countdown, exhausted, ips-reply_for, lost, reply_for,
}
use cf_app_sd_release.Adapter.Shuffle.{count, shuffle-count}
use cf_app_sd_release.Base.{
  List, Option, Str, [], ap, arith, map, none, panics, refl, returns, some, suc, sym, true, zero, ℕ,
  ◌<◌, ◌==◌, ◌∙◌, ◌≡◌,
}

AllRefused-at : (g : ℕ → Option Response) (n i : ℕ) → AllRefused g n → i < n → Refused g i
AllRefused-at g zero i h lt = absurd (omega arith)
AllRefused-at g (suc n) i h lt = elim (ℕ_discrete i n) [
  | yes e ↦ rw e (h.0)
  | no ne ↦ AllRefused-at g n i h.1 (omega arith)
]

-- The request that `IPs` ends with is the only one that was not refused.
Ending-index :
    (g : ℕ → Option Response) (m n : ℕ) (r : Response)
    → m < 4
    → AllRefused g m
    → g m ≡ some r
    → (r.status_code == status_ok) ≡ true
    → AllRefused g n
    → Ending g n
    → m ≡ n
Ending-index g m n r lt hm got good hn end = elim (dec_lt m n) [
  | yes before ↦ let (s, got', bad) = AllRefused-at g n m hn before in absurd (ground arith)
  | no ge ↦ elim (dec_lt n m) [
    | yes after ↦ let (s, got', bad) = AllRefused-at g m n hm after in absurd (ground arith)
    | no le ↦ omega arith
  ]
]

module _ (get : Str → ℕ → Option Response) (unmarshal : Str → Option (Option (List Host)))
    (intn : ℕ → ℕ) (server_url name : Str) where
  abbrev requests : ℕ → Option Response
  requests = get (registration_url server_url name)

  reply_for-answered :
      (n : ℕ) (r : Response) (body : Str) (ending : Ending requests n)
      → n < 4
      → requests n ≡ some r
      → r.body ≡ some body
      → reply_for unmarshal intn requests n ending ≡ decode unmarshal intn (countdown (suc n)) body
  unfolding reply_for
  reply_for-answered n r body (lost h e) lt got b = absurd (ground arith)
  reply_for-answered n r body (answered s h e good) lt got b = ground arith
  reply_for-answered n r body (exhausted e) lt got b = absurd (omega arith)

  ips-decode :
      (m : ℕ) (r : Response) (body : Str)
      → m < 4
      → AllRefused requests m
      → requests m ≡ some r
      → (r.status_code == status_ok) ≡ true
      → r.body ≡ some body
      → ips get unmarshal intn server_url name ≡ decode unmarshal intn (countdown (suc m)) body
  ips-decode m r body lt hm got good b =
      let (n, hn, ending, same) = ips-reply_for get unmarshal intn server_url name in
      let e : m ≡ n = Ending-index requests m n r lt hm got good hn ending in
      same
      ∙ reply_for-answered n r body ending (omega arith) (ap requests (sym e) ∙ got) b
      ∙ ap (λ k. decode unmarshal intn (countdown (suc k)) body) (sym e)

  -- If fewer than four requests are answered with another status and the next one with 200 and a list
  -- of hosts, then `IPs` returns without an error the addresses of exactly these hosts, each as often
  -- as it stands in the list, and has closed the bodies of all the responses. (The random source must
  -- keep to its documented range.)
  pub ips_success :
      (m : ℕ) (r : Response) (body : Str) (hosts : List Host)
      → m < 4
      → AllRefused requests m
      → requests m ≡ some r
      → (r.status_code == status_ok) ≡ true
      → r.body ≡ some body
      → unmarshal body ≡ some (some hosts)
      → ((k : ℕ) → 0 < k → intn k < k)
      → (l : List Str) × (ips get unmarshal intn server_url name
          ≡ returns (record { ips = l; error = none; closed = countdown (suc m) }))
        × ((a : Str) → count a l ≡ count a (map (λ h. h.ip_address) hosts))
  unfolding decode
  ips_success m r body hosts lt hm got good b parsed range =
      let (l, shuffled, _, same) = shuffle-count intn (map (λ h. h.ip_address) hosts) range in
      (l, ips-decode m r body lt hm got good b ∙ (ground arith), same)

  Ending-refused :
      (n : ℕ) (ending : Ending requests n)
      → AllRefused requests 4
      → reply_for unmarshal intn requests n ending ≡ failed non_successful (countdown 4)
  unfolding reply_for
  Ending-refused n (lost lt e) all =
      let (s, got, bad) = AllRefused-at requests 4 n all lt in absurd (ground arith)
  Ending-refused n (answered r lt e good) all =
      let (s, got, bad) = AllRefused-at requests 4 n all lt in absurd (ground arith)
  Ending-refused n (exhausted e) all = refl

  -- If all four requests are refused, `IPs` returns that error, with all the responses closed.
  pub ips-refused :
      AllRefused requests 4
      → ips get unmarshal intn server_url name
        ≡ returns (record { ips = []; error = some non_successful; closed = countdown 4 })
  unfolding failed
  ips-refused all =
      let (n, hn, ending, same) = ips-reply_for get unmarshal intn server_url name in
      same ∙ Ending-refused n ending all

  -- If the first answer with status 200, among at most four requests of which none fails in transport
  -- before it, has a body that decodes to the JSON value null, then `IPs` panics.
  pub ips_null :
      (m : ℕ) (r : Response) (body : Str)
      → m < 4
      → AllRefused requests m
      → requests m ≡ some r
      → (r.status_code == status_ok) ≡ true
      → r.body ≡ some body
      → unmarshal body ≡ some none
      → ips get unmarshal intn server_url name ≡ panics
  unfolding decode
  ips_null m r body lt hm got good b parsed = ips-decode m r body lt hm got good b ∙ (ground arith)
