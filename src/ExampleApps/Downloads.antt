-- ===== src/ExampleApps/Downloads.antt =====
-- What the proxy application answers to downloads.
use cf_app_sd_release.Base.{Str, arith, bytes, length, returns, refl, ℕ, ◌++◌, ◌<◌, ◌^◌, ◌≡◌, ◌≤◌}
use cf_app_sd_release.ExampleApps.Numbers.{atoi-decimal, trim_prefix-append}
use cf_app_sd_release.ExampleApps.Proxy.{answer, download, random_answer}
use cf_app_sd_release.ExampleApps.Stats.{AppResponse}
use cf_app_sd_release.Populator.Job.{decimal}

-- A download for a number in decimal digits, which an int holds and for which there is memory, is
-- answered with status 200 and exactly as many bytes.
pub download-decimal :
    (random : ℕ → Str) (max_alloc n : ℕ)
    → ((k : ℕ) → length (random k) ≡ k)
    → n < 2 ^ 63
    → n ≤ max_alloc
    → (a : AppResponse) × (download random max_alloc (bytes "/download/" ++ decimal n) ≡ returns a)
      × (a.status ≡ 200)
      × (length a.body ≡ n)
unfolding download random_answer
download-decimal random max_alloc n exact h m = (
  answer 200 (random n),
  rw (trim_prefix-append (bytes "/download/") (decimal n), download)
      (rw (atoi-decimal n h) (ground arith)),
  refl,
  exact n,
)
