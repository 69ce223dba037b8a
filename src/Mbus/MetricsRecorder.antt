-- ===== src/Mbus/MetricsRecorder.antt =====
-- service-discovery-controller/mbus/metrics_recorder.go: the greatest transit time of a message since
-- it was last asked for. The source returns it as a floating point number of milliseconds; here it
-- stays a duration.
use cf_app_sd_release.Base.{
  All, Bool, Clock, List, [], arith, false, if◌then◌else◌, ltb_ℤ, negsuc, pos, refl, sub_time, suc,
  ℕ, ℤ, ◌*◌, ◌+◌, ◌-◌, ◌==◌, ◌^◌, ◌∷◌, ◌≡◌, ◌≤ℤ◌,
}

pub record MetricsRecorder : Type 0 where
  pub current_max : ℤ
  pub reads : ℕ

unfoldable pub new_metrics_recorder : MetricsRecorder
new_metrics_recorder = record { current_max = pos 0; reads = 0 }

-- Nanoseconds from Go's zero time to the Unix epoch.
abbrev pub unix_epoch : ℕ
unix_epoch = 62135596800 * 10 ^ 9

-- `time.Unix(0, ns)`
unfoldable pub time_unix : ℤ → ℕ
time_unix (pos n) = unix_epoch + n
time_unix (negsuc n) = unix_epoch - suc n

unfoldable pub is_zero_time : ℤ → Bool
is_zero_time (pos n) = n == 0
is_zero_time (negsuc n) = false

unfoldable pub get_max_since_last_interval : MetricsRecorder → MetricsRecorder × ℤ
get_max_since_last_interval r = (record r { current_max = pos 0 }, r.current_max)

unfoldable pub record_message_transit_time : Clock → MetricsRecorder → ℤ → MetricsRecorder
record_message_transit_time clock r unix_time_ns =
    let diff = sub_time (clock r.reads) (time_unix unix_time_ns) in
    if is_zero_time unix_time_ns
    then r
    else if ltb_ℤ r.current_max diff
    then record { current_max = diff; reads = suc r.reads }
    else record r { reads = suc r.reads }

unfoldable pub record_all : Clock → MetricsRecorder → List ℤ → MetricsRecorder
record_all clock r [] = r
record_all clock r (m ∷ ms) = record_all clock (record_message_transit_time clock r m) ms

-- The transit times of the messages that carry a time, with the readings that they are measured by.
unfoldable pub transit_times : Clock → ℕ → List ℤ → List ℤ
transit_times clock n [] = []
transit_times clock n (m ∷ ms) =
    let rest = transit_times clock n ms in
    let counted = sub_time (clock n) (time_unix m) ∷ transit_times clock (suc n) ms in
    if is_zero_time m then rest else counted

-- The greatest of a list and a start value.
unfoldable pub greatest : ℤ → List ℤ → ℤ
greatest a [] = a
greatest a (b ∷ l) = greatest (if ltb_ℤ a b then b else a) l

greatest-bound : (a : ℤ) (l : List ℤ) → (a ≤ℤ greatest a l) × All (λ b. b ≤ℤ greatest a l) l
unfolding greatest
greatest-bound a [] = (omega arith, tt)
greatest-bound a (b ∷ l) = ground (arith, greatest-bound (if ltb_ℤ a b then b else a) l)

record_all-greatest :
    (clock : Clock) (r : MetricsRecorder) (ms : List ℤ)
    → (record_all clock r ms).current_max ≡ greatest r.current_max (transit_times clock r.reads ms)
unfolding record_all transit_times greatest record_message_transit_time
record_all-greatest clock r [] = refl
record_all-greatest clock r (m ∷ ms) =
    ground (arith, record_all-greatest clock (record_message_transit_time clock r m) ms)

-- After any messages since a reset, the value that is returned is the greatest of zero and of the
-- transit times of the messages that carry a time: no transit time exceeds it. And the
-- next interval starts from zero.
pub get_max_since_last_interval-greatest :
    (clock : Clock) (r : MetricsRecorder) (ms : List ℤ)
    → let s = (get_max_since_last_interval r).0 in
      let t = record_all clock s ms in
      ((get_max_since_last_interval t).1 ≡ greatest (pos 0) (transit_times clock s.reads ms))
      × All (λ d. d ≤ℤ (get_max_since_last_interval t).1) (transit_times clock s.reads ms)
      × ((get_max_since_last_interval t).0.current_max ≡ pos 0)
unfolding get_max_since_last_interval
get_max_since_last_interval-greatest clock r ms =
    let s : MetricsRecorder = record r { current_max = pos 0 } in
    let e = record_all-greatest clock s ms in
    (e, rw e ((greatest-bound (pos 0) (transit_times clock r.reads ms)).1), refl)
