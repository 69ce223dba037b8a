-- ===== src/Routes/MetricsRecorder.antt =====
-- service-discovery-controller/routes/metrics_recorder.go: the requests since the last reading.
use cf_app_sd_release.Base.{Bool, List, [], arith, false, true, ℕ, ◌+◌, ◌∷◌, ◌≡◌}

pub record MetricsRecorder : Type 0 where
  pub request_count : ℕ

unfoldable pub record_request : MetricsRecorder → MetricsRecorder
record_request m = record { request_count = m.request_count + 1 }

unfoldable pub getter : MetricsRecorder → MetricsRecorder × ℕ
getter m = (record { request_count = 0 }, m.request_count)

-- Requests and readings in any order: `true` is a request. The values read, and the recorder.
unfoldable pub serve : MetricsRecorder → List Bool → List ℕ × MetricsRecorder
serve m [] = ([], m)
serve m (true ∷ events) = serve (record_request m) events
serve m (false ∷ events) = let rest = serve (getter m).0 events in ((getter m).1 ∷ rest.0, rest.1)

pub sum : List ℕ → ℕ
sum [] = 0
sum (n ∷ ns) = n + sum ns

pub requests : List Bool → ℕ
requests [] = 0
requests (true ∷ events) = 1 + requests events
requests (false ∷ events) = requests events

-- No request is lost or counted twice: over any order of requests and readings, the values read and
-- the count still kept add up to the count at the start and the requests.
serve-sum :
    (m : MetricsRecorder) (events : List Bool)
    → sum (serve m events).0 + (serve m events).1.request_count ≡ m.request_count + requests events
unfolding serve record_request getter sum requests
serve-sum m [] = omega arith
serve-sum m (true ∷ events) = omega (arith, serve-sum (record_request m) events)
serve-sum m (false ∷ events) = omega (arith, serve-sum (getter m).0 events)
