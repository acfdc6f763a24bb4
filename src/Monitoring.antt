-- ===== src/Monitoring.antt =====
-- services/api/src/monitoring.py: the window of recent requests, the snapshot of it and the alerts. Times
-- are microseconds; the shares that the code computes in floating point are compared as fractions.
use ai_calling_agent.Prelude.{
  ℕ, ◌+◌, ◌-◌, ◌*◌, ◌/◌, ◌≡◌, ◌≤◌, String, Bool, ◌&&◌, ◌==◌, Option, none, some, List, [], ◌∷◌,
  ◌++◌, ltb, leb, length, take, min, if◌then◌else◌, arith, select, length-append, length-take-le,
  zero, suc,
}

pub record Sample : Type 0 where
  pub at : ℕ
  pub status_code : ℕ
  pub elapsed : ℕ

-- The deque, oldest first, with its bounds.
pub record MetricsRegistry : Type 0 where
  pub window : ℕ
  pub max_samples : ℕ
  pub samples : List Sample

-- deque.append with a maxlen: the oldest is dropped when it is full.
unfoldable pub push : ℕ → Sample → List Sample → List Sample
push bound s [] = take bound (s ∷ [])
push bound s (x ∷ xs) = if ltb (length (x ∷ xs)) bound then x ∷ xs ++ s ∷ [] else xs ++ s ∷ []

unfoldable pub record_sample : ℕ → ℕ → ℕ → MetricsRegistry → MetricsRegistry
unfolding push
record_sample now status elapsed r = record r {
  samples =
      push r.max_samples (record { at = now; status_code = status; elapsed = elapsed }) r.samples;
}

-- Drops from the left what is older than the window; `at < now - window` without the difference.
unfoldable pub drop_old : ℕ → ℕ → List Sample → List Sample
drop_old now window [] = []
drop_old now window (s ∷ samples) =
    let rest = drop_old now window samples in if ltb (s.at + window) now then rest else s ∷ samples

unfoldable pub recent : ℕ → MetricsRegistry → MetricsRegistry
unfolding drop_old
recent now r = record r { samples = drop_old now r.window r.samples }

pub record MetricsSnapshot : Type 0 where
  pub window : ℕ
  pub request_count : ℕ
  pub error_count : ℕ
  pub p50_latency : Option ℕ
  pub p95_latency : Option ℕ

unfoldable pub at_index : ℕ → List ℕ → Option ℕ
at_index n [] = none
at_index zero (x ∷ xs) = some x
at_index (suc n) (x ∷ xs) = at_index n xs

-- `_percentile`, where `p` is in hundredths.
unfoldable pub percentile : List ℕ → ℕ → Option ℕ
unfolding at_index
percentile values p = at_index (min (length values - 1) (length values * p / 100)) values

unfoldable pub insert_sorted : ℕ → List ℕ → List ℕ
insert_sorted x [] = x ∷ []
insert_sorted x (y ∷ ys) = if leb x y then x ∷ y ∷ ys else y ∷ insert_sorted x ys

-- sorted(s.elapsed_ms for s in samples)
unfoldable pub latencies : List Sample → List ℕ
unfolding insert_sorted
latencies [] = []
latencies (s ∷ samples) = insert_sorted s.elapsed (latencies samples)

unfoldable pub is_error : Sample → Bool
is_error s = leb 500 s.status_code

unfoldable pub snapshot : ℕ → MetricsRegistry → MetricsSnapshot × MetricsRegistry
unfolding recent latencies percentile is_error select
snapshot now r =
    let samples = (recent now r).samples in
    (
      record {
        window = r.window;
        request_count = length samples;
        error_count = length (select is_error samples);
        p50_latency = percentile (latencies samples) 50;
        p95_latency = percentile (latencies samples) 95;
      },
      recent now r,
    )

-- The alerts, with the values that their texts show. Disk usage is in tenths of a percent.
pub data Alert : Type 0 where
  database_unreachable redis_unreachable : Alert
  error_rate : ℕ → ℕ → Alert
  latency_p95 disk_usage : ℕ → Alert

pub data Severity : Type 0 where
  page notify : Severity

unfoldable pub severity : Alert → Severity
severity (disk_usage pct) = notify
severity _ = page

-- _MIN_REQUESTS_FOR_ERROR_RATE_ALERT
abbrev pub min_requests : ℕ
min_requests = 20

-- _LATENCY_P95_THRESHOLD_MS, in microseconds
abbrev pub latency_threshold : ℕ
latency_threshold = 1_500_000

-- error_rate > 0.05, with enough requests
unfoldable pub error_alerts : MetricsSnapshot → List Alert
error_alerts m =
    if leb min_requests m.request_count && ltb (5 * m.request_count) (100 * m.error_count)
    then error_rate m.error_count m.request_count ∷ []
    else []

unfoldable pub latency_alerts : Option ℕ → List Alert
latency_alerts none = []
latency_alerts (some p95) = if ltb latency_threshold p95 then latency_p95 p95 ∷ [] else []

unfoldable pub check_alerts : MetricsSnapshot → String → String → ℕ → List Alert
unfolding error_alerts latency_alerts
check_alerts m db_status redis_status disk =
    (if db_status == "unreachable" then database_unreachable ∷ [] else [])
    ++ (if redis_status == "unreachable" then redis_unreachable ∷ [] else [])
    ++ error_alerts m
    ++ latency_alerts m.p95_latency
    ++ (if ltb 850 disk then disk_usage disk ∷ [] else [])

-- The notifier after each alert in turn.
unfoldable pub notify_all {ℓ} : {N : Type ℓ} → (Alert → N → N) → List Alert → N → N
notify_all tell [] n = n
notify_all tell (a ∷ alerts) n = notify_all tell alerts (tell a n)

unfoldable pub check_and_notify {ℓ} :
    {N : Type ℓ} → (Alert → N → N) → MetricsSnapshot → String → String → ℕ → N → List Alert × N
unfolding check_alerts notify_all
check_and_notify tell m db_status redis_status disk n =
    let alerts = check_alerts m db_status redis_status disk in (alerts, notify_all tell alerts n)

-- The window never holds more than its bound.
pub push-le :
    (bound : ℕ) (s : Sample) (xs : List Sample)
    → length xs ≤ bound
    → length (push bound s xs) ≤ bound
unfolding push
push-le bound s [] h = length-take-le bound (s ∷ [])
push-le bound s (x ∷ xs) h = ground (arith, length-append xs (s ∷ []))

-- Recording a request keeps the window within its bound.
pub record_sample-le :
    (now status elapsed : ℕ) (r : MetricsRegistry)
    → length r.samples ≤ r.max_samples
    → length (record_sample now status elapsed r).samples ≤ r.max_samples
unfolding record_sample
record_sample-le now status elapsed r h = push-le r.max_samples _ r.samples h

-- Without an alert of the error rate, at most a twentieth of 20 requests or more are errors.
pub error_alerts-none :
    (m : MetricsSnapshot)
    → error_alerts m ≡ []
    → 20 ≤ m.request_count
    → 20 * m.error_count ≤ m.request_count
unfolding error_alerts
error_alerts-none m h enough = ground arith
