-- ===== src/Router/Health.antt =====
-- The health of the providers: src/routing/fastpath-router.ts, `ProviderHealthMetrics`,
-- `recordProviderMetrics`, `calculatePercentile` and `getHealthStatus`.
use cam_protocol.Base.{
  ℕ, ◌+◌, ◌-◌, ◌*◌, ◌/◌, String, Bool, ◌&&◌, ◌||◌, Option, none, some, List, [], ◌∷◌, ◌++◌, ltb,
  leb, ◌==◌, if◌then◌else◌, length, get_elem?, drop,
}
use cam_protocol.JsMap
use cam_protocol.JsMap.{JsMap}
use cam_protocol.JsText.{is_truthy}
use cam_protocol.RateLimiter.Window.{sort}

pub record ProviderHealthMetrics : Type 0 where
  pub request_count : ℕ
  pub error_count : ℕ
  pub total_latency : ℕ
  pub latencies : List ℕ
  pub last_error : Option String
  pub last_error_time : Option ℕ

abbrev pub max_latency_samples : ℕ
max_latency_samples = 100

unfoldable pub no_metrics : ProviderHealthMetrics
no_metrics = record {
  request_count = 0;
  error_count = 0;
  total_latency = 0;
  latencies = [];
  last_error = none;
  last_error_time = none;
}

abbrev pub metrics_or_new : Option ProviderHealthMetrics → ProviderHealthMetrics
metrics_or_new none = no_metrics
metrics_or_new (some m) = m

-- `push`, and `shift` where there are too many.
unfoldable pub push_latency : List ℕ → ℕ → List ℕ
push_latency ls latency =
    let pushed = ls ++ latency ∷ [] in
    if ltb max_latency_samples (length pushed) then drop 1 pushed else pushed

-- How a request went: it was answered, or it failed with a text.
pub data Went : Type 0 where
  well : Went
  badly : String → Went

abbrev pub count_error : Went → ℕ → ProviderHealthMetrics → ProviderHealthMetrics
count_error well now m = m
count_error (badly error) now m = record m {
  error_count = m.error_count + 1;
  last_error = if is_truthy error then some error else m.last_error;
  last_error_time = if is_truthy error then some now else m.last_error_time;
}

unfoldable pub add_sample : ProviderHealthMetrics → ℕ → Went → ℕ → ProviderHealthMetrics
unfolding push_latency
add_sample m latency went now = count_error went now (record m {
  request_count = m.request_count + 1;
  total_latency = m.total_latency + latency;
  latencies = push_latency m.latencies latency;
})

unfoldable pub record_provider_metrics :
    JsMap ProviderHealthMetrics → String → ℕ → Went → ℕ → JsMap ProviderHealthMetrics
unfolding no_metrics add_sample
record_provider_metrics m provider_id latency went now =
    JsMap.set provider_id (add_sample (metrics_or_new (JsMap.get provider_id m)) latency went now) m

-- The percentages that are asked for, here and for the tools.
pub data Percentile : Type 0 where
  p50 p95 p99 : Percentile

abbrev pub percent_of : Percentile → ℕ
percent_of p50 = 50
percent_of p95 = 95
percent_of p99 = 99

-- `Math.max(0, Math.ceil(percentile / 100 * n) - 1)`. The source computes the share in floating point,
-- which rounds up to the same number for these three percentages and at most 100 samples.
abbrev pub percentile_index : ℕ → Percentile → ℕ
percentile_index n percentile = (percent_of percentile * n + 99) / 100 - 1

abbrev pub number_or_0 : Option ℕ → ℕ
number_or_0 none = 0
number_or_0 (some n) = n

unfoldable pub calculate_percentile : List ℕ → Percentile → ℕ
calculate_percentile latencies percentile =
    number_or_0 (get_elem? (sort latencies) (percentile_index (length latencies) percentile))

pub data HealthStatus : Type 0 where
  healthy degraded unhealthy : HealthStatus

-- `Math.round(a / b)`, and 0 where `b` is.
abbrev pub rounded : ℕ → ℕ → ℕ
rounded a b = if ltb 0 b then (2 * a + b) / (2 * b) else 0

-- `errorRate >= 0.1`.
abbrev pub is_degraded : ProviderHealthMetrics → Bool
is_degraded m = ltb 0 m.request_count && leb m.request_count (m.error_count * 10)

pub record ProviderDetails : Type 0 where
  pub is_degraded : Bool
  pub request_count : ℕ
  pub error_count : ℕ
  -- In thousandths.
  pub error_rate : ℕ
  pub average_latency : ℕ
  pub latency_p50 : ℕ
  pub latency_p95 : ℕ
  pub latency_p99 : ℕ
  pub last_error : Option String

unfoldable pub details_of : ProviderHealthMetrics → ProviderDetails
unfolding calculate_percentile
details_of m = record {
  is_degraded = is_degraded m;
  request_count = m.request_count;
  error_count = m.error_count;
  error_rate = rounded (m.error_count * 1000) m.request_count;
  average_latency = rounded m.total_latency m.request_count;
  latency_p50 = calculate_percentile m.latencies p50;
  latency_p95 = calculate_percentile m.latencies p95;
  latency_p99 = calculate_percentile m.latencies p99;
  last_error = m.last_error;
}

-- The sums of the loop over the providers.
pub record Totals : Type 0 where
  pub requests : ℕ
  pub errors : ℕ
  pub latency : ℕ
  pub available : ℕ
  pub degraded : ℕ

unfoldable pub add_totals : Totals → JsMap ProviderHealthMetrics → Totals
add_totals t [] = t
add_totals t ((id, m) ∷ ms) =
    add_totals
      (record {
        requests = t.requests + m.request_count;
        errors = t.errors + m.error_count;
        latency = t.latency + m.total_latency;
        available = if is_degraded m then t.available else t.available + 1;
        degraded = if is_degraded m then t.degraded + 1 else t.degraded;
      })
      ms

unfoldable pub totals_of : JsMap ProviderHealthMetrics → Totals
unfolding add_totals
totals_of =
    add_totals (record { requests = 0; errors = 0; latency = 0; available = 0; degraded = 0 })

-- `errors / requests > 0.05`.
unfoldable pub overall_status : Totals → HealthStatus
overall_status t =
    if ltb 0 t.degraded && t.available == 0
    then unhealthy
    else if ltb 0 t.degraded || (ltb 0 t.requests && ltb t.requests (t.errors * 20))
    then degraded
    else healthy
