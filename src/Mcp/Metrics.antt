-- ===== src/Mcp/Metrics.antt =====
-- The metrics of a tool: src/mcp/tool-registry.ts, `calculatePercentile` and `updateToolMetrics`. The
-- tool is an object that others hold too; its new counters are seen in the registry.
use cam_protocol.Base.{
  ℕ, ◌+◌, ◌-◌, String, none, some, List, [], ◌∷◌, ◌++◌, ltb, if◌then◌else◌, length, get_elem?, drop,
}
use cam_protocol.JsMap
use cam_protocol.JsText.{is_truthy}
use cam_protocol.CacheManager.{given_or}
use cam_protocol.RateLimiter.Window.{sort}
use cam_protocol.Router.Health.{Percentile, p50, p95, p99, percentile_index}
use cam_protocol.Mcp.Types.{RegisteredTool}
use cam_protocol.Mcp.Registry.{Registry}

abbrev pub max_latency_samples : ℕ
max_latency_samples = 100

unfoldable pub calculate_percentile : List ℕ → Percentile → ℕ
calculate_percentile [] percentile = 0
calculate_percentile (l ∷ ls) percentile =
    let sorted = sort (l ∷ ls) in
    given_or (get_elem? sorted (percentile_index (length sorted) percentile)) 0

-- How a call went, as both callers report it: with a latency, and an error's text where it failed.
pub data Report : Type 0 where
  succeeded : ℕ → Report
  failed : ℕ → String → Report

abbrev pub latency_of : Report → ℕ
latency_of (succeeded latency) = latency
latency_of (failed latency error) = latency

unfoldable pub push_sample : List ℕ → ℕ → List ℕ
push_sample ls latency =
    let pushed = ls ++ latency ∷ [] in
    if ltb max_latency_samples (length pushed) then drop 1 pushed else pushed

unfoldable pub count_latency : RegisteredTool → ℕ → RegisteredTool
unfolding push_sample calculate_percentile
count_latency t latency =
    let ls = push_sample (given_or t.latencies []) latency in
    record t {
      latencies = some ls;
      latency_p50 = some (calculate_percentile ls p50);
      latency_p95 = some (calculate_percentile ls p95);
      latency_p99 = some (calculate_percentile ls p99);
    }

unfoldable pub count_failure : RegisteredTool → Report → ℕ → RegisteredTool
count_failure t (succeeded latency) now = t
count_failure t (failed latency error) now = record t {
  error_count = some (given_or t.error_count 0 + 1);
  last_error = if is_truthy error then some error else t.last_error;
  last_error_time = if is_truthy error then some now else t.last_error_time;
}

abbrev pub with_rate : RegisteredTool → RegisteredTool
with_rate t = record t {
  success_rate =
      some (record {
        part = t.call_count - given_or t.error_count 0;
        calls_before = t.call_count - 1;
      });
}

unfoldable pub count_call : RegisteredTool → Report → ℕ → RegisteredTool
unfolding count_latency count_failure
count_call t report now =
    let called = record t { call_count = t.call_count + 1; last_used = some now } in
    with_rate (count_failure (count_latency called (latency_of report)) report now)

unfoldable pub update_tool_metrics : Registry → String → Report → ℕ → Registry
unfolding count_call
update_tool_metrics s id report now = elim (JsMap.get id s.tools) [
  | none ↦ s
  | some t ↦ record s { tools = JsMap.set id (count_call t report now) s.tools }
]
