-- ===== src/Router/Percentile.antt =====
-- The percentiles of the latencies.
use cam_protocol.Base.{ℕ, suc, ◌+◌, ◌*◌, ◌≤◌, ◌<◌, List, arith, ltb, leb, length, filter}
use native.Mathlib.Nat.{mul-le-mul_right}
use cam_protocol.RateLimiter.Window.{sort}
use cam_protocol.RateLimiter.Sorting.{
  sort-IsSorted, length-filter-sort, length-sort, filter_behind, filter_from, get_elem?-some,
}
use cam_protocol.Router.Health.{
  Percentile, p50, p95, p99, percent_of, percentile_index, calculate_percentile,
}

percent_of-bounds : (p : Percentile) → (1 ≤ percent_of p) × (percent_of p ≤ 100)
percent_of-bounds p50 = (omega arith, omega arith)
percent_of-bounds p95 = (omega arith, omega arith)
percent_of-bounds p99 = (omega arith, omega arith)

module _ (latencies : List ℕ) (percentile : Percentile) (sampled : 1 ≤ length latencies)
    (kept : length latencies ≤ 100) where
  abbrev p : ℕ
  p = percent_of percentile

  percentile_index_lem :
      let n = length latencies in
      let k = percentile_index n percentile in (k < n) × (p * n ≤ 100 * suc k) × (100 * k < p * n)
  percentile_index_lem =
      let (low, high) = percent_of-bounds percentile in
      let some_share : 1 * length latencies ≤ p * length latencies =
        mul-le-mul_right (length latencies) low in
      let share : p * length latencies ≤ 100 * length latencies =
        mul-le-mul_right (length latencies) high in
      (omega arith, omega arith, omega arith)

  -- The percentile is the nearest rank: at most the share that is left of the samples is above it, and
  -- fewer than the share are below it. The percentage is one of the three that are asked for, 50, 95
  -- and 99, and there are from 1 to 100 samples.
  pub calculate_percentile_lem :
      let x = calculate_percentile latencies percentile in
      let n = length latencies in
      (100 * length (filter (ltb x) latencies) + percent_of percentile * n ≤ 100 * n)
      × (100 * n < 100 * length (filter (leb x) latencies) + percent_of percentile * n)
  unfolding calculate_percentile
  calculate_percentile_lem =
      let n = length latencies in
      let k = percentile_index n percentile in
      let (inside, above, below) = percentile_index_lem in
      let (x, e) = get_elem?-some k (sort latencies) (omega (arith, length-sort latencies)) in
      let behind =
        filter_behind (ltb x) x (λ t le. ground arith) k (sort latencies) (sort-IsSorted latencies)
          e in
      let from =
        filter_from (leb x) x (λ t le. ground arith) k (sort latencies) (sort-IsSorted latencies)
          e in
      rw e (
        omega (arith, length-sort latencies, length-filter-sort (ltb x) latencies),
        omega (arith, length-sort latencies, length-filter-sort (leb x) latencies),
      )
