-- ===== src/RateLimiter/Retry.antt =====
-- The answer of `calculateRetryAfter`: the wait after which a full window has room again.
use cam_protocol.Base.{ℕ, suc, ◌+◌, ◌-◌, ◌≤◌, ◌<◌, ◌≡◌, some, arith, length, filter, get_elem?}
use cam_protocol.RateLimiter.Sorting.{
  sort-IsSorted, length-filter-sort, length-sort, filter_behind, filter_from, get_elem?-some,
}
use cam_protocol.RateLimiter.Window.{
  SlidingWindowEntry, window_size_ms, is_live, count_requests_in_window, sort, wait_for,
  calculate_retry_after,
}

module _ (w : SlidingWindowEntry) (limit now : ℕ) (pos : 0 < limit)
    (full : limit ≤ length w.timestamps) where
  -- The entry that has to expire.
  retry_entry :
      (x : ℕ) × (get_elem? (sort w.timestamps) (length w.timestamps - limit) ≡ some x)
      × (calculate_retry_after w limit now ≡ x + window_size_ms - now)
  unfolding calculate_retry_after wait_for
  retry_entry =
      let (x, e) =
        get_elem?-some (length w.timestamps - limit) (sort w.timestamps)
          (omega (arith, length-sort w.timestamps)) in
      (x, e, ground arith)

  -- After the wait that a full window reports, there is room again: fewer requests count than the
  -- limit, if nothing is recorded in between. The limit is not 0.
  pub retry_has_room :
      (later : ℕ)
      → now + calculate_retry_after w limit now ≤ later
      → count_requests_in_window w later < limit
  unfolding count_requests_in_window
  retry_has_room later h =
      let (x, e, r) = retry_entry in
      let few : length (filter (is_live later) (sort w.timestamps))
            + suc (length w.timestamps - limit)
          ≤ length (sort w.timestamps) =
        filter_behind (is_live later) x (λ t le. ground arith) (length w.timestamps - limit)
          (sort w.timestamps) (sort-IsSorted w.timestamps) e in
      omega (arith, length-sort w.timestamps, length-filter-sort (is_live later) w.timestamps)

  -- Before it there is none, so the wait is exact.
  pub retry_is_least :
      (sooner : ℕ)
      → now ≤ sooner
      → sooner < now + calculate_retry_after w limit now
      → limit ≤ count_requests_in_window w sooner
  unfolding count_requests_in_window
  retry_is_least sooner from h =
      let (x, e, r) = retry_entry in
      let many : length (sort w.timestamps)
          ≤ length (filter (is_live sooner) (sort w.timestamps)) + (length w.timestamps - limit) =
        filter_from (is_live sooner) x (λ t le. ground arith) (length w.timestamps - limit)
          (sort w.timestamps) (sort-IsSorted w.timestamps) e in
      omega (arith, length-sort w.timestamps, length-filter-sort (is_live sooner) w.timestamps)
