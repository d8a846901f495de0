-- ===== src/RateLimiter/Window.antt =====
-- The sliding window of one user or provider: src/routing/rate-limiter.ts, `SlidingWindowEntry`,
-- `getOrCreateWindow`, `countRequestsInWindow` and `calculateRetryAfter`. Times are milliseconds
-- since the epoch. `ts > now - WINDOW_SIZE_MS` is written `now < ts + window_size_ms`, which is the
-- same over the integers, where `now` may be below the window size.
use cam_protocol.Base.{
  ℕ, ◌+◌, ◌-◌, min, String, Bool, Option, none, some, List, [], ◌∷◌, ltb, leb, if◌then◌else◌,
  length, filter, get_elem?,
}
use cam_protocol.JsMap
use cam_protocol.JsMap.{JsMap}

pub record SlidingWindowEntry : Type 0 where
  pub timestamps : List ℕ
  pub window_start : ℕ

abbrev pub window_size_ms : ℕ
window_size_ms = 60000

-- `ts > cutoff`, where `cutoff = now - WINDOW_SIZE_MS`.
abbrev pub is_live : ℕ → ℕ → Bool
is_live now ts = ltb now (ts + window_size_ms)

-- `Math.min(...timestamps)` on a list that is not empty; `now` on the empty one.
unfoldable pub start_of : ℕ → List ℕ → ℕ
start_of now [] = now
start_of now (t ∷ []) = t
start_of now (t ∷ u ∷ ts) = min t (start_of now (u ∷ ts))

-- Drop the old timestamps, and set the start anew.
unfoldable pub slide : ℕ → SlidingWindowEntry → SlidingWindowEntry
unfolding start_of
slide now w =
    let ts = filter (is_live now) w.timestamps in
    record { timestamps = ts; window_start = start_of now ts }

-- The entry of the key, or a new one.
unfoldable pub entry_or_new : ℕ → Option SlidingWindowEntry → SlidingWindowEntry
entry_or_new now none = record { timestamps = []; window_start = now }
entry_or_new now (some w) = w

-- The map with the key's entry slid, and that entry.
unfoldable pub get_or_create_window :
    JsMap SlidingWindowEntry → String → ℕ → JsMap SlidingWindowEntry × SlidingWindowEntry
unfolding slide entry_or_new
get_or_create_window windows key now =
    let w = slide now (entry_or_new now (JsMap.get key windows)) in (JsMap.set key w windows, w)

unfoldable pub count_requests_in_window : SlidingWindowEntry → ℕ → ℕ
count_requests_in_window w now = length (filter (is_live now) w.timestamps)

-- `[...timestamps].sort((a, b) => a - b)`.
unfoldable pub insert_sorted : ℕ → List ℕ → List ℕ
insert_sorted x [] = x ∷ []
insert_sorted x (y ∷ ys) = if leb x y then x ∷ y ∷ ys else y ∷ insert_sorted x ys

unfoldable pub sort : List ℕ → List ℕ
unfolding insert_sorted
sort [] = []
sort (x ∷ xs) = insert_sorted x (sort xs)

-- When the entry at the index expires; the whole window where there is no such entry.
unfoldable pub wait_for : Option ℕ → ℕ → ℕ
wait_for none now = window_size_ms
wait_for (some oldest) now = oldest + window_size_ms - now

-- `requestsOverLimit` is `length - limit + 1`, and its entry has the index `length - limit`.
unfoldable pub calculate_retry_after : SlidingWindowEntry → ℕ → ℕ → ℕ
unfolding sort wait_for
calculate_retry_after w limit now =
    if leb (length w.timestamps) 0
    then 0
    else (if ltb (length w.timestamps) limit
        then 0
        else wait_for (get_elem? (sort w.timestamps) (length w.timestamps - limit)) now)
