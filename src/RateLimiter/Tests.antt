-- ===== src/RateLimiter/Tests.antt =====
-- Runs of the rate limiter on concrete requests.
use cam_protocol.Base.{
  ℕ, ◌+◌, ◌≤◌, ◌<◌, ◌≡◌, refl, ◌&&◌, String, true, Option, none, some, List, [], ◌∷◌, arith, ltb,
  length, filter,
}
use cam_protocol.JsMap
use cam_protocol.JsText.{is_prefix, includes, to_lower}
use cam_protocol.RateLimiter.Window.{
  SlidingWindowEntry, is_live, get_or_create_window, count_requests_in_window, sort,
  calculate_retry_after,
}
use cam_protocol.RateLimiter.{
  RateLimiter, RateLimitConfig, Tier, init, user_limit, provider_limit, check_limit, cleanup,
  are_stale, get_stats, check_user_limit, check_provider_limit, push_timestamp, record_request,
  window_result, get_provider_type,
}
use cam_protocol.RateLimiter.Recorded.{used}
use cam_protocol.RateLimiter.Retry
use cam_protocol.RateLimiter.Outcome.{Outcome, check_limit-Outcome}
use cam_protocol.RateLimiter.Bound.{
  Reach, start, check, clean, Grant, user_times, provider_times, Reach-within,
}
use cam_protocol.RateLimiter.Stats

program : Unit {0}
unfolding init user_limit provider_limit check_limit cleanup are_stale get_stats check_user_limit
    check_provider_limit push_timestamp record_request window_result get_provider_type
    get_or_create_window count_requests_in_window sort calculate_retry_after JsMap.get JsMap.set
    JsMap.reject is_prefix includes to_lower user_times provider_times
program = tt

abbrev config : RateLimitConfig
config = record {
  enabled = true;
  requests_per_minute = 2;
  requests_per_minute_by_tier = none;
  provider_limits_per_minute = none;
}

abbrev fresh : RateLimiter
fresh = init config true

abbrev after : RateLimiter → String → ℕ → RateLimiter
after s u now = (check_limit s u (some "openai-1") none now).0

abbrev full : RateLimiter
full = after (after fresh "ann" 100000) "ann" 100500

third_is_blocked : (check_limit full "ann" none none 101000).1.retry_after_ms ≡ some 59000
unfolding program
third_is_blocked = refl

user_limit-any : (tier : Option Tier) → user_limit config tier ≤ 2
unfolding user_limit
user_limit-any none = omega arith
user_limit-any (some t) = omega arith

abbrev grants : List Grant
grants =
    record { user = "ann"; provider = some "openai-1"; at = 100000 }
    ∷ record { user = "ann"; provider = some "openai-1"; at = 100500 }
    ∷ []

history : Reach config true (cleanup full 100600) grants 100600
unfolding program
history =
    clean
      (check (check (start 100000) "ann" (some "openai-1") none 100000 (omega arith)) "ann"
        (some "openai-1") none 100500 (omega arith))
      100600 (omega arith)

Reach-within_example :
    (length (filter (is_live 100600) (user_times "ann" grants)) ≤ 2)
    × (length (filter (is_live 100600) (provider_times "openai-1" grants))
        ≤ provider_limit config "openai-1")
unfolding program
Reach-within_example = Reach-within config 2 refl user_limit-any history "ann" "openai-1"

check_limit-Outcome_example : Outcome full "ann" none none 101000
unfolding program
check_limit-Outcome_example = check_limit-Outcome full "ann" none none 101000 refl

abbrev two : SlidingWindowEntry
two = record { timestamps = 100500 ∷ 100000 ∷ []; window_start = 100000 }

retry_has_room_example : count_requests_in_window two 160000 < 2
unfolding program
retry_has_room_example =
    Retry.retry_has_room two 2 101000 (omega arith) (omega arith) 160000 (omega arith)

get_stats-Reach_example :
    ((get_stats (cleanup full 100600)).allowed_requests ≡ 2)
    × ((get_stats (cleanup full 100600)).allowed_requests
          + (get_stats (cleanup full 100600)).blocked_requests
        ≡ (get_stats (cleanup full 100600)).total_requests)
unfolding program
get_stats-Reach_example = Stats.get_stats-Reach refl history

check_limit-allowed_example : (check_limit full "ann" none none 101000).1.allowed ≡ (
    ltb (used full.user_windows "ann" 101000) (user_limit config none)
    && Stats.provider_ok full none 101000)
unfolding program
check_limit-allowed_example = Stats.check_limit-allowed full "ann" none none 101000 refl

check_limit-cleanup_example :
    (check_limit (cleanup full 300000) "ann" none none 300001).1.allowed
    ≡ (check_limit full "ann" none none 300001).1.allowed
unfolding program
check_limit-cleanup_example =
    Stats.check_limit-cleanup full "ann" none none 300000 300001 refl (refl, tt) (refl, tt)
      (omega arith)
