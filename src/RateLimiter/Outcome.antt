-- ===== src/RateLimiter/Outcome.antt =====
-- What `checkLimit` does, on each of its paths.
use cam_protocol.Base.{
  ℕ, ◌+◌, ◌≤◌, ◌<◌, ◌≡◌, String, true, false, Option, none, some, arith, ltb, Bool-cases,
  Option-cases, inl, inr,
}
use cam_protocol.JsMap.{JsMap}
use cam_protocol.JsText.{truthy}
use cam_protocol.RateLimiter.Window.{SlidingWindowEntry, get_or_create_window}
use cam_protocol.RateLimiter.{
  RateLimiter, RateLimitResult, Tier, user_limit, provider_limit, window_result, check_user_limit,
  check_provider_limit, push_timestamp, record_provider, record_request, blocked,
  check_provider_and_record, check_limit,
}
use cam_protocol.RateLimiter.Recorded.{used, count-get_or_create_window}

-- The windows of a map after the key's window was slid.
abbrev pub slid_windows : JsMap SlidingWindowEntry → String → ℕ → JsMap SlidingWindowEntry
slid_windows m k now = (get_or_create_window m k now).0

-- Whether there was room under the limit: this is all that decides.
pub window_result-allowed :
    (m : JsMap SlidingWindowEntry) (k : String) (limit now : ℕ)
    → (window_result (get_or_create_window m k now).1 limit now).allowed ≡ ltb (used m k now) limit
unfolding window_result
window_result-allowed m k limit now = ground (arith, count-get_or_create_window m k now)

module _ (s : RateLimiter) (user : String) (provider : Option String) (tier : Option Tier)
    (now : ℕ) where
  abbrev after : RateLimiter
  after = (check_limit s user provider tier now).0

  abbrev result : RateLimitResult
  result = (check_limit s user provider tier now).1

  pub data Outcome : Type 0 where
    blocked_user :
        user_limit s.config tier ≤ used s.user_windows user now
        → result.allowed ≡ false
        → after ≡ record s {
          user_windows = slid_windows s.user_windows user now;
          total_requests = s.total_requests + 1;
          blocked_requests = s.blocked_requests + 1;
        }
        → Outcome
    granted_user :
        used s.user_windows user now < user_limit s.config tier
        → truthy provider ≡ none
        → result.allowed ≡ true
        → after ≡ record s {
          user_windows = push_timestamp (slid_windows s.user_windows user now) user now;
          total_requests = s.total_requests + 1;
        }
        → Outcome
    blocked_provider :
        (p : String)
        → used s.user_windows user now < user_limit s.config tier
        → truthy provider ≡ some p
        → provider_limit s.config p ≤ used s.provider_windows p now
        → result.allowed ≡ false
        → after ≡ record s {
          user_windows = slid_windows s.user_windows user now;
          provider_windows = slid_windows s.provider_windows p now;
          total_requests = s.total_requests + 1;
          blocked_requests = s.blocked_requests + 1;
        }
        → Outcome
    granted_both :
        (p : String)
        → used s.user_windows user now < user_limit s.config tier
        → truthy provider ≡ some p
        → used s.provider_windows p now < provider_limit s.config p
        → result.allowed ≡ true
        → after ≡ record s {
          user_windows = push_timestamp (slid_windows s.user_windows user now) user now;
          provider_windows = push_timestamp (slid_windows s.provider_windows p now) p now;
          total_requests = s.total_requests + 1;
        }
        → Outcome

  -- An enabled limiter blocks a request exactly when the user's limit or the provider's limit is used
  -- up, counts it then as blocked and records nothing, and otherwise records it under the user and the
  -- named provider.
  pub check_limit-Outcome : s.config.enabled ≡ true → Outcome
  unfolding check_limit check_user_limit check_provider_limit blocked check_provider_and_record
      record_request record_provider
  check_limit-Outcome on =
      let by_user = window_result-allowed s.user_windows user (user_limit s.config tier) now in
      elim (Bool-cases (ltb (used s.user_windows user now) (user_limit s.config tier))) [
        | inl room ↦ elim (Option-cases (truthy provider)) [
          | inl e ↦ granted_user (ground arith) e (ground arith) (ground arith)
          | inr (p, e) ↦
              let by_provider =
                window_result-allowed s.provider_windows p (provider_limit s.config p) now in
              elim (Bool-cases (ltb (used s.provider_windows p now) (provider_limit s.config p))) [
                | inl free ↦
                    granted_both p (ground arith) e (ground arith) (ground arith) (ground arith)
                | inr full ↦
                    blocked_provider p (ground arith) e (ground arith) (ground arith) (ground arith)
              ]
        ]
        | inr full ↦ blocked_user (ground arith) (ground arith) (ground arith)
      ]
