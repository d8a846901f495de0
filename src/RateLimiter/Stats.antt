-- ===== src/RateLimiter/Stats.antt =====
-- The counters, and what the periodic cleanup leaves alone.
use cam_protocol.Base.{
  ℕ, ◌+◌, ◌≤◌, ◌≡◌, refl, sym, ap, ◌∙◌, String, Bool, true, Option, none, some, List, [], ◌∷◌,
  arith, ltb, ◌&&◌, length, length-append, filter,
}
use cam_protocol.JsMap
use cam_protocol.JsMap.{JsMap, IsUnique}
use cam_protocol.JsText.{truthy}
use cam_protocol.RateLimiter.Window.{SlidingWindowEntry, is_live}
use cam_protocol.RateLimiter.{
  RateLimiter, RateLimitConfig, Tier, init, user_limit, provider_limit, check_limit, cleanup,
  get_stats, is_stale,
}
use cam_protocol.RateLimiter.Recorded.{used, recorded, filter-is_live_later, used-reject}
use cam_protocol.RateLimiter.Outcome.{
  blocked_user, granted_user, blocked_provider, granted_both, check_limit-Outcome,
}
use cam_protocol.RateLimiter.Bound.{Reach, start, check, clean, Grant, note}

record Counts (c : RateLimitConfig) (s : RateLimiter) (log : List Grant) : Type 0 where
  same : s.config ≡ c
  sum : s.blocked_requests + length log ≡ s.total_requests

check-Counts :
    (c : RateLimitConfig) {s : RateLimiter} {log : List Grant} (u : String) (p : Option String)
    (tier : Option Tier) (now : ℕ)
    → c.enabled ≡ true
    → Counts c s log
    → Counts c
        (check_limit s u p tier now).0
        (note log u p now (check_limit s u p tier now).1.allowed)
check-Counts c {s} {log} u p tier now on v =
    let grown = length-append {0} log (record { user = u; provider = truthy p; at = now } ∷ []) in
    elim (check_limit-Outcome s u p tier now (rw v.same on)) [
      | blocked_user _ a e ↦ rw (a, e) (record { same = v.same; sum = omega (arith, v.sum) })
      | granted_user _ _ a e ↦ rw (a, e) (record { same = v.same; sum = omega (arith, v.sum) })
      | blocked_provider _ _ _ _ a e ↦
          rw (a, e) (record { same = v.same; sum = omega (arith, v.sum) })
      | granted_both _ _ _ _ a e ↦ rw (a, e) (record { same = v.same; sum = omega (arith, v.sum) })
    ]

Reach-Counts :
    {c : RateLimitConfig} {test : Bool} {s : RateLimiter} {log : List Grant} {t : ℕ}
    → c.enabled ≡ true
    → Reach c test s log t
    → Counts c s log
unfolding init cleanup
Reach-Counts on (start t) = record { same = refl; sum = omega arith }
Reach-Counts on (check r u p tier now h) = check-Counts _ u p tier now on (Reach-Counts on r)
Reach-Counts on (clean r now h) = let v = Reach-Counts on r in record { same = v.same; sum = v.sum }

-- In any such history of an enabled limiter, `getStats` reports as allowed exactly the requests that
-- were let through, and the allowed and the blocked ones add up to the total.
pub get_stats-Reach :
    {c : RateLimitConfig} {test : Bool} {s : RateLimiter} {log : List Grant} {t : ℕ}
    → c.enabled ≡ true
    → Reach c test s log t
    → ((get_stats s).allowed_requests ≡ length log)
      × ((get_stats s).allowed_requests + (get_stats s).blocked_requests
          ≡ (get_stats s).total_requests)
unfolding get_stats
get_stats-Reach on r = let v = Reach-Counts on r in (omega (arith, v.sum), omega (arith, v.sum))

abbrev pub provider_ok : RateLimiter → Option String → ℕ → Bool
provider_ok s none now = true
provider_ok s (some p) now = ltb (used s.provider_windows p now) (provider_limit s.config p)

-- An enabled limiter lets a request through exactly when the user has used less than the limit of the
-- tier within the window, and so has the provider of its own limit, if one is named.
pub check_limit-allowed :
    (s : RateLimiter) (u : String) (p : Option String) (tier : Option Tier) (now : ℕ)
    → s.config.enabled ≡ true
    → (check_limit s u p tier now).1.allowed
      ≡ (ltb (used s.user_windows u now) (user_limit s.config tier) && provider_ok s (truthy p) now)
check_limit-allowed s u p tier now on = elim (check_limit-Outcome s u p tier now on) [
  | blocked_user full a e ↦ ground arith
  | granted_user room alone a e ↦ ground arith
  | blocked_provider q room named full a e ↦ ground arith
  | granted_both q room named free a e ↦ ground arith
]

used-cleanup :
    (m : JsMap SlidingWindowEntry) (k : String) (t now : ℕ)
    → t ≤ now
    → IsUnique m
    → used (JsMap.reject (is_stale t) m) k now ≡ used m k now
used-cleanup m k t now h u = ap length (
    sym (filter-is_live_later t now (recorded (JsMap.reject (is_stale t) m) k) h)
    ∙ ap (filter (is_live now)) (used-reject m k t u)
    ∙ filter-is_live_later t now (recorded m k) h)

-- A cleanup changes no later decision: a request after it is let through exactly when it would have
-- been without it. The windows have each key once, and the limiter is enabled.
pub check_limit-cleanup :
    (s : RateLimiter) (u : String) (p : Option String) (tier : Option Tier) (t now : ℕ)
    → s.config.enabled ≡ true
    → IsUnique s.user_windows
    → IsUnique s.provider_windows
    → t ≤ now
    → (check_limit (cleanup s t) u p tier now).1.allowed ≡ (check_limit s u p tier now).1.allowed
unfolding cleanup
check_limit-cleanup s u p tier t now on uu up h =
    check_limit-allowed (cleanup s t) u p tier now on
    ∙ both (truthy p)
    ∙ sym (check_limit-allowed s u p tier now on)
  where
    both :
        (q : Option String)
        → (ltb (used (cleanup s t).user_windows u now) (user_limit (cleanup s t).config tier)
            && provider_ok (cleanup s t) q now)
          ≡ (ltb (used s.user_windows u now) (user_limit s.config tier) && provider_ok s q now)
    both none = rw (used-cleanup s.user_windows u t now h uu) refl
    both (some r) =
        rw (used-cleanup s.user_windows u t now h uu, used-cleanup s.provider_windows r t now h up)
          refl
