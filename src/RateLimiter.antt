-- ===== src/RateLimiter.antt =====
-- The rate limiter: src/routing/rate-limiter.ts, class `RateLimiter`. A method takes the state and
-- the clock's reading, and returns the new state with its result. Logging has no effect on these.
pub mod Window
pub mod Sorting
mod Retry
mod Recorded
mod Tracks
mod Outcome
mod Bound
mod Stats
mod Tests
use cam_protocol.Base.{
  ℕ, suc, ◌+◌, ◌-◌, ◌*◌, ◌/◌, ◌<◌, max, String, Bool, true, false, not, Option, none, some, List,
  [], ◌∷◌, ◌++◌, ltb, leb, ◌==◌, if◌then◌else◌, ◌||◌,
}
use cam_protocol.JsMap
use cam_protocol.JsMap.{JsMap}
use cam_protocol.JsText.{codes, includes, to_lower, truthy}
use Window.{
  SlidingWindowEntry, window_size_ms, get_or_create_window, count_requests_in_window,
  calculate_retry_after,
}

pub data Tier : Type 0 where
  community professional enterprise : Tier

pub record TierLimits : Type 0 where
  pub community : ℕ
  pub professional : ℕ
  pub enterprise : ℕ

pub record ProviderLimits : Type 0 where
  pub openai : ℕ
  pub anthropic : ℕ
  pub google : ℕ
  pub azure : ℕ

pub record RateLimitConfig : Type 0 where
  pub enabled : Bool
  pub requests_per_minute : ℕ
  pub requests_per_minute_by_tier : Option TierLimits
  pub provider_limits_per_minute : Option ProviderLimits

-- A count, or `Infinity`.
pub data Amount : Type 0 where
  finite : ℕ → Amount
  infinity : Amount

pub record RateLimitResult : Type 0 where
  pub allowed : Bool
  pub remaining : Amount
  pub limit : Amount
  pub reset_at : ℕ
  pub retry_after_ms : Option ℕ

pub record RateLimiter : Type 0 where
  pub config : RateLimitConfig
  pub user_windows : JsMap SlidingWindowEntry
  pub provider_windows : JsMap SlidingWindowEntry
  -- Whether the timer of `cleanup` runs.
  pub cleanup_interval : Bool
  pub total_requests : ℕ
  pub blocked_requests : ℕ

-- `is_test` is `process.env["NODE_ENV"] === "test"`.
unfoldable pub init : RateLimitConfig → Bool → RateLimiter
init config is_test = record {
  config = config;
  cleanup_interval = not is_test;
  user_windows = [];
  provider_windows = [];
  total_requests = 0;
  blocked_requests = 0;
}

unfoldable pub shutdown : RateLimiter → RateLimiter
shutdown s = record s { cleanup_interval = false }

-- `override || limit`, where a missing override is `undefined`.
abbrev pub number_or : ℕ → ℕ → ℕ
number_or override limit = if override == 0 then limit else override

abbrev pub tier_limit : TierLimits → Tier → ℕ
tier_limit t community = t.community
tier_limit t professional = t.professional
tier_limit t enterprise = t.enterprise

-- The limit of a user: the first lines of `checkUserLimit`.
unfoldable pub user_limit : RateLimitConfig → Option Tier → ℕ
user_limit c none = c.requests_per_minute
user_limit c (some tier) = elim c.requests_per_minute_by_tier [
  | none ↦ c.requests_per_minute
  | some limits ↦ number_or (tier_limit limits tier) c.requests_per_minute
]

pub data ProviderType : Type 0 where
  openai anthropic google azure default : ProviderType

unfoldable pub get_provider_type : String → ProviderType
get_provider_type provider_id =
    let id = to_lower (codes provider_id) in
    if includes (codes "openai") id
    then openai
    else (if includes (codes "anthropic") id
        then anthropic
        else (if includes (codes "google") id || includes (codes "gemini") id
            then google
            else (if includes (codes "azure") id then azure else default)))

-- The record has no field `default`, so the lookup gives `undefined` there, which is falsy as 0 is.
abbrev pub provider_type_limit : ProviderLimits → ProviderType → ℕ
provider_type_limit l openai = l.openai
provider_type_limit l anthropic = l.anthropic
provider_type_limit l google = l.google
provider_type_limit l azure = l.azure
provider_type_limit l default = 0

-- The limit of a provider: the first lines of `checkProviderLimit`.
unfoldable pub provider_limit : RateLimitConfig → String → ℕ
provider_limit c provider_id = elim c.provider_limits_per_minute [
  | none ↦ c.requests_per_minute * 10
  | some limits ↦
      number_or (provider_type_limit limits (get_provider_type provider_id))
        (c.requests_per_minute * 10)
]

-- What `checkUserLimit` and `checkProviderLimit` both do with the window and the limit.
unfoldable pub window_result : SlidingWindowEntry → ℕ → ℕ → RateLimitResult
unfolding count_requests_in_window
window_result w limit now =
    let requests_in_window = count_requests_in_window w now in
    let reset_at = w.window_start + window_size_ms in
    if leb limit requests_in_window
    then record {
      allowed = false;
      remaining = finite 0;
      limit = finite limit;
      reset_at = reset_at;
      retry_after_ms = some (calculate_retry_after w limit now);
    }
    else record {
      allowed = true;
      remaining = finite (limit - requests_in_window - 1);
      limit = finite limit;
      reset_at = reset_at;
      retry_after_ms = none;
    }

unfoldable pub check_user_limit :
    RateLimiter → String → Option Tier → ℕ → RateLimiter × RateLimitResult
check_user_limit s user_id tier now =
    let (windows, w) = get_or_create_window s.user_windows user_id now in
    (record s { user_windows = windows }, window_result w (user_limit s.config tier) now)

unfoldable pub check_provider_limit : RateLimiter → String → ℕ → RateLimiter × RateLimitResult
check_provider_limit s provider_id now =
    let (windows, w) = get_or_create_window s.provider_windows provider_id now in
    (
      record s { provider_windows = windows },
      window_result w (provider_limit s.config provider_id) now,
    )

-- `window.timestamps.push(now)`, if the key has a window.
unfoldable pub push_timestamp : JsMap SlidingWindowEntry → String → ℕ → JsMap SlidingWindowEntry
push_timestamp windows key now = elim (JsMap.get key windows) [
  | none ↦ windows
  | some w ↦ JsMap.set key (record w { timestamps = w.timestamps ++ now ∷ [] }) windows
]

unfoldable pub record_provider : RateLimiter → Option String → ℕ → RateLimiter
record_provider s none now = s
record_provider s (some p) now = record s {
  provider_windows = push_timestamp s.provider_windows p now;
}

-- `provider_id` is the text if there is one that is not empty.
unfoldable pub record_request : RateLimiter → String → Option String → ℕ → RateLimiter
unfolding record_provider
record_request s user_id provider_id now =
    record_provider (record s { user_windows = push_timestamp s.user_windows user_id now })
      provider_id now

unfoldable pub blocked : RateLimiter → RateLimiter
blocked s = record s { blocked_requests = s.blocked_requests + 1 }

-- `if (providerId) { … }` and what follows it.
unfoldable pub check_provider_and_record :
    RateLimiter → RateLimitResult → String → Option String → ℕ → RateLimiter × RateLimitResult
unfolding blocked
check_provider_and_record s user_result user_id none now =
    (record_request s user_id none now, user_result)
check_provider_and_record s user_result user_id (some p) now =
    let (s', provider_result) = check_provider_limit s p now in
    if provider_result.allowed
    then (record_request s' user_id (some p) now, user_result)
    else (blocked s', provider_result)

unfoldable pub disabled_result : ℕ → RateLimitResult
disabled_result now = record {
  allowed = true;
  remaining = infinity;
  limit = infinity;
  reset_at = now + window_size_ms;
  retry_after_ms = none;
}

unfoldable pub check_limit :
    RateLimiter → String → Option String → Option Tier → ℕ → RateLimiter × RateLimitResult
unfolding disabled_result check_provider_and_record blocked
check_limit s user_id provider_id tier now =
    if s.config.enabled
    then (let counted = record s { total_requests = s.total_requests + 1 } in
        let (s', user_result) = check_user_limit counted user_id tier now in
        if user_result.allowed
        then check_provider_and_record s' user_result user_id (truthy provider_id) now
        else (blocked s', user_result))
    else (s, disabled_result now)

-- `timestamps.length === 0 || Math.max(...timestamps) < cutoff`, with `cutoff` two windows ago.
unfoldable pub newest : List ℕ → ℕ
newest [] = 0
newest (t ∷ ts) = max t (newest ts)

unfoldable pub are_stale : ℕ → List ℕ → Bool
unfolding newest
are_stale now [] = true
are_stale now (t ∷ ts) = ltb (newest (t ∷ ts) + window_size_ms * 2) now

abbrev pub is_stale : ℕ → SlidingWindowEntry → Bool
is_stale now w = are_stale now w.timestamps

unfoldable pub cleanup : RateLimiter → ℕ → RateLimiter
cleanup s now = record s {
  user_windows = JsMap.reject (is_stale now) s.user_windows;
  provider_windows = JsMap.reject (is_stale now) s.provider_windows;
}

pub record RateLimitStats : Type 0 where
  pub total_requests : ℕ
  pub allowed_requests : ℕ
  pub blocked_requests : ℕ
  -- In thousandths.
  pub block_rate : ℕ
  pub active_users : ℕ
  pub active_providers : ℕ

-- `Math.round(a / b * 1000)`.
abbrev pub per_mille : ℕ → ℕ → ℕ
per_mille a b = (2000 * a + b) / (2 * b)

unfoldable pub get_stats : RateLimiter → RateLimitStats
get_stats s = record {
  total_requests = s.total_requests;
  allowed_requests = s.total_requests - s.blocked_requests;
  blocked_requests = s.blocked_requests;
  block_rate = if ltb 0 s.total_requests then per_mille s.blocked_requests s.total_requests else 0;
  active_users = JsMap.size s.user_windows;
  active_providers = JsMap.size s.provider_windows;
}

unfoldable pub reset_user_limit : RateLimiter → String → RateLimiter
reset_user_limit s user_id = record s { user_windows = JsMap.delete user_id s.user_windows }

unfoldable pub is_enabled : RateLimiter → Bool
is_enabled s = s.config.enabled

-- A `Partial<RateLimitConfig>`: `none` is a field that is not given.
pub record ConfigPatch : Type 0 where
  pub enabled : Option Bool
  pub requests_per_minute : Option ℕ
  pub requests_per_minute_by_tier : Option TierLimits
  pub provider_limits_per_minute : Option ProviderLimits

abbrev pub given {ℓ} : {A : Type ℓ} → Option A → A → A
given none a = a
given (some b) a = b

abbrev pub given_option {ℓ} : {A : Type ℓ} → Option A → Option A → Option A
given_option none o = o
given_option (some b) o = some b

unfoldable pub update_config : RateLimiter → ConfigPatch → RateLimiter
update_config s p = record s {
  config = record {
    enabled = given p.enabled s.config.enabled;
    requests_per_minute = given p.requests_per_minute s.config.requests_per_minute;
    requests_per_minute_by_tier =
        given_option p.requests_per_minute_by_tier s.config.requests_per_minute_by_tier;
    provider_limits_per_minute =
        given_option p.provider_limits_per_minute s.config.provider_limits_per_minute;
  };
}
