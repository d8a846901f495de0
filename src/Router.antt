-- ===== src/Router.antt =====
-- The router: src/routing/fastpath-router.ts, class `FastPathRouter`. A request reads the clock when
-- it comes, `start`, and when the provider has answered, `end_`. The message of a rate limit, which
-- has the wait in seconds, is left without it.
pub mod Requests
pub mod Policies
pub mod Providers
pub mod Health
pub mod Execute
mod Calls
mod Compliance
mod Choice
mod Repeat
mod Percentile
mod Metrics
mod History
mod Tests
use Prim.Native.String.{◌++◌ as str_append}
use cam_protocol.Base.{
  ℕ, String, Bool, true, false, not, Option, none, some, List, [], ◌∷◌, str_eq, if◌then◌else◌,
}
use cam_protocol.Errors.{Thrown, cam_error, Result, ok, throw, ◌>>=◌, ◌>>◌, guard}
use cam_protocol.JsMap
use cam_protocol.JsText.{is_truthy, text_or}
use cam_protocol.CacheManager
use cam_protocol.CacheManager.{KeyData, Response, CacheManagerOptions, CacheStats}
use cam_protocol.RateLimiter
use cam_protocol.RateLimiter.{
  RateLimitConfig, Tier, community, professional, enterprise, check_limit, RateLimitStats,
  ConfigPatch,
}
use Requests.{
  AiCoreRequest, ProviderRequirements, no_requirements, cache_request, as_text, as_number, field,
  has_field,
}
use Policies.{apply_policies, field_or}
use Providers.{
  ProviderInfo, Sources, load_provider_configs, get_available_providers, choose_provider,
}
use Execute.{Router, Sdk, execute_request}

pub record FastPathRouterOptions : Type 0 where
  pub cache_enabled : Option Bool
  pub cache_max_entries : Option ℕ
  pub cache_ttl_ms : Option ℕ
  pub rate_limit_config : Option RateLimitConfig

abbrev pub default_limits : RateLimitConfig
default_limits = record {
  enabled = true;
  requests_per_minute = 100;
  requests_per_minute_by_tier =
      some (record { community = 60; professional = 300; enterprise = 1000 });
  provider_limits_per_minute = none;
}

-- With the options of an object. `is_test` is `process.env["NODE_ENV"] === "test"`.
unfoldable pub init : FastPathRouterOptions → Bool → Router
init o is_test = record {
  provider_configs = [];
  openai_clients = [];
  anthropic_clients = [];
  google_clients = [];
  azure_clients = [];
  health_metrics = [];
  cache_manager = CacheManager.init (record {
    max_entries = some (CacheManager.given_or o.cache_max_entries 1000);
    default_ttl_ms = some (CacheManager.given_or o.cache_ttl_ms 300000);
    enabled = some (CacheManager.given_or o.cache_enabled true);
  });
  rate_limiter =
      RateLimiter.init (CacheManager.given_or o.rate_limit_config default_limits) is_test;
}

-- A tier that is none of the three has no limit of its own. A text that names a member of every
-- object, such as `constructor`, is read so too: what the source's table gives for it is not modelled.
abbrev pub tier_of : Option String → Option Tier
tier_of none = none
tier_of (some t) =
    if str_eq t "community"
    then some community
    else if str_eq t "professional"
    then some professional
    else if str_eq t "enterprise"
    then some enterprise
    else none

unfoldable pub user_of : AiCoreRequest → String
user_of r = field_or r "userId" "anonymous"

-- The rate limit of a request.
unfoldable pub take_permit : Router → AiCoreRequest → ℕ → Router × Bool
unfolding user_of
take_permit s r now =
    let (limiter, result) =
      check_limit s.rate_limiter (user_of r) none (tier_of (as_text (field r "subscriptionTier")))
        now in
    (record s { rate_limiter = limiter }, result.allowed)

unfoldable pub validate_request : AiCoreRequest → Result (Unit {0})
validate_request r =
    guard (is_truthy r.prompt) (cam_error "Invalid request: prompt is required" "INVALID_REQUEST")

unfoldable pub check_policies : AiCoreRequest → Result (Unit {0})
check_policies r =
    let result = apply_policies r in
    guard result.allowed
      (cam_error (str_append "Policy violation: " result.reason) "POLICY_VIOLATION")

module _ (sources : Sources) where
  -- Loads the configurations, where none are there.
  unfoldable pub get_optimal_provider : Router → ProviderRequirements → Router × Result ProviderInfo
  get_optimal_provider s r =
      let configs = load_provider_configs sources s.provider_configs in
      (record s { provider_configs = configs }, choose_provider r (get_available_providers configs))

  abbrev pub requirements_of : AiCoreRequest → ProviderRequirements
  requirements_of r = CacheManager.given_or r.requirements no_requirements

  -- The steps between the permit and the provider.
  unfoldable pub admit : Router → AiCoreRequest → Router × Result ProviderInfo
  unfolding get_optimal_provider validate_request check_policies
  admit s r = elim (validate_request r >> check_policies r) [
    | throw e ↦ (s, throw e)
    | ok u ↦ get_optimal_provider s (requirements_of r)
  ]

  module _ (sdk : Sdk) (digest : KeyData → String) where
    -- What the cache has, unless the request skips it.
    unfoldable pub look_up : Router → AiCoreRequest → ProviderInfo → ℕ → Router × Option Response
    look_up s r p now =
        if has_field r "skipCache"
        then (s, none)
        else (let (cache, found) =
              CacheManager.get digest s.cache_manager (cache_request r) (some p.id) now in
            (record s { cache_manager = cache }, found))

    unfoldable pub keep_response : Router → AiCoreRequest → ProviderInfo → Response → ℕ → Router
    keep_response s r p a now = if has_field r "skipCache" then s else record s {
      cache_manager =
          CacheManager.set digest s.cache_manager (cache_request r) a
            (as_number (field r "cacheTtlMs")) (some p.id) now;
    }

    -- The call of the provider, and the response kept.
    unfoldable pub ask_provider : Router → AiCoreRequest → ProviderInfo → ℕ → ℕ → Router × Response
    unfolding keep_response
    ask_provider s r p start end_ =
        let (s', a) = execute_request sdk s r p start end_ in (keep_response s' r p a end_, a)

    -- A request to the provider that was chosen.
    unfoldable pub answer : Router → AiCoreRequest → ProviderInfo → ℕ → ℕ → Router × Response
    unfolding look_up ask_provider
    answer s r p start end_ =
        let (s', found) = look_up s r p start in
        elim found [ some a ↦ (s', a) | none ↦ ask_provider s' r p start end_ ]

    abbrev pub answer_admitted :
        AiCoreRequest → ℕ → ℕ → Router × Result ProviderInfo → Router × Result Response
    answer_admitted r start end_ (s, throw e) = (s, throw e)
    answer_admitted r start end_ (s, ok p) = let (s', a) = answer s r p start end_ in (s', ok a)

    unfoldable pub route_request : Router → AiCoreRequest → ℕ → ℕ → Router × Result Response
    unfolding answer take_permit admit
    route_request s r start end_ =
        let (s', permit) = take_permit s r start in
        if permit
        then answer_admitted r start end_ (admit s' r)
        else (s', throw (cam_error "Rate limit exceeded" "RATE_LIMIT_EXCEEDED"))

unfoldable pub get_cache_stats : Router → CacheStats
get_cache_stats s = CacheManager.get_stats s.cache_manager

unfoldable pub clear_cache : Router → Router
clear_cache s = record s { cache_manager = CacheManager.clear s.cache_manager }

unfoldable pub set_cache_enabled : Router → Bool → Router
set_cache_enabled s enabled = record s {
  cache_manager = CacheManager.set_enabled s.cache_manager enabled;
}

unfoldable pub get_rate_limit_stats : Router → RateLimitStats
get_rate_limit_stats s = RateLimiter.get_stats s.rate_limiter

unfoldable pub reset_user_rate_limit : Router → String → Router
reset_user_rate_limit s user = record s {
  rate_limiter = RateLimiter.reset_user_limit s.rate_limiter user;
}

unfoldable pub update_rate_limit_config : Router → ConfigPatch → Router
update_rate_limit_config s patch = record s {
  rate_limiter = RateLimiter.update_config s.rate_limiter patch;
}
