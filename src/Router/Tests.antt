-- ===== src/Router/Tests.antt =====
-- Runs of the router on concrete requests, with packages that answer at once.
use cam_protocol.Base.{
  ℕ, ◌+◌, ◌*◌, ◌≤◌, ◌<◌, ◌≡◌, refl, String, Bool, true, false, not, ◌&&◌, none, some, List, [], ◌∷◌,
  arith, any, filter, length, ltb, leb, str_eq, if◌then◌else◌,
}
use cam_protocol.Errors.{Thrown, throw}
use cam_protocol.JsMap
use cam_protocol.JsText
use cam_protocol.JsText.{is_truthy}
use cam_protocol.CacheManager
use cam_protocol.CacheManager.{KeyData, Response}
use cam_protocol.RateLimiter
use cam_protocol.RateLimiter.Window
use cam_protocol.Router.Requests.{
  AiCoreRequest, ProviderRequirements, no_requirements, minimize, cache_request,
}
use cam_protocol.Router.Policies
use cam_protocol.Router.Policies.{policy_request, validate_policy}
use cam_protocol.Router.Providers
use cam_protocol.Router.Providers.{
  ProviderConfig, ProviderInfo, Sources, info_of, is_eligible, choose_provider,
}
use cam_protocol.Router.Health
use cam_protocol.Router.Health.{p50, calculate_percentile}
use cam_protocol.Router.Execute
use cam_protocol.Router.Execute.{Router, Sdk, replied, failed, fallback_response}
use cam_protocol.Router
use cam_protocol.Router.{
  FastPathRouterOptions, take_permit, requirements_of, ask_provider, answer, route_request,
}
use cam_protocol.Router.Compliance.{complies, validate_policy-complies, route_request_refused}
use cam_protocol.Router.Choice.{
  is_ok, providers_of, AllScoreLess, choose_provider-best, route_request-is_ok,
}
use cam_protocol.Router.Repeat.{first_hit, answer-ask_provider}
use cam_protocol.Router.History.{record_all, latencies_of, sum, errors_of, record_all-Follows}
use cam_protocol.Router.Percentile.{calculate_percentile_lem}
use cam_protocol.Router.Metrics.{AllSound, route_request-AllSound}

program : Unit {0}
unfolding JsMap.get JsMap.set JsMap.has JsMap.delete JsText.is_prefix JsText.includes
    JsText.to_lower JsText.lower_code JsText.contains CacheManager.is_truthy CacheManager.init
    CacheManager.get CacheManager.set CacheManager.get_entry CacheManager.store
    CacheManager.generate_cache_key CacheManager.key_data CacheManager.cached_response
    CacheManager.evict_oldest CacheManager.oldest_from RateLimiter.init RateLimiter.check_limit
    RateLimiter.check_user_limit RateLimiter.user_limit RateLimiter.window_result
    RateLimiter.check_provider_and_record RateLimiter.record_request RateLimiter.record_provider
    RateLimiter.push_timestamp RateLimiter.blocked Window.get_or_create_window Window.slide
    Window.start_of Window.entry_or_new Window.count_requests_in_window Window.sort
    Window.insert_sorted Router.Requests.no_requirements Router.Requests.cache_request
    Policies.contains_prohibited_content Policies.overlay Policies.policy_request
    Policies.compliance_of Policies.request_policies Policies.get_applicable_policies
    Policies.is_over_quota Policies.violation Policies.evaluate_policy Policies.validate_policy
    Policies.apply_policies Providers.add_enabled Providers.load_provider_configs Providers.info_of
    Providers.get_available_providers Providers.is_eligible Providers.performance_points
    Providers.score_provider Providers.choose_provider Health.no_metrics Health.push_latency
    Health.add_sample Health.record_provider_metrics record_all latencies_of sum errors_of
    Health.calculate_percentile Execute.get_client Execute.response_of Execute.recorded
    Execute.call_failed Execute.handle_reply Execute.select_model Execute.with_cost
    Execute.fallback_response Execute.execute_with Execute.execute_by_type Execute.execute_request
    Router.init Router.user_of Router.take_permit Router.validate_request Router.check_policies
    Router.get_optimal_provider Router.admit Router.look_up Router.keep_response Router.ask_provider
    Router.answer Router.route_request complies is_ok cam_protocol.Base.sort_by
    cam_protocol.Base.insert_by
program = tt

abbrev digest : KeyData → String
digest k = k.prompt

abbrev config : String → String → ProviderConfig
config id type_ = record {
  id = id;
  type_ = type_;
  api_key = "key";
  endpoint = none;
  enabled = true;
  models = some ("gpt-4" ∷ []);
  pricing = some (record { input_tokens = 100; output_tokens = 200 });
  capabilities = none;
  regions = none;
}

abbrev two_providers : Sources
two_providers = record {
  env = some (some (config "gpt" "openai" ∷ config "claude" "anthropic" ∷ []));
  file = none;
}

abbrev friendly : Sdk
friendly = record {
  complete = λ kind c model r. replied (record {
    content = some "hello";
    model = model;
    usage = some (record { prompt_tokens = 3; completion_tokens = 1; total_tokens = 4 });
    finish_reason = some "stop";
  });
}

abbrev down : Sdk
down = record { complete = λ kind c model r. failed true "no connection" }

abbrev plain : FastPathRouterOptions
plain = record {
  cache_enabled = none;
  cache_max_entries = none;
  cache_ttl_ms = none;
  rate_limit_config = none;
}

abbrev start_state : Router
start_state = Router.init plain true

abbrev ask : String → AiCoreRequest
ask prompt = record {
  prompt = prompt;
  model = none;
  temperature = none;
  max_tokens = none;
  requirements = none;
  metadata = none;
}

abbrev gpt : ProviderInfo
gpt = info_of (config "gpt" "openai")

abbrev cheap : ProviderRequirements
cheap = record { cost = some minimize; performance = none; region = none; capabilities = none }

is_answered_once :
    is_ok (route_request two_providers friendly digest start_state (ask "hi") 10 20).1 ≡ true
unfolding program
is_answered_once = refl

validate_policy-complies_example :
    (validate_policy (policy_request (ask "hi"))).allowed ≡ complies (policy_request (ask "hi"))
unfolding program
validate_policy-complies_example = validate_policy-complies (policy_request (ask "hi"))

route_request_refused_example :
    let (q, a) = route_request two_providers friendly digest start_state (ask "") 10 20 in
    ((e : Thrown) × (a ≡ throw e)) × (q ≡ record start_state { rate_limiter = q.rate_limiter })
unfolding program
route_request_refused_example =
    route_request_refused two_providers friendly digest start_state (ask "") 10 20 refl

choose_provider-best_example :
    ((i : ℕ) × (cam_protocol.Base.get_elem? (gpt ∷ []) i ≡ some gpt))
    × (is_eligible cheap gpt ≡ true)
    × AllScoreLess cheap gpt (filter (is_eligible cheap) (gpt ∷ []))
unfolding program
choose_provider-best_example = choose_provider-best cheap (gpt ∷ []) gpt refl

route_request-is_ok_example :
    is_ok (route_request two_providers down digest start_state (ask "hi") 10 20).1 ≡ (
      (take_permit start_state (ask "hi") 10).1
      && is_truthy "hi"
      && complies (policy_request (ask "hi"))
      && any
          (is_eligible (requirements_of two_providers (ask "hi")))
          (providers_of two_providers down digest start_state))
unfolding program
route_request-is_ok_example =
    route_request-is_ok two_providers down digest start_state (ask "hi") 10 20

abbrev loaded : Router
loaded = record start_state { provider_configs = ("gpt", config "gpt" "openai") ∷ [] }

answer-ask_provider_example :
    let (s, a) = ask_provider two_providers friendly digest loaded (ask "hi") gpt 10 20 in
    let (q, b) = answer two_providers friendly digest s (ask "hi") gpt 500 510 in
    (b ≡ first_hit friendly two_providers digest loaded.cache_manager (ask "hi") gpt a 20)
    × (b.cost ≡ 0)
    × (q ≡ record s { cache_manager = q.cache_manager })
unfolding program
answer-ask_provider_example =
    answer-ask_provider friendly two_providers digest loaded (ask "hi") gpt 10 20 500 510 refl refl
      refl (omega arith)

calculate_percentile_lem_example :
    let x = calculate_percentile (30 ∷ 10 ∷ 20 ∷ []) p50 in
    (100 * length (filter (ltb x) (30 ∷ 10 ∷ 20 ∷ [])) + 50 * 3 ≤ 100 * 3)
    × (100 * 3 < 100 * length (filter (leb x) (30 ∷ 10 ∷ 20 ∷ [])) + 50 * 3)
unfolding program
calculate_percentile_lem_example =
    calculate_percentile_lem (30 ∷ 10 ∷ 20 ∷ []) p50 (omega arith) (omega arith)

-- Two calls of one provider, the second of which fails, and one of another between them.
record_all-Follows_example :
    let q = Health.metrics_or_new (
      JsMap.get "a" (
        record_all [] (
          record { provider = "a"; latency = 30; went = Health.Went.well; at = 1 }
          ∷ record { provider = "b"; latency = 5; went = Health.Went.well; at = 2 }
          ∷ record { provider = "a"; latency = 10; went = Health.Went.badly "down"; at = 3 }
          ∷ []))) in
    (q.request_count ≡ 2)
    × (q.error_count ≡ 1)
    × (q.total_latency ≡ 40)
    × (q.latencies ≡ 30 ∷ 10 ∷ [])
unfolding program
record_all-Follows_example =
    record_all-Follows [] "a"
      (record { provider = "a"; latency = 30; went = Health.Went.well; at = 1 }
        ∷ record { provider = "b"; latency = 5; went = Health.Went.well; at = 2 }
        ∷ record { provider = "a"; latency = 10; went = Health.Went.badly "down"; at = 3 }
        ∷ [])
      (omega arith)

route_request-AllSound_example :
    AllSound (route_request two_providers down digest start_state (ask "hi") 10 20).0.health_metrics
unfolding program
route_request-AllSound_example =
    route_request-AllSound down two_providers digest start_state (ask "hi") 10 20 tt
