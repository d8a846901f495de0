-- ===== src/Router/Repeat.antt =====
-- What the cache does for a request that comes again, and for a call that failed.
use cam_protocol.Base.{
  ℕ, ◌+◌, ◌-◌, ◌≤◌, ◌≡◌, refl, String, Bool, true, false, not, Option, none, some, ◌∷◌, arith, ltb,
  if_both, ap, subst, ◌∙◌,
}
use cam_protocol.Errors.{Result, ok, throw}
use cam_protocol.JsMap
use cam_protocol.CacheManager
use cam_protocol.CacheManager.{
  KeyData, Response, CacheManager, is_failure, cached_response, Value, text, number, Usage,
}
use cam_protocol.CacheManager.Reads.{written, get-set_self}
use cam_protocol.Router.Requests.{AiCoreRequest, cache_request, as_number, field, has_field}
use cam_protocol.Router.Providers.{ProviderInfo, ProviderConfig, Sources}
use cam_protocol.Router.Execute.{
  Router, Sdk, Completion, Reply, replied, unreadable, failed, ClientKind, openai, anthropic,
  google, azure, get_client, keep_client, handle_reply, call_failed, recorded, response_of,
  execute_by_type, select_model, execute_request, answer_or_fallback, fallback_response, with_cost,
  region_fields, reason_fields, error_text, sdk_version,
}
use cam_protocol.Router.Calls.{get_client-both, execute_with-both, execute_by_type-both}
use cam_protocol.Router.Choice.{is_ok}
use cam_protocol.Router.{look_up, keep_response, ask_provider, answer}

keep_client-cache :
    (kind : ClientKind) (id : String) (s : Router) (c : Result ProviderConfig)
    → (keep_client kind id s c).0.cache_manager ≡ s.cache_manager
keep_client-cache kind id s (throw e) = refl
keep_client-cache openai id s (ok c) = refl
keep_client-cache anthropic id s (ok c) = refl
keep_client-cache google id s (ok c) = refl
keep_client-cache azure id s (ok c) = refl

get_client-cache :
    (kind : ClientKind) (s : Router) (id : String)
    → (get_client kind s id).0.cache_manager ≡ s.cache_manager
get_client-cache kind s id =
    get_client-both (λ t. t.cache_manager ≡ s.cache_manager) kind s id refl
      (keep_client-cache kind id s)

-- An answer has no field by which the cache takes it for a failure.
no_failure_fields :
    (kind : ClientKind) (r : AiCoreRequest) (name time : Value) (reason : Option String)
    → let m =
        ("provider", name)
        ∷ ("timestamp", time)
        ∷ region_fields kind r
            (("sdkVersion", text (sdk_version kind)) ∷ reason_fields kind reason) in
      (JsMap.get "error" m ≡ none) × (JsMap.get "fallback" m ≡ none)
unfolding JsMap.get
no_failure_fields openai r name time none = (refl, refl)
no_failure_fields openai r name time (some t) = (refl, refl)
no_failure_fields anthropic r name time none = (refl, refl)
no_failure_fields anthropic r name time (some t) = (refl, refl)
no_failure_fields google r name time none = (refl, refl)
no_failure_fields google r name time (some t) = (refl, refl)
no_failure_fields azure r name time none = (refl, refl)
no_failure_fields azure r name time (some t) = (refl, refl)

response_of-is_failure :
    (kind : ClientKind) (r : AiCoreRequest) (p q : ProviderInfo) (model : String) (c : Completion)
    (end_ latency : ℕ)
    → is_failure (with_cost q latency (response_of kind r p model c end_)) ≡ false
unfolding response_of with_cost CacheManager.is_truthy
response_of-is_failure kind r p q model c end_ latency =
    let (e, f) = no_failure_fields kind r (text p.name) (number end_) c.finish_reason in
    rw (e, f) refl

fallback_response-is_failure :
    (r : AiCoreRequest) (p : ProviderInfo) (message : String) (start end_ : ℕ)
    → is_failure (fallback_response r p message start end_) ≡ true
unfolding fallback_response CacheManager.is_truthy JsMap.get
fallback_response-is_failure r p message start end_ = ground arith

-- What a call does to the cache, which is nothing, and the fields of what it answers.
abbrev IsCalled : CacheManager → Router × Result Response → Type 0
IsCalled cache (s', ok a) =
    (s'.cache_manager ≡ cache)
    × ((p : ProviderInfo) (latency : ℕ) → is_failure (with_cost p latency a) ≡ false)
IsCalled cache (s', throw e) = s'.cache_manager ≡ cache

handle_reply-IsCalled :
    (kind : ClientKind) (s : Router) (r : AiCoreRequest) (p : ProviderInfo) (model : String)
    (start end_ : ℕ) (reply : Reply)
    → IsCalled s.cache_manager (handle_reply kind s r p model start end_ reply)
unfolding handle_reply call_failed recorded response_of
handle_reply-IsCalled kind s r p model start end_ (failed api message) = refl
handle_reply-IsCalled kind s r p model start end_ (unreadable message) = refl
handle_reply-IsCalled kind s r p model start end_ (replied c) =
    (refl, λ q latency. response_of-is_failure kind r p q model c end_ latency)

module _ (sdk : Sdk) where
  execute_by_type-IsCalled :
      (s : Router) (r : AiCoreRequest) (p : ProviderInfo) (model : String) (start end_ : ℕ)
      → IsCalled s.cache_manager (execute_by_type sdk s r p model start end_)
  unfolding call_failed recorded
  execute_by_type-IsCalled s r p model start end_ =
      let P : Router × Result Response → Type 0 = IsCalled s.cache_manager in
      execute_by_type-both sdk P s r p model start end_
        (λ kind.
          let t = (get_client kind s p.id).0 in
          let same = get_client-cache kind s p.id in
          execute_with-both sdk P kind s r p model start end_ (λ message. same)
            (λ reply.
              subst (λ m. IsCalled m (handle_reply kind t r p model start end_ reply)) same
                (handle_reply-IsCalled kind t r p model start end_ reply)))
        (λ e. refl)

  module _ (s : Router) (r : AiCoreRequest) (p : ProviderInfo) (start end_ : ℕ) where
    -- The call of the provider goes well.
    abbrev pub is_answered : Bool
    is_answered = is_ok (execute_by_type sdk s r p (select_model r p) start end_).1

    execute_request-cache :
        ((execute_request sdk s r p start end_).0.cache_manager ≡ s.cache_manager)
        × (is_failure (execute_request sdk s r p start end_).1 ≡ not is_answered)
    unfolding execute_request is_ok
    execute_request-cache =
        settled (execute_by_type sdk s r p (select_model r p) start end_)
          (execute_by_type-IsCalled s r p (select_model r p) start end_)
      where
        settled :
            (x : Router × Result Response)
            → IsCalled s.cache_manager x
            → ((answer_or_fallback r p start end_ x).0.cache_manager ≡ s.cache_manager)
              × (is_failure (answer_or_fallback r p start end_ x).1 ≡ not (is_ok x.1))
        settled (t, ok a) (same, good) = (same, good p (end_ - start))
        settled (t, throw e) same =
            (same, fallback_response-is_failure r p (error_text e) start end_)

  module _ (sources : Sources) (digest : KeyData → String) where
    -- The response as the cache gives it back for the first time.
    abbrev pub first_hit : CacheManager → AiCoreRequest → ProviderInfo → Response → ℕ → Response
    first_hit cache r p a end_ =
        cached_response (CacheManager.generate_cache_key digest (cache_request r) (some p.id))
          (record (written cache a (as_number (field r "cacheTtlMs")) end_) { hit_count = 1 })

    hit_after_store :
        (s : Router) (r : AiCoreRequest) (p : ProviderInfo) (a : Response) (end_ later : ℕ)
        → is_failure a ≡ false
        → s.cache_manager.enabled ≡ true
        → has_field r "skipCache" ≡ false
        → later
          ≤ end_
            + CacheManager.given_or
                (as_number (field r "cacheTtlMs"))
                s.cache_manager.default_ttl_ms
        → (look_up sources sdk digest (keep_response sources sdk digest s r p a end_) r p later).1
          ≡ some (first_hit s.cache_manager r p a end_)
    unfolding keep_response look_up
    hit_after_store s r p a end_ later good on uses fresh =
        let off : ltb
              (end_
                + CacheManager.given_or (as_number (field r "cacheTtlMs"))
                    s.cache_manager.default_ttl_ms)
              later
            ≡ false =
          ground arith in
        rw uses (
          (get-set_self digest s.cache_manager (cache_request r) a
            (as_number (field r "cacheTtlMs")) (some p.id) end_ on good later).0
          ∙ rw off refl)

    look_up-state :
        (s : Router) (r : AiCoreRequest) (p : ProviderInfo) (now : ℕ)
        → let q = (look_up sources sdk digest s r p now).0 in
          q ≡ record s { cache_manager = q.cache_manager }
    unfolding look_up
    look_up-state s r p now =
        if_both
          (λ (x : Router × Option Response). x.0 ≡ record s { cache_manager = x.0.cache_manager })
          (has_field r "skipCache") (λ e. refl) (λ e. refl)

    -- When a provider has answered, the same request to it is answered again from the cache, at no
    -- cost, until the response's time to live is over, and neither a provider is called nor a metric
    -- counted: only the cache's state changes. The cache is enabled, and the request does not skip it.
    pub answer-ask_provider :
        (s : Router) (r : AiCoreRequest) (p : ProviderInfo) (start end_ later last : ℕ)
        → is_answered s r p start end_ ≡ true
        → s.cache_manager.enabled ≡ true
        → has_field r "skipCache" ≡ false
        → later
          ≤ end_
            + CacheManager.given_or
                (as_number (field r "cacheTtlMs"))
                s.cache_manager.default_ttl_ms
        → let (s', a) = ask_provider sources sdk digest s r p start end_ in
          let (q, b) = answer sources sdk digest s' r p later last in
          (b ≡ first_hit s.cache_manager r p a end_)
          × (b.cost ≡ 0)
          × (q ≡ record s' { cache_manager = q.cache_manager })
    unfolding ask_provider keep_response answer look_up cached_response
    answer-ask_provider s r p start end_ later last answered on uses fresh =
        let (t, a) = execute_request sdk s r p start end_ in
        let (same, failure) = execute_request-cache s r p start end_ in
        let hit =
          hit_after_store t r p a end_ later (failure ∙ ap not answered)
            (ap (λ (m : CacheManager). m.enabled) same ∙ on) uses (rw same fresh) in
        let state = look_up-state (keep_response sources sdk digest t r p a end_) r p later in
        rw (hit, answer) (ap (λ m. first_hit m r p a end_) same, refl, state)
