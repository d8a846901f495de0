-- ===== src/Router/Metrics.antt =====
-- The health metrics stay within their bounds.
use cam_protocol.Base.{
  ℕ, ◌-◌, ◌≤◌, ◌≡◌, refl, String, Option, List, [], ◌∷◌, ◌++◌, arith, ltb, str_eq, length,
  length-append, length-drop, All, Bool-cases, inl, inr, if_both, subst, sym,
}
use cam_protocol.JsMap
use cam_protocol.JsMap.{JsMap}
use cam_protocol.Router.Health.{
  ProviderHealthMetrics, no_metrics, metrics_or_new, push_latency, Went, well, badly, add_sample,
  record_provider_metrics,
}
use cam_protocol.Errors.{Result, ok, throw, Result-cases, ◌>>◌}
use cam_protocol.Router.Calls.{
  get_client-both, execute_with-both, execute_by_type-both, answer-both,
}
use cam_protocol.CacheManager.{KeyData, Response}
use cam_protocol.Router.Requests.{AiCoreRequest, has_field}
use cam_protocol.Router.Providers.{ProviderInfo, ProviderConfig, Sources}
use cam_protocol.Router.Execute.{
  Router, Sdk, Reply, replied, unreadable, failed, ClientKind, openai, anthropic, google, azure,
  get_client, keep_client, clients_of, with_clients, handle_reply, call_failed, recorded,
  execute_by_type, select_model, execute_request, answer_or_fallback,
}
use cam_protocol.Router.{
  take_permit, validate_request, check_policies, get_optimal_provider, look_up, keep_response,
  ask_provider, answer, admit, answer_admitted, route_request,
}

-- No provider has more errors than calls, nor more than 100 latencies.
abbrev pub IsSound : ProviderHealthMetrics → Type 0
IsSound m = (m.error_count ≤ m.request_count) × (length m.latencies ≤ 100)

abbrev pub AllSound : JsMap ProviderHealthMetrics → Type 0
AllSound = All (λ e. IsSound e.1)

pub length-push_latency :
    (ls : List ℕ) (latency : ℕ) → length ls ≤ 100 → length (push_latency ls latency) ≤ 100
unfolding push_latency
length-push_latency ls latency h = elim (Bool-cases (ltb 100 (length (ls ++ latency ∷ [])))) [
  | inl e ↦ rw e (
      omega (
        arith,
        length-append ls (latency ∷ []),
        length-drop 1 (ls ++ latency ∷ []) (omega (arith, length-append ls (latency ∷ []))),
      ))
  | inr e ↦ rw e (ground arith)
]

add_sample-IsSound :
    (m : ProviderHealthMetrics) (latency : ℕ) (went : Went) (now : ℕ)
    → IsSound m
    → IsSound (add_sample m latency went now)
unfolding add_sample
add_sample-IsSound m latency well now (le, few) =
    (omega arith, length-push_latency m.latencies latency few)
add_sample-IsSound m latency (badly error) now (le, few) =
    (omega arith, length-push_latency m.latencies latency few)

get-AllSound :
    (k : String) (m : JsMap ProviderHealthMetrics)
    → AllSound m
    → IsSound (metrics_or_new (JsMap.get k m))
unfolding JsMap.get no_metrics
get-AllSound k [] h = (omega arith, omega arith)
get-AllSound k ((j, v) ∷ m) (p, h) =
    if_both (λ (x : Option ProviderHealthMetrics). IsSound (metrics_or_new x)) (str_eq j k) (λ e. p)
      (λ e. get-AllSound k m h)

set-AllSound :
    (k : String) (v : ProviderHealthMetrics) (m : JsMap ProviderHealthMetrics)
    → IsSound v
    → AllSound m
    → AllSound (JsMap.set k v m)
unfolding JsMap.set
set-AllSound k v [] p h = (p, tt)
set-AllSound k v ((j, w) ∷ m) p (q, h) =
    if_both AllSound (str_eq j k) (λ e. (p, h)) (λ e. (q, set-AllSound k v m p h))

pub record_provider_metrics-AllSound :
    (m : JsMap ProviderHealthMetrics) (id : String) (latency : ℕ) (went : Went) (now : ℕ)
    → AllSound m
    → AllSound (record_provider_metrics m id latency went now)
unfolding record_provider_metrics
record_provider_metrics-AllSound m id latency went now h =
    set-AllSound id _ m
      (add_sample-IsSound (metrics_or_new (JsMap.get id m)) latency went now (get-AllSound id m h))
      h

recorded-AllSound :
    (s : Router) (id : String) (start end_ : ℕ) (went : Went)
    → AllSound s.health_metrics
    → AllSound (recorded s id start end_ went).health_metrics
unfolding recorded
recorded-AllSound s id start end_ went h =
    record_provider_metrics-AllSound s.health_metrics id (end_ - start) went end_ h

handle_reply-AllSound :
    (kind : ClientKind) (s : Router) (r : AiCoreRequest) (p : ProviderInfo) (model : String)
    (start end_ : ℕ) (reply : Reply)
    → AllSound s.health_metrics
    → AllSound (handle_reply kind s r p model start end_ reply).0.health_metrics
unfolding handle_reply call_failed
handle_reply-AllSound kind s r p model start end_ (failed api m) h =
    recorded-AllSound s p.id start end_ (badly m) h
handle_reply-AllSound kind s r p model start end_ (unreadable m) h =
    recorded-AllSound (recorded s p.id start end_ well) p.id start end_ (badly m)
      (recorded-AllSound s p.id start end_ well h)
handle_reply-AllSound kind s r p model start end_ (replied c) h =
    recorded-AllSound s p.id start end_ well h

with_clients-health :
    (kind : ClientKind) (m : JsMap ProviderConfig) (s : Router)
    → (with_clients kind m s).health_metrics ≡ s.health_metrics
with_clients-health openai m s = refl
with_clients-health anthropic m s = refl
with_clients-health google m s = refl
with_clients-health azure m s = refl

keep_client-AllSound :
    (kind : ClientKind) (id : String) (s : Router) (c : Result ProviderConfig)
    → AllSound s.health_metrics
    → AllSound (keep_client kind id s c).0.health_metrics
keep_client-AllSound kind id s (throw e) h = h
keep_client-AllSound kind id s (ok c) h =
    subst AllSound (sym (with_clients-health kind (JsMap.set id c (clients_of kind s)) s)) h

get_client-AllSound :
    (kind : ClientKind) (s : Router) (id : String)
    → AllSound s.health_metrics
    → AllSound (get_client kind s id).0.health_metrics
get_client-AllSound kind s id h =
    get_client-both (λ t. AllSound t.health_metrics) kind s id h
      (λ c. keep_client-AllSound kind id s c h)

module _ (sdk : Sdk) where
  execute_by_type-AllSound :
      (s : Router) (r : AiCoreRequest) (p : ProviderInfo) (model : String) (start end_ : ℕ)
      → AllSound s.health_metrics
      → AllSound (execute_by_type sdk s r p model start end_).0.health_metrics
  unfolding call_failed
  execute_by_type-AllSound s r p model start end_ h =
      let P : Router × Result Response → Type 0 = λ x. AllSound x.0.health_metrics in
      execute_by_type-both sdk P s r p model start end_
        (λ kind.
          let t = (get_client kind s p.id).0 in
          let k = get_client-AllSound kind s p.id h in
          execute_with-both sdk P kind s r p model start end_
            (λ message. recorded-AllSound t p.id start end_ (badly message) k)
            (λ reply. handle_reply-AllSound kind t r p model start end_ reply k))
        (λ e. h)

  execute_request-AllSound :
      (s : Router) (r : AiCoreRequest) (p : ProviderInfo) (start end_ : ℕ)
      → AllSound s.health_metrics
      → AllSound (execute_request sdk s r p start end_).0.health_metrics
  unfolding execute_request
  execute_request-AllSound s r p start end_ h =
      settled (execute_by_type sdk s r p (select_model r p) start end_)
        (execute_by_type-AllSound s r p (select_model r p) start end_ h)
    where
      settled :
          (x : Router × Result Response)
          → AllSound x.0.health_metrics
          → AllSound (answer_or_fallback r p start end_ x).0.health_metrics
      settled (t, ok a) k = k
      settled (t, throw e) k = k

  module _ (sources : Sources) (digest : KeyData → String) where
    keep_response-AllSound :
        (s : Router) (r : AiCoreRequest) (p : ProviderInfo) (a : Response) (end_ : ℕ)
        → AllSound s.health_metrics
        → AllSound (keep_response sources sdk digest s r p a end_).health_metrics
    unfolding keep_response
    keep_response-AllSound s r p a end_ h =
        if_both (λ (t : Router). AllSound t.health_metrics) (has_field r "skipCache") (λ e. h)
          (λ e. h)

    ask_provider-AllSound :
        (s : Router) (r : AiCoreRequest) (p : ProviderInfo) (start end_ : ℕ)
        → AllSound s.health_metrics
        → AllSound (ask_provider sources sdk digest s r p start end_).0.health_metrics
    unfolding ask_provider
    ask_provider-AllSound s r p start end_ h =
        let (t, a) = execute_request sdk s r p start end_ in
        keep_response-AllSound t r p a end_ (execute_request-AllSound s r p start end_ h)

    look_up-AllSound :
        (s : Router) (r : AiCoreRequest) (p : ProviderInfo) (now : ℕ)
        → AllSound s.health_metrics
        → AllSound (look_up sources sdk digest s r p now).0.health_metrics
    unfolding look_up
    look_up-AllSound s r p now h =
        if_both (λ (x : Router × Option Response). AllSound x.0.health_metrics)
          (has_field r "skipCache") (λ e. h) (λ e. h)

    answer-AllSound :
        (s : Router) (r : AiCoreRequest) (p : ProviderInfo) (start end_ : ℕ)
        → AllSound s.health_metrics
        → AllSound (answer sources sdk digest s r p start end_).0.health_metrics
    answer-AllSound s r p start end_ h =
        let k = look_up-AllSound s r p start h in
        answer-both sources sdk digest (λ t. AllSound t.health_metrics) s r p start end_
          (k, ask_provider-AllSound (look_up sources sdk digest s r p start).0 r p start end_ k)

    admit-AllSound :
        (s : Router) (r : AiCoreRequest)
        → AllSound s.health_metrics
        → AllSound (admit sources s r).0.health_metrics
    unfolding admit get_optimal_provider
    admit-AllSound s r h = elim (Result-cases (validate_request r >> check_policies r)) [
      | inl (u, e) ↦ rw (e, admit) h
      | inr (t, e) ↦ rw (e, admit) h
    ]

    answer_admitted-AllSound :
        (r : AiCoreRequest) (start end_ : ℕ) (x : Router × Result ProviderInfo)
        → AllSound x.0.health_metrics
        → AllSound (answer_admitted sources sdk digest r start end_ x).0.health_metrics
    answer_admitted-AllSound r start end_ (s, throw e) h = h
    answer_admitted-AllSound r start end_ (s, ok p) h = answer-AllSound s r p start end_ h

    -- A request keeps the metrics within their bounds, however it ends: no provider counts more errors
    -- than calls, and none keeps more than 100 latencies. That held of the metrics before.
    pub route_request-AllSound :
        (s : Router) (r : AiCoreRequest) (start end_ : ℕ)
        → AllSound s.health_metrics
        → AllSound (route_request sources sdk digest s r start end_).0.health_metrics
    unfolding route_request take_permit
    route_request-AllSound s r start end_ h =
        let (t, permit) = take_permit s r start in
        if_both (λ (x : Router × Result Response). AllSound x.0.health_metrics) permit
          (λ e. answer_admitted-AllSound r start end_ (admit sources t r) (admit-AllSound t r h))
          (λ e. h)
