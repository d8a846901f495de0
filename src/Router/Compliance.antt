-- ===== src/Router/Compliance.antt =====
-- What the policies let through, and that nothing else reaches a provider.
use cam_protocol.Base.{
  ℕ, ◌≡◌, refl, String, Bool, true, false, not, ◌&&◌, ◌||◌, Option, none, some, List, [], ◌∷◌, ◌++◌,
  arith, if◌then◌else◌, any, filter, map, ◌∙◌, if_both, Bool-cases, Option-cases, inl, inr,
}
use cam_protocol.Errors.{Thrown, runtime_error, Result, ok, throw, ◌>>=◌, ◌>>◌}
use cam_protocol.JsMap
use cam_protocol.JsText.{is_truthy, codes, includes, contains}
use cam_protocol.CacheManager
use cam_protocol.CacheManager.{Value, text, number, flag, texts, null, object, KeyData, Response}
use cam_protocol.Router.Requests.{AiCoreRequest, as_text, as_number, field}
use cam_protocol.Router.Policies.{
  PolicyValidationRequest, contains_prohibited_content, policy_request, compliance_of,
  compliance_policies, is_completion, request_policies, get_applicable_policies, is_over_quota,
  in_context, violation, evaluate_policy, is_denied, verdict, policies_verdict, validate_policy,
  apply_policies, only_if,
}
use cam_protocol.Router.Providers.{Sources}
use cam_protocol.Router.Execute.{Router, Sdk}
use cam_protocol.RateLimiter.{check_limit}
use cam_protocol.Router.{
  user_of, tier_of, take_permit, validate_request, check_policies, admit, route_request,
}

-- The regulation is asked for.
abbrev pub asks_for : Option Value → String → Bool
asks_for none name = false
asks_for (some (texts ts)) name = contains name ts
asks_for (some (text s)) name = includes (codes name) (codes s) && is_truthy s
asks_for (some _) name = false

-- The regulations can be read.
abbrev pub is_readable : Option Value → Bool
is_readable (some (number n)) = not (CacheManager.is_truthy (some (number n)))
is_readable (some (flag b)) = not b
is_readable (some object) = false
is_readable _ = true

-- The rules that a request has to keep, whatever the policies are called.
unfoldable pub complies : PolicyValidationRequest → Bool
complies q =
    let regulations = JsMap.get "compliance" q.context in
    is_readable regulations
    && not (contains_prohibited_content q.request.prompt)
    && not (
        is_completion (as_text (field q.request "requestType"))
        && is_over_quota (as_number (JsMap.get "userTokenUsage" q.context))
            (as_number (JsMap.get "userTokenQuota" q.context)))
    && not (
        asks_for regulations "gdpr"
        && in_context q "containsPII"
        && not (in_context q "piiConsent"))
    && not (
        asks_for regulations "hipaa"
        && in_context q "containsPHI"
        && not (in_context q "hipaaAuthorization"))

abbrev is_violated : PolicyValidationRequest → String → Bool
is_violated q policy = elim (violation q policy) [ none ↦ false | some why ↦ true ]

is_denied-evaluate :
    (q : PolicyValidationRequest) (policy : String)
    → is_denied (evaluate_policy q policy) ≡ is_violated q policy
unfolding evaluate_policy
is_denied-evaluate q policy = elim (Option-cases (violation q policy)) [
  | inl e ↦ ground arith
  | inr (w, e) ↦ ground arith
]

verdict-filter :
    (q : PolicyValidationRequest) (names ps : List String)
    → (verdict names (filter is_denied (map (evaluate_policy q) ps))).allowed
      ≡ not (any (is_violated q) ps)
verdict-filter q names [] = refl
verdict-filter q names (p ∷ ps) = elim (Bool-cases (is_violated q p)) [
  | inl e ↦ ground (arith, is_denied-evaluate q p)
  | inr e ↦ ground (arith, is_denied-evaluate q p, verdict-filter q names ps)
]

policies_verdict-allowed :
    (q : PolicyValidationRequest) (ps : List String)
    → (policies_verdict q ps).allowed ≡ not (any (is_violated q) ps)
policies_verdict-allowed q [] = refl
policies_verdict-allowed q (p ∷ ps) = verdict-filter q _ (p ∷ ps)

compliance_policies_lem :
    (v : Option Value)
    → compliance_policies v ≡ (
        if is_readable v
        then ok (
            only_if (asks_for v "gdpr") "gdpr-compliance"
            ++ only_if (asks_for v "hipaa") "hipaa-compliance")
        else throw runtime_error)
unfolding compliance_of CacheManager.is_truthy
compliance_policies_lem none = refl
compliance_policies_lem (some (text s)) = ground arith
compliance_policies_lem (some (number n)) = ground arith
compliance_policies_lem (some (flag b)) = ground arith
compliance_policies_lem (some (texts ts)) = refl
compliance_policies_lem (some null) = refl
compliance_policies_lem (some object) = refl

any-append : (p : String → Bool) (xs ys : List String) → any p (xs ++ ys) ≡ (any p xs || any p ys)
any-append p [] ys = refl
any-append p (x ∷ xs) ys = ground (arith, any-append p xs ys)

module _ (q : PolicyValidationRequest) where
  abbrev regulations : Option Value
  regulations = JsMap.get "compliance" q.context

  abbrev more : List String
  more =
      only_if (asks_for regulations "gdpr") "gdpr-compliance"
      ++ only_if (asks_for regulations "hipaa") "hipaa-compliance"

  get_applicable_policies_lem : get_applicable_policies q ≡ (
      if is_readable regulations
      then ok (request_policies q.request ++ more)
      else throw runtime_error)
  unfolding get_applicable_policies
  get_applicable_policies_lem = rw (compliance_policies_lem regulations) (
      if_both
        (λ (r : Result (List String)). (r >>= λ m. ok (request_policies q.request ++ m)) ≡ (
          if is_readable regulations
          then ok (request_policies q.request ++ more)
          else throw runtime_error))
        (is_readable regulations) (λ e. rw e refl) (λ e. rw e refl))

  any_violated :
      is_readable regulations ≡ true
      → not (any (is_violated q) (request_policies q.request ++ more)) ≡ complies q
  unfolding request_policies violation complies
  any_violated readable = ground (
    arith,
    any-append (is_violated q) (request_policies q.request) more,
    any-append (is_violated q) (only_if (asks_for regulations "gdpr") "gdpr-compliance")
        (only_if (asks_for regulations "hipaa") "hipaa-compliance"),
  )

  -- The policies allow a request exactly when it keeps the rules: its compliance field can be read,
  -- its prompt has no prohibited term, a completion is within its quota, and personal and health data
  -- come with the consent or the authorization that the regulations it names ask for.
  pub validate_policy-complies : (validate_policy q).allowed ≡ complies q
  unfolding validate_policy complies
  validate_policy-complies = elim (Bool-cases (is_readable regulations)) [
    | inl e ↦
        let p : get_applicable_policies q ≡ ok (request_policies q.request ++ more) =
          get_applicable_policies_lem ∙ rw e refl in
        rw (p, validate_policy)
          (policies_verdict-allowed q (request_policies q.request ++ more) ∙ any_violated e)
    | inr e ↦
        let p : get_applicable_policies q ≡ throw runtime_error =
          get_applicable_policies_lem ∙ rw e refl in
        rw (p, validate_policy) (ground arith)
  ]

validate_request_throws :
    (r : AiCoreRequest)
    → is_truthy r.prompt ≡ false
    → (e : Thrown) × ((validate_request r >> check_policies r) ≡ throw e)
unfolding validate_request
validate_request_throws r h = rw h (_, refl)

check_policies_throws :
    (r : AiCoreRequest)
    → is_truthy r.prompt ≡ true
    → complies (policy_request r) ≡ false
    → (e : Thrown) × ((validate_request r >> check_policies r) ≡ throw e)
unfolding validate_request check_policies apply_policies
check_policies_throws r h bad = rw (h, validate_policy-complies (policy_request r), bad) (_, refl)

admit_refused :
    (sources : Sources) (s : Router) (r : AiCoreRequest)
    → (is_truthy r.prompt && complies (policy_request r)) ≡ false
    → (e : Thrown) × (admit sources s r ≡ (s, throw e))
unfolding admit
admit_refused sources s r bad = elim (Bool-cases (is_truthy r.prompt)) [
  | inl e ↦ let (t, eq) = check_policies_throws r e (ground arith) in (t, rw (eq, admit) refl)
  | inr e ↦ let (t, eq) = validate_request_throws r e in (t, rw (eq, admit) refl)
]

-- A request whose prompt is missing or that breaks the rules reaches no provider and no cache: it ends
-- in an error, whatever the limiter says, and nothing but the limiter has changed.
pub route_request_refused :
    (sources : Sources) (sdk : Sdk) (digest : KeyData → String) (s : Router) (r : AiCoreRequest)
    (start end_ : ℕ)
    → (is_truthy r.prompt && complies (policy_request r)) ≡ false
    → let (q, answer) = route_request sources sdk digest s r start end_ in
      ((e : Thrown) × (answer ≡ throw e)) × (q ≡ record s { rate_limiter = q.rate_limiter })
unfolding route_request take_permit
route_request_refused sources sdk digest s r start end_ bad =
    let (limiter, result) =
      check_limit s.rate_limiter (user_of r) none (tier_of (as_text (field r "subscriptionTier")))
        start in
    let (t, eq) = admit_refused sources (record s { rate_limiter = limiter }) r bad in
    if_both
      (λ (x : Router × Result Response).
        let (q, answer) = x in
        ((e : Thrown) × (answer ≡ throw e)) × (q ≡ record s { rate_limiter = q.rate_limiter }))
      result.allowed (λ e. rw eq ((t, refl), refl)) (λ e. ((_, refl), refl))
