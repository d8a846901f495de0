-- ===== src/Router/Policies.antt =====
-- The policies of the router: src/routing/fastpath-router.ts, `validatePolicy`, `applyPolicies`,
-- `getApplicablePolicies`, `evaluatePolicy` and `containsProhibitedContent`. Texts are compared in
-- lower case as ASCII.
use Prim.Native.String.{◌++◌ as str_append}
use cam_protocol.Base.{
  ℕ, String, Bool, true, false, not, ◌&&◌, Option, none, some, List, [], ◌∷◌, ◌++◌, map, ltb, ◌==◌,
  str_eq, if◌then◌else◌, any, filter,
}
use cam_protocol.Errors.{runtime_error, Result, ok, throw, ◌>>=◌}
use cam_protocol.JsMap
use cam_protocol.JsMap.{JsMap}
use cam_protocol.JsText
use cam_protocol.JsText.{contains, codes, includes, mentions}
use cam_protocol.CacheManager.{Value, text, texts, is_truthy, spread}
use cam_protocol.Router.Requests.{AiCoreRequest, as_text, as_number, field}

pub record PolicyValidationRequest : Type 0 where
  pub request : AiCoreRequest
  pub user_id : String
  pub context : JsMap Value

pub record PolicyValidationResult : Type 0 where
  pub allowed : Bool
  pub policies : List String
  pub reason : String

pub record Evaluation : Type 0 where
  pub policy : String
  pub allowed : Bool
  pub reason : String

abbrev pub prohibited_terms : List String
prohibited_terms =
    "illegal activities" ∷ "child exploitation" ∷ "terrorism" ∷ "self-harm instructions"
    ∷ "hate speech" ∷ []

unfoldable pub contains_prohibited_content : String → Bool
contains_prohibited_content content = any (mentions content) prohibited_terms

-- `{ ...base, ...m }`.
unfoldable pub overlay : JsMap Value → JsMap Value → JsMap Value
overlay [] base = base
overlay ((k, v) ∷ m) base = overlay m (JsMap.set k v base)

-- `metadata[k] ? metadata[k] : d`, for a text.
abbrev pub field_or : AiCoreRequest → String → String → String
field_or r k d = JsText.text_or (as_text (field r k)) d

unfoldable pub policy_request : AiCoreRequest → PolicyValidationRequest
unfolding overlay
policy_request r = record {
  request = r;
  user_id = field_or r "userId" "anonymous";
  context = overlay (spread r.metadata) (
      ("resourceId", text (field_or r "resourceId" "default"))
      ∷ ("action", text "generate")
      ∷ ("content", text r.prompt)
      ∷ []);
}

-- `value.includes(name)`: of a list, of a text, and a thrown error where there is no such method.
abbrev pub value_includes : Value → String → Result Bool
value_includes (texts ts) name = ok (contains name ts)
value_includes (text s) name = ok (includes (codes name) (codes s))
value_includes _ name = throw runtime_error

abbrev pub only_if : Bool → String → List String
only_if test policy = if test then policy ∷ [] else []

-- The compliance policies of a value that is truthy.
unfoldable pub compliance_of : Value → Result (List String)
compliance_of v = do
  gdpr ← value_includes v "gdpr"
  hipaa ← value_includes v "hipaa"
  ok (only_if gdpr "gdpr-compliance" ++ only_if hipaa "hipaa-compliance")

abbrev pub compliance_policies : Option Value → Result (List String)
compliance_policies none = ok []
compliance_policies (some v) = if is_truthy (some v) then compliance_of v else ok []

-- `metadata["requestType"] === "ai_completion"`.
abbrev pub is_completion : Option String → Bool
is_completion none = false
is_completion (some s) = str_eq s "ai_completion"

unfoldable pub request_policies : AiCoreRequest → List String
request_policies r =
    if is_completion (as_text (field r "requestType"))
    then "content-safety" ∷ "token-quota" ∷ "prompt-safety" ∷ []
    else "content-safety" ∷ []

unfoldable pub get_applicable_policies : PolicyValidationRequest → Result (List String)
unfolding request_policies compliance_of
get_applicable_policies r = do
  more ← compliance_policies (JsMap.get "compliance" r.context)
  ok (request_policies r.request ++ more)

-- `usage > ((quota as number) || 1000000)`, where there is a usage that is not 0.
unfoldable pub is_over_quota : Option ℕ → Option ℕ → Bool
is_over_quota none quota = false
is_over_quota (some usage) none = ltb 1000000 usage
is_over_quota (some usage) (some quota) = ltb (if quota == 0 then 1000000 else quota) usage

abbrev pub in_context : PolicyValidationRequest → String → Bool
in_context r k = is_truthy (JsMap.get k r.context)

-- Whether the policy finds a violation, and its reason.
unfoldable pub violation : PolicyValidationRequest → String → Option String
violation r policy =
    if str_eq policy "content-safety"
    then if contains_prohibited_content r.request.prompt
      then some "Content contains prohibited material"
      else none
    else if str_eq policy "token-quota"
    then if is_over_quota (as_number (JsMap.get "userTokenUsage" r.context))
        (as_number (JsMap.get "userTokenQuota" r.context))
      then some "Token quota exceeded"
      else none
    else if str_eq policy "gdpr-compliance"
    then if in_context r "containsPII" && not (in_context r "piiConsent")
      then some "GDPR compliance: PII processing requires explicit consent"
      else none
    else if str_eq policy "hipaa-compliance"
    then if in_context r "containsPHI" && not (in_context r "hipaaAuthorization")
      then some "HIPAA compliance: PHI processing requires authorization"
      else none
    else none

unfoldable pub evaluate_policy : PolicyValidationRequest → String → Evaluation
evaluate_policy r policy = elim (violation r policy) [
  | none ↦ record {
    policy = policy;
    allowed = true;
    reason = str_append "Policy " (str_append policy " check passed");
  }
  | some why ↦ record { policy = policy; allowed = false; reason = why }
]

abbrev pub is_denied : Evaluation → Bool
is_denied e = not e.allowed

-- The verdict on the evaluations, by those that deny.
abbrev pub verdict : List String → List Evaluation → PolicyValidationResult
verdict names [] = record {
  allowed = true;
  policies = names;
  reason = "Request complies with all applicable policies";
}
verdict names (e ∷ es) = record {
  allowed = false;
  policies = names;
  reason = str_append "Policy violation: " e.reason;
}

abbrev pub policies_verdict : PolicyValidationRequest → List String → PolicyValidationResult
policies_verdict r [] = record {
  allowed = true;
  policies = "default-allow" ∷ [];
  reason = "No applicable policies found, default allow";
}
policies_verdict r (p ∷ ps) =
    let results = map (evaluate_policy r) (p ∷ ps) in
    verdict (map (λ (e : Evaluation). e.policy) results) (filter is_denied results)

-- The text of the caught error is left out of the reason.
unfoldable pub validate_policy : PolicyValidationRequest → PolicyValidationResult
unfolding get_applicable_policies
validate_policy r = elim (get_applicable_policies r) [
  | ok policies ↦ policies_verdict r policies
  | throw e ↦ record {
    allowed = false;
    policies = "error-handler" ∷ [];
    reason = "Policy validation error";
  }
]

unfoldable pub apply_policies : AiCoreRequest → PolicyValidationResult
unfolding policy_request validate_policy
apply_policies r = validate_policy (policy_request r)
