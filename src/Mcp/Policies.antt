-- ===== src/Mcp/Policies.antt =====
-- The policies of the gateway: src/mcp/gateway.ts, `evaluatePolicies`, `evaluateConditions`,
-- `getConditionValue` and `evaluateCondition`. The language's `String(x)` and its regular expressions
-- are the parameter `patterns`. A list that a condition expects is a list of
-- texts, and a number a cost. Priorities are natural numbers.
use cam_protocol.Base.{
  ℕ, String, Bool, true, false, not, ◌&&◌, Option, none, some, List, [], ◌∷◌, ltb, leb, ◌==◌,
  str_eq, if◌then◌else◌, length, take, every, sort_by,
}
use cam_protocol.JsMap
use cam_protocol.JsMap.{JsMap}
use cam_protocol.JsText.{codes, contains as has_text}
use cam_protocol.CacheManager.{Value, text, number, flag, texts, null}
use cam_protocol.Mcp.Types.{
  TrustTier, untrusted, standard, trusted, privileged, RegisteredTool, ToolCallRequest,
}

pub data Operator : Type 0 where
  eq neq in_ not_in gt lt contains matches : Operator

pub record Condition : Type 0 where
  pub field : String
  pub operator : Operator
  pub value : Option Value

pub data ActionType : Type 0 where
  allow deny redact log alert rate_limit require_approval : ActionType

pub record McpPolicy : Type 0 where
  pub id : String
  pub name : String
  pub priority : ℕ
  pub enabled : Bool
  pub conditions : List Condition
  pub actions : List ActionType

-- `String(x)`, and whether the pattern matches somewhere, `none` where it is no pattern.
pub record Patterns : Type 0 where
  pub to_text : Option Value → String
  pub test : String → List ℕ → Option Bool

abbrev pub tier_name : TrustTier → String
tier_name untrusted = "untrusted"
tier_name standard = "standard"
tier_name trusted = "trusted"
tier_name privileged = "privileged"

abbrev pub text_value : Option String → Option Value
text_value none = none
text_value (some t) = some (text t)

unfoldable pub get_condition_value : String → RegisteredTool → ToolCallRequest → Option Value
get_condition_value field t r =
    if str_eq field "tool.name"
    then some (text t.tool.name)
    else if str_eq field "tool.trustTier"
    then some (text (tier_name t.trust_tier))
    else if str_eq field "tool.dataClassifications"
    then some (texts t.data_classifications)
    else if str_eq field "tool.costEstimate"
    then some (number t.cost_estimate)
    else if str_eq field "tool.tags"
    then some (texts t.tags)
    else if str_eq field "request.tenantId"
    then some (text r.tenant_id)
    else if str_eq field "request.userId"
    then text_value r.user_id
    else none

-- `===`. Two lists are two objects.
abbrev pub strictly_equal : Option Value → Option Value → Bool
strictly_equal none none = true
strictly_equal (some (text a)) (some (text b)) = str_eq a b
strictly_equal (some (number a)) (some (number b)) = a == b
strictly_equal (some (flag a)) (some (flag b)) = if a then b else not b
strictly_equal (some null) (some null) = true
strictly_equal _ _ = false

-- `xs.includes(x)` on a list of texts.
abbrev pub list_includes : List String → Option Value → Bool
list_includes ts (some (text t)) = has_text t ts
list_includes ts _ = false

abbrev pub is_in : Option Value → Option Value → Bool
is_in actual (some (texts ts)) = list_includes ts actual
is_in actual _ = false

abbrev pub is_not_in : Option Value → Option Value → Bool
is_not_in actual (some (texts ts)) = not (list_includes ts actual)
is_not_in actual _ = false

abbrev pub is_less : Option Value → Option Value → Bool
is_less (some (number a)) (some (number b)) = ltb a b
is_less _ _ = false

abbrev pub is_deny : ActionType → Bool
is_deny deny = true
is_deny _ = false

-- `actions.includes("deny")`.
unfoldable pub denies : List ActionType → Bool
denies [] = false
denies (a ∷ as_) = if is_deny a then true else denies as_

abbrev pub or_false : Option Bool → Bool
or_false none = false
or_false (some b) = b

pub record PolicyResult : Type 0 where
  pub allowed : Bool
  pub references : List String

-- The policy with the higher priority comes first; of two alike, the one that was added first.
abbrev pub by_priority : McpPolicy → McpPolicy → Bool
by_priority a b = leb b.priority a.priority

abbrev pub refer : String → PolicyResult → PolicyResult
refer id v = record v { references = id ∷ v.references }

module _ (patterns : Patterns) where
  -- At most 200 characters of a pattern, and the first 10000 of a text.
  unfoldable pub matches_pattern : Option Value → Option Value → Bool
  matches_pattern (some (text t)) expected =
      let pattern = patterns.to_text expected in
      if ltb 200 (length (codes pattern))
      then false
      else or_false (patterns.test pattern (take 10000 (codes t)))
  matches_pattern _ expected = false

  unfoldable pub evaluate_condition : Operator → Option Value → Option Value → Bool
  unfolding matches_pattern
  evaluate_condition eq actual expected = strictly_equal actual expected
  evaluate_condition neq actual expected = not (strictly_equal actual expected)
  evaluate_condition in_ actual expected = is_in actual expected
  evaluate_condition not_in actual expected = is_not_in actual expected
  evaluate_condition gt actual expected = is_less expected actual
  evaluate_condition lt actual expected = is_less actual expected
  evaluate_condition contains actual expected = is_in expected actual
  evaluate_condition matches actual expected = matches_pattern actual expected

  unfoldable pub evaluate_conditions : List Condition → RegisteredTool → ToolCallRequest → Bool
  unfolding evaluate_condition get_condition_value
  evaluate_conditions cs t r =
      every
        (λ (c : Condition). evaluate_condition c.operator (get_condition_value c.field t r) c.value)
        cs

  abbrev pub is_applied : RegisteredTool → ToolCallRequest → McpPolicy → Bool
  is_applied t r p = p.enabled && evaluate_conditions p.conditions t r

  -- The loop over the sorted policies, which a policy that denies ends.
  unfoldable pub run_policies : List McpPolicy → RegisteredTool → ToolCallRequest → PolicyResult
  unfolding evaluate_conditions denies
  run_policies [] t r = record { allowed = true; references = [] }
  run_policies (p ∷ ps) t r =
      let rest = run_policies ps t r in
      if is_applied t r p
      then if denies p.actions
        then record { allowed = false; references = p.id ∷ [] }
        else refer p.id rest
      else rest

  unfoldable pub evaluate_policies :
      JsMap McpPolicy → RegisteredTool → ToolCallRequest → PolicyResult
  unfolding run_policies
  evaluate_policies policies t r = run_policies (sort_by by_priority (JsMap.values policies)) t r
