-- ===== src/Mcp/Arbitration.antt =====
-- The choice of a tool: src/mcp/gateway.ts, `arbitrate` and `scoreTool`. A score is a fraction, 10000
-- times the source's, of the calls that the success rate is of.
use cam_protocol.Base.{
  ℕ, suc, ◌+◌, ◌-◌, ◌*◌, min, String, Bool, true, false, Option, none, some, List, [], ◌∷◌, ◌++◌,
  ltb, leb, str_eq, if◌then◌else◌, filter, take, sort_by,
}
use Prim.Native.String.{◌++◌ as str_append}
use cam_protocol.JsMap.{JsMap}
use cam_protocol.Mcp.Types.{
  TrustTier, untrusted, standard, trusted, privileged, Share, RegisteredTool, ToolCallRequest,
  CallContext,
}
use cam_protocol.Mcp.Registry.{Registry, Criteria, find_tools}
use cam_protocol.Mcp.Policies.{Patterns, McpPolicy, evaluate_policies}

pub record ArbitrationDecision : Type 0 where
  pub allowed : Bool
  pub selected_tool : Option RegisteredTool
  pub reason : String
  pub policy_references : List String
  pub trace_id : String
  pub alternative_tools : Option (List RegisteredTool)
  pub estimated_cost : Option ℕ
  pub estimated_latency : Option ℕ

abbrev pub trust_bonus : TrustTier → ℕ
trust_bonus privileged = 20
trust_bonus trusted = 15
trust_bonus standard = 10
trust_bonus untrusted = 0

abbrev pub latency_penalty : Option ℕ → ℕ
latency_penalty none = 0
latency_penalty (some l) = min (l * 100) 200000

abbrev pub preferred_server : Option CallContext → Option String
preferred_server none = none
preferred_server (some c) = c.preferred_server

abbrev pub max_cost : Option CallContext → Option ℕ
max_cost none = none
max_cost (some c) = c.max_cost

abbrev pub is_preferred : Option String → String → Bool
is_preferred none server = false
is_preferred (some preferred) server = str_eq preferred server

-- The score without the success rate. The penalties are at most half of the first 100.
unfoldable pub base_score : RegisteredTool → ToolCallRequest → ℕ
base_score t r =
    1000000
    + trust_bonus t.trust_tier * 10000
    - (if ltb 0 t.cost_estimate then min t.cost_estimate 300000 else 0)
    - latency_penalty t.latency_p50
    + (if is_preferred (preferred_server r.context) t.server_id then 250000 else 0)

-- With 20 for the success rate.
abbrev pub with_success : ℕ → Option Share → Share
with_success score none = record { part = score; calls_before = 0 }
with_success score (some rate) = record {
  part = score * suc rate.calls_before + 200000 * rate.part;
  calls_before = rate.calls_before;
}

unfoldable pub score_tool : RegisteredTool → ToolCallRequest → Share
unfolding base_score
score_tool t r = with_success (base_score t r) t.success_rate

abbrev pub is_at_least : Share → Share → Bool
is_at_least a b = leb (b.part * suc a.calls_before) (a.part * suc b.calls_before)

abbrev pub by_score : ToolCallRequest → RegisteredTool → RegisteredTool → Bool
by_score r a b = is_at_least (score_tool a r) (score_tool b r)

-- The fields of `findCriteria`.
abbrev pub criteria_of : ToolCallRequest → Criteria
criteria_of r = record {
  name = some r.tool_name;
  tags = none;
  trust_tier = none;
  max_cost = max_cost r.context;
  data_classifications = none;
  server_id = preferred_server r.context;
}

abbrev pub refuse : String → List String → String → ArbitrationDecision
refuse reason references trace_id = record {
  allowed = false;
  selected_tool = none;
  reason = reason;
  policy_references = references;
  trace_id = trace_id;
  alternative_tools = none;
  estimated_cost = none;
  estimated_latency = none;
}

-- The first of the sorted tools.
abbrev pub select : List RegisteredTool → List String → String → ArbitrationDecision
select [] references trace_id = refuse "All matching tools blocked by policy" references trace_id
select (t ∷ ts) references trace_id = record {
  allowed = true;
  selected_tool = some t;
  reason = "Tool selected by arbitration";
  policy_references = references;
  trace_id = trace_id;
  alternative_tools = some (take 3 ts);
  estimated_cost = some t.cost_estimate;
  estimated_latency = t.latency_p50;
}

module _ (patterns : Patterns) (policies : JsMap McpPolicy) where
  abbrev pub is_allowed : ToolCallRequest → RegisteredTool → Bool
  is_allowed r t = (evaluate_policies patterns policies t r).allowed

  abbrev pub all_references : ToolCallRequest → List RegisteredTool → List String
  all_references r [] = []
  all_references r (t ∷ ts) =
      (evaluate_policies patterns policies t r).references ++ all_references r ts

  abbrev pub arbitrate_among : ToolCallRequest → List RegisteredTool → String → ArbitrationDecision
  arbitrate_among r [] trace_id =
      refuse (str_append "No tool found matching: " r.tool_name) [] trace_id
  arbitrate_among r (t ∷ ts) trace_id =
      select (sort_by (by_score r) (filter (is_allowed r) (t ∷ ts))) (all_references r (t ∷ ts))
        trace_id

  unfoldable pub arbitrate : Registry → ToolCallRequest → String → ArbitrationDecision
  arbitrate s r trace_id = arbitrate_among r (find_tools s (criteria_of r)) trace_id
