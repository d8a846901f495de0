-- ===== src/Mcp/Gateway.antt =====
-- The gateway: src/mcp/gateway.ts, class `MCPGateway`. A call takes the clock's reading when it comes
-- and the id of its trace; the time that the server and the waits take is added to the clock. The
-- events are kept in the order in which the handlers get them. The telemetry only watches.
mod Records
mod Reports
unfoldable pub use Records.*
unfoldable pub use Reports.*
use cam_protocol.Base.{
  ℕ, zero, suc, ◌+◌, ◌-◌, ◌*◌, String, Bool, true, false, ◌||◌, Option, none, some, List, [], ◌∷◌,
  ◌++◌, ltb, leb, ◌==◌, str_eq, if◌then◌else◌, length, filter,
}
use Prim.Native.String.{◌++◌ as str_append}
use cam_protocol.JsMap
use cam_protocol.JsMap.{JsMap}
use cam_protocol.JsText.{codes, includes, text_or, truthy}
use cam_protocol.CacheManager.{Value, given_or}
use cam_protocol.RateLimiter
use cam_protocol.RateLimiter.{RateLimiter, RateLimitStats, Amount, check_limit}
use cam_protocol.Mcp.Types.{
  Outcome, returned, raised, ServerConfig, RegisteredTool, ToolCallRequest,
}
use cam_protocol.Mcp.Client
use cam_protocol.Mcp.Client.{McpSdk, McpClient}
use cam_protocol.Mcp.Registry
use cam_protocol.Mcp.Registry.{Registry, RegistryStats, get_client}
use cam_protocol.Mcp.Metrics.{succeeded, failed, update_tool_metrics}
use cam_protocol.Mcp.Policies.{Patterns, McpPolicy, ActionType, deny}
use cam_protocol.Mcp.Arbitration.{ArbitrationDecision, arbitrate}

unfoldable pub load_policies : JsMap McpPolicy → List McpPolicy → JsMap McpPolicy
load_policies m [] = m
load_policies m (p ∷ ps) = load_policies (JsMap.set p.id p m) ps

-- `is_test` is `process.env["NODE_ENV"] === "test"`.
unfoldable pub init : GatewayConfig → Bool → Gateway
unfolding load_policies
init config is_test = record {
  registry = Registry.init;
  rate_limiter =
      RateLimiter.init
        (record {
          enabled = config.rate_limit_enabled;
          requests_per_minute = config.requests_per_minute;
          requests_per_minute_by_tier = none;
          provider_limits_per_minute = none;
        })
        is_test;
  policies = load_policies [] config.policies;
  audit_log = [];
  config = config;
  events = [];
}

abbrev pub emit_event : GatewayEvent → Gateway → Gateway
emit_event e s = record s { events = s.events ++ e ∷ [] }

-- `timestamp > now - maxAge`.
abbrev pub is_kept : ℕ → ℕ → AuditRecord → Bool
is_kept days now a = ltb now (a.timestamp + days * 86400000)

unfoldable pub record_audit : Gateway → AuditRecord → ℕ → Gateway
record_audit s a now =
    if s.config.audit_enabled
    then record s {
      audit_log = filter (is_kept s.config.retention_days now) (s.audit_log ++ a ∷ []);
    }
    else s

-- What went wrong, of no tool or of one.
unfoldable pub create_error_result :
    String → ℕ → ℕ → String → List PolicyAction → Option RegisteredTool → ToolCallResult
create_error_result trace_id start now error actions tool = record {
  trace_id = trace_id;
  success = false;
  result = none;
  error = some error;
  server_id = elim tool [ none ↦ "unknown" | some t ↦ text_or (some t.server_id) "unknown" ];
  tool_id = elim tool [ none ↦ "unknown" | some t ↦ text_or (some t.id) "unknown" ];
  latency_ms = now - start;
  cost = 0;
  policy_actions = actions;
  timestamp = now;
}

unfoldable pub is_transient : String → Bool
is_transient message =
    let text = codes message in
    includes (codes "timed out") text
    || includes (codes "ECONNREFUSED") text
    || includes (codes "ETIMEDOUT") text
    || includes (codes "connection error") text

-- `{...}`, the record without a result.
abbrev pub audit_of : Gateway → ToolCallRequest → String → ArbitrationDecision → ℕ → AuditRecord
audit_of s r trace_id decision now = record {
  trace_id = trace_id;
  timestamp = now;
  tenant_id = r.tenant_id;
  user_id = r.user_id;
  action = tool_call;
  tool_name = some r.tool_name;
  arguments = if s.config.include_arguments then some r.arguments else none;
  decision = decision;
  result = none;
  policy_actions = [];
}

unfoldable pub max_retries : Gateway → ℕ
max_retries s = given_or s.config.max_retries 0

unfoldable pub retry_delay_ms : Gateway → ℕ
retry_delay_ms s = given_or s.config.retry_delay_ms 500

abbrev pub denial : String → ℕ → PolicyAction
denial reason now = record {
  policy_id = "arbitration";
  action = deny;
  reason = reason;
  timestamp = now;
}

-- The end of a call that no tool may answer.
unfoldable pub deny_call :
    Gateway → ToolCallRequest → String → ArbitrationDecision → ℕ → Gateway × ToolCallResult
unfolding record_audit create_error_result
deny_call s r trace_id decision now =
    let actions = denial decision.reason now ∷ [] in
    let audited =
      record_audit s (record (audit_of s r trace_id decision now) { policy_actions = actions })
        now in
    (
      emit_event (policy_violated trace_id "arbitration" decision.reason) audited,
      create_error_result trace_id now now decision.reason actions none,
    )

unfoldable pub tool_result :
    Gateway → RegisteredTool → String → ArbitrationDecision → ℕ → ℕ → JsMap Value → ToolCallResult
tool_result s t trace_id decision start now x = record {
  trace_id = trace_id;
  success = true;
  result = if s.config.include_results then some x else none;
  error = none;
  server_id = t.server_id;
  tool_id = t.id;
  latency_ms = now - start;
  cost = given_or decision.estimated_cost 0;
  policy_actions = [];
  timestamp = now;
}

-- The end of a call, by what the attempts came to.
unfoldable pub finish_call :
    Gateway
    → ToolCallRequest
    → RegisteredTool
    → String
    → ArbitrationDecision
    → ℕ
    → ℕ × Outcome (JsMap Value)
    → Gateway × ToolCallResult
unfolding record_audit tool_result create_error_result
finish_call s r t trace_id decision start (now, returned x) =
    let a = tool_result s t trace_id decision start now x in
    let counted = record s {
      registry = update_tool_metrics s.registry t.id (succeeded (now - start)) now;
    } in
    (
      emit_event (tool_called trace_id t.id true) (
          record_audit counted (record (audit_of s r trace_id decision start) { result = some a })
            now),
      a,
    )
finish_call s r t trace_id decision start (now, raised e) =
    let error = text_or (some e) "Unknown error" in
    let counted = record s {
      registry = update_tool_metrics s.registry t.id (failed (now - start) error) now;
    } in
    (
      emit_event (tool_called trace_id (text_or (some t.id) r.tool_name) false) counted,
      create_error_result trace_id start now error [] (some t),
    )

-- The rate limit of the tenant, where there is one.
unfoldable pub take_permit : Gateway → ToolCallRequest → ℕ → Gateway × Bool
take_permit s r now =
    if s.config.rate_limit_enabled
    then (let (limiter, result) = check_limit s.rate_limiter r.tenant_id none none now in
        let checked = record s { rate_limiter = limiter } in
        if result.allowed
        then (checked, true)
        else (emit_event (rate_limited r.tenant_id result.limit) checked, false))
    else (s, true)

module _ (sdk : McpSdk) where
  -- A call of the server, with the clock after it.
  unfoldable pub call_server :
      Gateway → RegisteredTool → ToolCallRequest → ℕ → ℕ × Outcome (JsMap Value)
  call_server s t r clock = elim (get_client s.registry t.server_id) [
    | none ↦ (clock, raised (str_append "Server not connected: " t.server_id))
    | some c ↦
        let (passed, outcome) = Client.call_tool sdk c t.tool.name r.arguments clock in
        (clock + passed, outcome)
  ]

  -- The attempt of the number, after its wait.
  unfoldable pub attempt :
      Gateway → RegisteredTool → ToolCallRequest → ℕ → ℕ → ℕ × Outcome (JsMap Value)
  unfolding call_server retry_delay_ms
  attempt s t r number clock = call_server s t r (clock + retry_delay_ms s * number)

  abbrev pub retry_or :
      ℕ × Outcome (JsMap Value) → ℕ × Outcome (JsMap Value) → ℕ × Outcome (JsMap Value)
  retry_or (clock, returned x) rest = (clock, returned x)
  retry_or (clock, raised e) rest = if is_transient e then rest else (clock, raised e)

  -- The loop from the attempt of the number on, with as many more as are left.
  unfoldable pub attempts :
      Gateway → RegisteredTool → ToolCallRequest → ℕ → ℕ → ℕ → ℕ × Outcome (JsMap Value)
  unfolding attempt is_transient
  attempts s t r zero number clock = attempt s t r number clock
  attempts s t r (suc left) number clock =
      let tried = attempt s t r number clock in
      retry_or tried (attempts s t r left (suc number) tried.0)

  module _ (patterns : Patterns) where
    unfoldable pub execute_call :
        Gateway → ToolCallRequest → String → ArbitrationDecision → ℕ → Gateway × ToolCallResult
    unfolding deny_call finish_call attempts max_retries
    execute_call s r trace_id decision now = elim decision.selected_tool [
      | none ↦ deny_call s r trace_id decision now
      | some t ↦ finish_call s r t trace_id decision now (attempts s t r (max_retries s) 0 now)
    ]

    abbrev pub call_permitted :
        ToolCallRequest → String → ℕ → Gateway × Bool → Gateway × ToolCallResult
    call_permitted r trace_id now (s, false) =
        (s, create_error_result trace_id now now "Rate limit exceeded" [] none)
    call_permitted r trace_id now (s, true) =
        execute_call s r trace_id (arbitrate patterns s.policies s.registry r trace_id) now

    unfoldable pub call_tool : Gateway → ToolCallRequest → String → ℕ → Gateway × ToolCallResult
    unfolding take_permit execute_call create_error_result
    call_tool s r trace_id now = call_permitted r trace_id now (take_permit s r now)

  abbrev pub add_servers : Registry → List ServerConfig → ℕ → Registry
  add_servers s [] now = s
  add_servers s (c ∷ cs) now = add_servers (Registry.add_server sdk s c now) cs now

  unfoldable pub initialize : Gateway → ℕ → Gateway
  initialize s now = record s { registry = add_servers s.registry s.config.servers now }

unfoldable pub shutdown : Gateway → Gateway
shutdown s = record s {
  registry = Registry.shutdown s.registry;
  rate_limiter = RateLimiter.shutdown s.rate_limiter;
}
