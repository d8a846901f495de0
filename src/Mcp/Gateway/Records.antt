-- ===== src/Mcp/Gateway/Records.antt =====
-- The records of the gateway: src/mcp/types.ts, and the state of src/mcp/gateway.ts.
use cam_protocol.Base.{ℕ, String, Bool, Option, List}
use cam_protocol.JsMap.{JsMap}
use cam_protocol.CacheManager.{Value}
use cam_protocol.RateLimiter.{RateLimiter, Amount}
use cam_protocol.Mcp.Types.{ServerConfig}
use cam_protocol.Mcp.Registry.{Registry}
use cam_protocol.Mcp.Policies.{McpPolicy, ActionType}
use cam_protocol.Mcp.Arbitration.{ArbitrationDecision}

pub record PolicyAction : Type 0 where
  pub policy_id : String
  pub action : ActionType
  pub reason : String
  pub timestamp : ℕ

pub record ToolCallResult : Type 0 where
  pub trace_id : String
  pub success : Bool
  pub result : Option (JsMap Value)
  pub error : Option String
  pub server_id : String
  pub tool_id : String
  pub latency_ms : ℕ
  pub cost : ℕ
  pub policy_actions : List PolicyAction
  pub timestamp : ℕ

pub data AuditAction : Type 0 where
  tool_call resource_access prompt_use policy_violation : AuditAction

-- The tool of the decision is kept as it was when it was chosen.
pub record AuditRecord : Type 0 where
  pub trace_id : String
  pub timestamp : ℕ
  pub tenant_id : String
  pub user_id : Option String
  pub action : AuditAction
  pub tool_name : Option String
  pub arguments : Option (JsMap Value)
  pub decision : ArbitrationDecision
  pub result : Option ToolCallResult
  pub policy_actions : List PolicyAction

pub data GatewayEvent : Type 0 where
  tool_called : String → String → Bool → GatewayEvent
  policy_violated : String → String → String → GatewayEvent
  rate_limited : String → Amount → GatewayEvent

pub record GatewayConfig : Type 0 where
  pub servers : List ServerConfig
  pub policies : List McpPolicy
  pub max_retries : Option ℕ
  pub retry_delay_ms : Option ℕ
  pub audit_enabled : Bool
  pub retention_days : ℕ
  pub include_arguments : Bool
  pub include_results : Bool
  pub rate_limit_enabled : Bool
  pub requests_per_minute : ℕ

pub record Gateway : Type 0 where
  pub registry : Registry
  pub rate_limiter : RateLimiter
  pub policies : JsMap McpPolicy
  pub audit_log : List AuditRecord
  pub config : GatewayConfig
  pub events : List GatewayEvent
