-- ===== src/Mcp/Types.antt =====
-- What the MCP parts share: src/mcp/types.ts, and the errors, which are plain ones with a text. Costs
-- are whole numbers of 1/10^5 dollar.
use cam_protocol.Base.{ℕ, String, Bool, Option, List, ◌≡◌, ◌⊎◌, refl, inl, inr}
use cam_protocol.JsMap.{JsMap}
use cam_protocol.CacheManager.{Value}

-- What a call that may throw gives: a value, or the text of an error.
pub data Outcome {ℓ} (A : Type ℓ) : Type ℓ where
  returned : A → Outcome A
  raised : String → Outcome A

pub Outcome-cases {ℓ} :
    {A : Type ℓ} (m : Outcome A) → ((a : A) × (m ≡ returned a)) ⊎ ((e : String) × (m ≡ raised e))
Outcome-cases (returned a) = inl (a, refl)
Outcome-cases (raised e) = inr (e, refl)

pub data Transport : Type 0 where
  stdio sse http : Transport

pub data TrustTier : Type 0 where
  untrusted standard trusted privileged : TrustTier

pub record ServerConfig : Type 0 where
  pub id : String
  pub name : String
  pub transport : Transport
  pub endpoint : Option String
  pub command : Option String
  pub trust_tier : TrustTier
  pub data_classifications : Option (List String)
  pub cost_per_call : Option ℕ
  pub timeout : Option ℕ
  pub enabled : Bool

-- The kinds that the MCP package gives, with the fields that are read.
pub record Tool : Type 0 where
  pub name : String
  pub description : Option String

pub record Resource : Type 0 where
  pub uri : String

pub record Prompt : Type 0 where
  pub name : String

-- `1 - errors / calls`: the calls that went well, of those before the last one and the last one.
pub record Share : Type 0 where
  pub part : ℕ
  pub calls_before : ℕ

pub record RegisteredTool : Type 0 where
  pub id : String
  pub server_id : String
  pub tool : Tool
  pub trust_tier : TrustTier
  pub data_classifications : List String
  pub cost_estimate : ℕ
  pub latency_p50 : Option ℕ
  pub latency_p95 : Option ℕ
  pub latency_p99 : Option ℕ
  pub latencies : Option (List ℕ)
  pub success_rate : Option Share
  pub error_count : Option ℕ
  pub call_count : ℕ
  pub last_used : Option ℕ
  pub last_error : Option String
  pub last_error_time : Option ℕ
  pub tags : List String

pub record RegisteredResource : Type 0 where
  pub id : String
  pub server_id : String
  pub resource : Resource
  pub data_classifications : List String

pub record RegisteredPrompt : Type 0 where
  pub id : String
  pub server_id : String
  pub prompt : Prompt

pub record ServerConnection : Type 0 where
  pub config : ServerConfig
  pub is_connected : Bool
  pub tool_count : ℕ
  pub resource_count : ℕ
  pub prompt_count : ℕ

pub record CallContext : Type 0 where
  pub max_cost : Option ℕ
  pub preferred_server : Option String

pub record ToolCallRequest : Type 0 where
  pub tool_name : String
  pub arguments : JsMap Value
  pub tenant_id : String
  pub user_id : Option String
  pub context : Option CallContext
