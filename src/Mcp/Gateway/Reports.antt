-- ===== src/Mcp/Gateway/Reports.antt =====
-- What the gateway reports, and its policies: src/mcp/gateway.ts, from `getAuditLog` on.
use cam_protocol.Base.{
  ℕ, String, Bool, true, Option, none, some, List, ltb, leb, ◌==◌, str_eq, if◌then◌else◌, length,
  filter,
}
use cam_protocol.JsMap
use cam_protocol.JsMap.{JsMap}
use cam_protocol.JsText.{truthy}
use cam_protocol.RateLimiter
use cam_protocol.RateLimiter.{RateLimiter, RateLimitStats, Amount, check_limit}
use cam_protocol.Mcp.Registry
use cam_protocol.Mcp.Registry.{Registry, RegistryStats, get_client}
use cam_protocol.Mcp.Policies.{McpPolicy}
use cam_protocol.Mcp.Gateway.Records.{AuditRecord, Gateway}

pub record AuditFilter : Type 0 where
  pub tenant_id : Option String
  pub start_time : Option ℕ
  pub end_time : Option ℕ

abbrev pub fits_tenant : Option String → AuditRecord → Bool
fits_tenant none a = true
fits_tenant (some tenant) a = str_eq a.tenant_id tenant

abbrev pub is_since : Option ℕ → AuditRecord → Bool
is_since none a = true
is_since (some time) a = leb time a.timestamp

abbrev pub is_until : Option ℕ → AuditRecord → Bool
is_until none a = true
is_until (some time) a = leb a.timestamp time

-- Every record that is written has the action `tool_call`; the filter by the action is left out.
unfoldable pub get_audit_log : Gateway → AuditFilter → List AuditRecord
get_audit_log s f =
    filter (is_until f.end_time)
      (filter (is_since f.start_time) (filter (fits_tenant (truthy f.tenant_id)) s.audit_log))

unfoldable pub add_policy : Gateway → McpPolicy → Gateway
add_policy s p = record s { policies = JsMap.set p.id p s.policies }

unfoldable pub remove_policy : Gateway → String → Gateway
remove_policy s id = record s { policies = JsMap.delete id s.policies }

unfoldable pub get_policies : Gateway → List McpPolicy
get_policies s = JsMap.values s.policies

pub data GatewayStatus : Type 0 where
  healthy degraded unhealthy : GatewayStatus

unfoldable pub health_status : RegistryStats → GatewayStatus
health_status t =
    if t.server_count == 0
    then healthy
    else if t.connected_servers == 0
    then unhealthy
    else if ltb t.connected_servers t.server_count
    then degraded
    else healthy

pub record GatewayStats : Type 0 where
  pub registry : RegistryStats
  pub policies : ℕ
  pub audit_records : ℕ
  pub rate_limiter : RateLimitStats

unfoldable pub get_stats : Gateway → GatewayStats
get_stats s = record {
  registry = Registry.get_stats s.registry;
  policies = JsMap.size s.policies;
  audit_records = length s.audit_log;
  rate_limiter = RateLimiter.get_stats s.rate_limiter;
}
