-- ===== src/Mcp/Tests.antt =====
-- Runs of the gateway on concrete requests, with a server that echoes.
use cam_protocol.Base.{
  ltb, ◌≡◌, refl, true, false, none, some, List, [], ◌∷◌, ◌++◌, arith, if◌then◌else◌, sort_by,
  insert_by,
}
use cam_protocol.JsMap
use cam_protocol.JsMap.{JsMap}
use cam_protocol.JsText
use cam_protocol.CacheManager.{text}
use cam_protocol.RateLimiter
use cam_protocol.RateLimiter.Window
use cam_protocol.Mcp.Types.{
  returned, raised, stdio, standard, ServerConfig, RegisteredTool, ToolCallRequest,
}
use cam_protocol.Mcp.Client
use cam_protocol.Mcp.Client.{McpSdk, McpClient, Pending, settles, never}
use cam_protocol.Mcp.Registry
use cam_protocol.Mcp.Registry.{Registry, get_client, meets, remove_server}
use cam_protocol.Mcp.Metrics
use cam_protocol.Mcp.Policies
use cam_protocol.Mcp.Policies.{Patterns, McpPolicy, Condition, eq, deny, evaluate_policies}
use cam_protocol.Mcp.Arbitration
use cam_protocol.Mcp.Arbitration.{arbitrate}
use cam_protocol.Mcp.Gateway
use cam_protocol.Mcp.Gateway.{
  Gateway, GatewayConfig, call_server, call_tool, tool_result, max_retries,
}
use cam_protocol.Mcp.Streaming
use cam_protocol.Mcp.Streaming.{StreamEvent, completed, call_tool_streaming}
use cam_protocol.Mcp.Selection.{is_some}
use cam_protocol.Mcp.Ownership.{empty, added, reached-get_client}
use cam_protocol.Mcp.Calls.{call_tool-Recovers, call_tool_unaudited, call_tool_streaming-agrees}

program : Unit {0}
unfolding JsMap.get JsMap.set JsMap.has JsMap.delete JsMap.reject JsText.is_prefix JsText.includes
    JsText.to_lower JsText.lower_code JsText.contains sort_by insert_by RateLimiter.init
    RateLimiter.check_limit RateLimiter.check_user_limit RateLimiter.user_limit
    RateLimiter.window_result RateLimiter.check_provider_and_record RateLimiter.record_request
    RateLimiter.record_provider RateLimiter.push_timestamp RateLimiter.blocked
    RateLimiter.disabled_result Window.get_or_create_window Window.slide Window.start_of
    Window.entry_or_new Window.count_requests_in_window Window.sort Window.insert_sorted Client.init
    Client.create_transport Client.index_by Client.discovered Client.split_name Client.distinct
    Client.extract_tags Client.registered_tool Client.get_registered_tools
    Client.get_registered_resources Client.get_registered_prompts Client.is_timeout
    Client.is_connection_error Client.wrap_error Client.with_timeout Client.discover Client.connect
    Client.call_tool Registry.init Registry.drop_server Registry.put_all Registry.put_from
    Registry.refresh_server_tools Registry.remove_server Registry.add_server
    Registry.trust_tier_matches Registry.meets Registry.find_tools Registry.get_client
    Metrics.calculate_percentile Metrics.push_sample Metrics.count_latency Metrics.count_failure
    Metrics.count_call Metrics.update_tool_metrics Policies.get_condition_value Policies.denies
    Policies.matches_pattern Policies.evaluate_condition Policies.evaluate_conditions
    Policies.run_policies Policies.evaluate_policies Arbitration.base_score Arbitration.score_tool
    Arbitration.arbitrate Gateway.load_policies Gateway.init Gateway.record_audit
    Gateway.create_error_result Gateway.is_transient Gateway.max_retries Gateway.retry_delay_ms
    Gateway.deny_call Gateway.tool_result Gateway.finish_call Gateway.call_server Gateway.attempt
    Gateway.attempts Gateway.execute_call Gateway.take_permit Gateway.call_tool
    Streaming.finish_stream Streaming.stream_call Streaming.call_tool_streaming is_some
program = tt

abbrev files : ServerConfig
files = record {
  id = "files";
  name = "Files";
  transport = stdio;
  endpoint = none;
  command = some "serve";
  trust_tier = standard;
  data_classifications = none;
  cost_per_call = none;
  timeout = none;
  enabled = true;
}

-- A server with one tool, which answers when the clock has come to 600.
abbrev server : McpSdk
server = record {
  connect = λ c now. returned tt;
  list_tools = λ c now. returned (record { name = "read"; description = none } ∷ []);
  list_resources = λ c now. returned [];
  list_prompts = λ c now. returned [];
  call_tool =
      λ c name args now. settles 5 (if ltb now 600 then raised "ECONNREFUSED" else returned args);
}

-- A server that has nothing to say.
abbrev broken : McpSdk
broken = record server { call_tool = λ c name args now. settles 5 (raised "bad arguments") }

abbrev patterns : Patterns
patterns = record { to_text = λ v. ""; test = λ p t. none }

abbrev no_reading : McpPolicy
no_reading = record {
  id = "p";
  name = "P";
  priority = 1;
  enabled = true;
  conditions = record { field = "tool.name"; operator = eq; value = some (text "read") } ∷ [];
  actions = deny ∷ [];
}

abbrev settings : List McpPolicy → GatewayConfig
settings policies = record {
  servers = files ∷ [];
  policies = policies;
  max_retries = some 2;
  retry_delay_ms = none;
  audit_enabled = true;
  retention_days = 30;
  include_arguments = false;
  include_results = true;
  rate_limit_enabled = false;
  requests_per_minute = 60;
}

abbrev registry : Registry
registry = Registry.add_server server Registry.init files 1

abbrev lenient : Gateway
lenient = record (Gateway.init (settings []) true) { registry = registry }

abbrev strict : Gateway
strict = record (Gateway.init (settings (no_reading ∷ [])) true) { registry = registry }

abbrev read : ToolCallRequest
read = record {
  tool_name = "read";
  arguments = ("path", text "a") ∷ [];
  tenant_id = "acme";
  user_id = none;
  context = none;
}

abbrev read_tool : RegisteredTool
read_tool = Client.registered_tool files ("read", record { name = "read"; description = none })

-- The first attempt, at 100, is refused; the second one, at 605, is answered.
call_tool-Recovers_example :
    let a = (call_tool server patterns lenient read "t" 100).1 in
    (a.success ≡ true)
    × (a.result ≡ (if lenient.config.include_results then some read.arguments else none))
    × (a.error ≡ none)
    × (a.server_id ≡ read_tool.server_id)
    × (a.tool_id ≡ read_tool.id)
    × (a.latency_ms ≡ 510)
    × (a.cost ≡ read_tool.cost_estimate)
unfolding program
call_tool-Recovers_example =
    call_tool-Recovers server patterns lenient read "t" 100 read_tool refl refl 1 610 read.arguments
      (omega arith) (refl, refl)

call_tool_unaudited_example :
    let (q, a) = call_tool broken patterns lenient read "t" 100 in
    (a.success ≡ false) × (q.audit_log ≡ lenient.audit_log)
unfolding program
call_tool_unaudited_example =
    call_tool_unaudited broken patterns lenient read "t" 100 read_tool refl refl 105 "bad arguments"
      refl

call_tool_streaming-agrees_example :
    let (q, a) = call_tool server patterns lenient read "t" 700 in
    let (p, es) = call_tool_streaming server patterns lenient read "t" 700 in
    (p.registry ≡ q.registry)
    × ((before : List StreamEvent) × (es ≡ before ++ completed "t" a ∷ []))
unfolding program
call_tool_streaming-agrees_example =
    call_tool_streaming-agrees server patterns lenient read "t" 700 read_tool refl refl 705
      read.arguments refl

reached-get_client_example :
    (c : McpClient) × (get_client registry read_tool.server_id ≡ some c)
    × (c.config.id ≡ read_tool.server_id)
unfolding program
reached-get_client_example =
    reached-get_client server registry "files:read" read_tool (added Registry.init files 1 empty)
      refl
