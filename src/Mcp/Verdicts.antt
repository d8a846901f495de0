-- ===== src/Mcp/Verdicts.antt =====
-- What the policies come to, and which tool is selected.
use cam_protocol.Base.{Bool, ◌&&◌}
use cam_protocol.JsMap
use cam_protocol.JsMap.{JsMap}
use cam_protocol.Mcp.Types.{RegisteredTool, ToolCallRequest}
use cam_protocol.Mcp.Policies.{Patterns, McpPolicy, denies, is_applied}

module _ (patterns : Patterns) where
  -- The policy is enabled, its conditions hold, and it denies.
  abbrev pub forbids : RegisteredTool → ToolCallRequest → McpPolicy → Bool
  forbids t r p = is_applied patterns t r p && denies p.actions
