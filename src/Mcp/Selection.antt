-- ===== src/Mcp/Selection.antt =====
-- Which tool is selected.
use cam_protocol.Base.{suc, ◌*◌, ◌≤◌, Bool, true, false, Option, none, some, List, filter, All}
use cam_protocol.JsMap
use cam_protocol.JsMap.{JsMap}
use cam_protocol.Mcp.Types.{RegisteredTool, ToolCallRequest}
use cam_protocol.Mcp.Registry.{Registry, find_tools}
use cam_protocol.Mcp.Policies.{Patterns, McpPolicy}
use cam_protocol.Mcp.Arbitration.{score_tool, criteria_of, is_allowed}

-- No tool of the list has a higher score.
abbrev pub AllScoreLess : ToolCallRequest → RegisteredTool → List RegisteredTool → Type 0
AllScoreLess r t = All (λ u.
    (score_tool u r).part * suc (score_tool t r).calls_before
    ≤ (score_tool t r).part * suc (score_tool u r).calls_before)

unfoldable pub is_some {ℓ} : {A : Type ℓ} (o : Option A) → Bool
is_some none = false
is_some (some x) = true

module _ (patterns : Patterns) (policies : JsMap McpPolicy) where
  -- The tools that may be selected: those of the registry that meet the criteria and that no policy
  -- forbids.
  abbrev pub usable : Registry → ToolCallRequest → List RegisteredTool
  usable s r = filter (is_allowed patterns policies r) (find_tools s (criteria_of r))
