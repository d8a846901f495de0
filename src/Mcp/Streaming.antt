-- ===== src/Mcp/Streaming.antt =====
-- The call with progress: src/mcp/gateway.ts, `callToolStreaming`. What it yields is a list; nothing
-- else happens between two of its events.
use cam_protocol.Base.{
  ℕ, ◌-◌, String, Bool, true, false, none, some, List, [], ◌∷◌, ◌++◌, map, length,
}
use cam_protocol.JsMap.{JsMap}
use cam_protocol.CacheManager.{Value}
use cam_protocol.Mcp.Types.{Outcome, returned, raised, RegisteredTool, ToolCallRequest}
use cam_protocol.Mcp.Client.{McpSdk}
use cam_protocol.Mcp.Registry.{find_tools}
use cam_protocol.Mcp.Metrics.{succeeded, update_tool_metrics}
use cam_protocol.Mcp.Policies.{Patterns}
use cam_protocol.Mcp.Arbitration.{ArbitrationDecision, arbitrate}
use cam_protocol.Mcp.Gateway.{
  Gateway, ToolCallResult, take_permit, call_server, tool_result, audit_of, record_audit,
}

pub data StreamEvent : Type 0 where
  started : String → String → ℕ → StreamEvent
  arbitrating : String → ℕ → StreamEvent
  policy_evaluated : String → String → Bool → StreamEvent
  tool_selected : String → String → String → StreamEvent
  executing : String → String → StreamEvent
  completed : String → ToolCallResult → StreamEvent
  error : String → String → StreamEvent

-- The end of the stream. An error is neither counted nor audited.
unfoldable pub finish_stream :
    Gateway
    → ToolCallRequest
    → RegisteredTool
    → String
    → ArbitrationDecision
    → ℕ
    → ℕ × Outcome (JsMap Value)
    → Gateway × List StreamEvent
finish_stream s r t trace_id decision start (now, raised e) = (s, error trace_id e ∷ [])
finish_stream s r t trace_id decision start (now, returned x) =
    let a = tool_result s t trace_id decision start now x in
    let counted = record s {
      registry = update_tool_metrics s.registry t.id (succeeded (now - start)) now;
    } in
    (
      record_audit counted (record (audit_of s r trace_id decision now) { result = some a }) now,
      completed trace_id a ∷ [],
    )

abbrev pub after : List StreamEvent → Gateway × List StreamEvent → Gateway × List StreamEvent
after es (s, fs) = (s, es ++ fs)

module _ (sdk : McpSdk) (patterns : Patterns) where
  unfoldable pub stream_call :
      Gateway → ToolCallRequest → String → ArbitrationDecision → ℕ → Gateway × List StreamEvent
  unfolding finish_stream
  stream_call s r trace_id decision now = elim decision.selected_tool [
    | none ↦ (s, error trace_id decision.reason ∷ [])
    | some t ↦
        after (tool_selected trace_id t.id t.server_id ∷ executing trace_id t.id ∷ [])
          (finish_stream s r t trace_id decision now (call_server sdk s t r now))
  ]

  abbrev pub count_named : Gateway → ToolCallRequest → ℕ
  count_named s r = length (
      find_tools s.registry (record {
        name = some r.tool_name;
        tags = none;
        trust_tier = none;
        max_cost = none;
        data_classifications = none;
        server_id = none;
      }))

  abbrev pub stream_permitted :
      ToolCallRequest → String → ℕ → Gateway × Bool → Gateway × List StreamEvent
  stream_permitted r trace_id now (s, false) =
      (s, started trace_id r.tool_name now ∷ error trace_id "Rate limit exceeded" ∷ [])
  stream_permitted r trace_id now (s, true) =
      let decision = arbitrate patterns s.policies s.registry r trace_id in
      after
        (started trace_id r.tool_name now
          ∷ arbitrating trace_id (count_named s r)
          ∷ map (λ id. policy_evaluated trace_id id decision.allowed) decision.policy_references)
        (stream_call s r trace_id decision now)

  unfoldable pub call_tool_streaming :
      Gateway → ToolCallRequest → String → ℕ → Gateway × List StreamEvent
  unfolding stream_call take_permit
  call_tool_streaming s r trace_id now = stream_permitted r trace_id now (take_permit s r now)
