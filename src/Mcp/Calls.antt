-- ===== src/Mcp/Calls.antt =====
-- The call of a tool that is selected, and the call with progress.
use cam_protocol.Base.{
  ℕ, ◌*◌, ◌+◌, ◌-◌, ◌≤◌, ◌≡◌, refl, String, Bool, true, false, some, List, [], ◌∷◌, ◌++◌, map,
  arith, ◌∙◌, ap, sym, if_both, Option, none, if◌then◌else◌, filter, sort_by,
}
use cam_protocol.JsMap.{JsMap}
use cam_protocol.CacheManager.{Value, given_or}
use cam_protocol.Mcp.Types.{returned, raised, RegisteredTool, ToolCallRequest}
use cam_protocol.Mcp.Client.{McpSdk}
use cam_protocol.Mcp.Registry.{Registry, find_tools}
use cam_protocol.Mcp.Policies.{Patterns, McpPolicy}
use cam_protocol.Mcp.Metrics.{succeeded, update_tool_metrics}
use cam_protocol.Mcp.Arbitration.{
  ArbitrationDecision, arbitrate, arbitrate_among, select, by_score, is_allowed, all_references,
  criteria_of,
}
use cam_protocol.Mcp.Gateway.{
  Gateway, AuditRecord, take_permit, call_server, attempt, attempts, is_transient, max_retries,
  retry_delay_ms, execute_call, finish_call, tool_result, audit_of, record_audit,
  create_error_result, call_permitted, call_tool,
}
use cam_protocol.Mcp.Streaming.{
  StreamEvent, started, arbitrating, policy_evaluated, tool_selected, executing, completed, after,
  finish_stream, stream_call, count_named, stream_permitted, call_tool_streaming,
}
use cam_protocol.Mcp.Denial.{take_permit-state}
use cam_protocol.Mcp.Retries.{Recovers, AllRetried, attempts-Recovers, attempts-AllRetried}

record_audit-registry :
    (s : Gateway) (a : AuditRecord) (now : ℕ) → (record_audit s a now).registry ≡ s.registry
unfolding record_audit
record_audit-registry s a now =
    if_both (λ (q : Gateway). q.registry ≡ s.registry) s.config.audit_enabled (λ e. refl)
      (λ e. refl)

module _ (s : Gateway) (r : ToolCallRequest) (t : RegisteredTool) (trace_id : String)
    (d : ArbitrationDecision) (start end_ : ℕ) (x : JsMap Value) where
  abbrev counted : Registry
  counted = update_tool_metrics s.registry t.id (succeeded (end_ - start)) end_

  finish_call-registry :
      (finish_call s r t trace_id d start (end_, returned x)).0.registry ≡ counted
  unfolding finish_call
  finish_call-registry =
      record_audit-registry (record s { registry = counted })
        (record (audit_of s r trace_id d start) {
          result = some (tool_result s t trace_id d start end_ x);
        })
        end_

  finish_stream-registry :
      (finish_stream s r t trace_id d start (end_, returned x)).0.registry ≡ counted
  unfolding finish_stream
  finish_stream-registry =
      record_audit-registry (record s { registry = counted })
        (record (audit_of s r trace_id d end_) {
          result = some (tool_result s t trace_id d start end_ x);
        })
        end_

-- A decision that selects a tool has the tool's cost.
select-cost :
    (ts : List RegisteredTool) (references : List String) (trace_id : String) (t : RegisteredTool)
    → (select ts references trace_id).selected_tool ≡ some t
    → (select ts references trace_id).estimated_cost ≡ some t.cost_estimate
select-cost [] references trace_id t h = cc
select-cost (u ∷ us) references trace_id t h =
    ap (λ (o : Option RegisteredTool). elim o [ none ↦ none | some v ↦ some v.cost_estimate ]) h

arbitrate-cost :
    (patterns : Patterns) (policies : JsMap McpPolicy) (s : Registry) (r : ToolCallRequest)
    (trace_id : String) (t : RegisteredTool)
    → (arbitrate patterns policies s r trace_id).selected_tool ≡ some t
    → (arbitrate patterns policies s r trace_id).estimated_cost ≡ some t.cost_estimate
unfolding arbitrate
arbitrate-cost patterns policies s r trace_id t = among (find_tools s (criteria_of r))
  where
    among :
        (ts : List RegisteredTool)
        → (arbitrate_among patterns policies r ts trace_id).selected_tool ≡ some t
        → (arbitrate_among patterns policies r ts trace_id).estimated_cost ≡ some t.cost_estimate
    among [] h = cc
    among (u ∷ us) h =
        select-cost (sort_by (by_score r) (filter (is_allowed patterns policies r) (u ∷ us)))
          (all_references patterns policies r (u ∷ us)) trace_id t h

append_behind : (xs ys zs : List StreamEvent) → xs ++ (ys ++ zs) ≡ (xs ++ ys) ++ zs
append_behind [] ys zs = refl
append_behind (x ∷ xs) ys zs = ap (λ es. x ∷ es) (append_behind xs ys zs)

no_wait : (delay now : ℕ) → now + delay * 0 ≡ now
no_wait delay now = omega arith

module _ (sdk : McpSdk) (patterns : Patterns) (s : Gateway) (r : ToolCallRequest)
    (trace_id : String) (now : ℕ) where
  -- The state after the rate limit is checked.
  abbrev pub permitted : Gateway
  permitted = (take_permit s r now).0

  abbrev pub decision : ArbitrationDecision
  decision = arbitrate patterns permitted.policies permitted.registry r trace_id

  module _ (t : RegisteredTool) (permit : (take_permit s r now).1 ≡ true)
      (selected : decision.selected_tool ≡ some t) where
    call_tool-finish :
        call_tool sdk patterns s r trace_id now
        ≡ finish_call permitted r t trace_id decision now
            (attempts sdk permitted t r (max_retries permitted) 0 now)
    unfolding call_tool arbitrate
    call_tool-finish = permits (take_permit s r now) permit selected
      where
        permits :
            (x : Gateway × Bool)
            → x.1 ≡ true
            → (arbitrate patterns x.0.policies x.0.registry r trace_id).selected_tool ≡ some t
            → call_permitted sdk patterns r trace_id now x
              ≡ finish_call x.0 r t trace_id
                  (arbitrate patterns x.0.policies x.0.registry r trace_id)
                  now
                  (attempts sdk x.0 t r (max_retries x.0) 0 now)
        permits (q, false) h k = absurd (cc)
        permits (q, true) h k = rw (k, execute_call) refl

    -- A permitted call of a selected tool succeeds when one of the attempts does, after at most as many
    -- as the retries that are configured, all of which raise errors that may be tried again: the result
    -- is what the good attempt returns where the audit includes results, and is left out otherwise, the
    -- error is none, and the server, the tool, the time and the cost are those of the tool and the call.
    pub call_tool-Recovers :
        (n end_ : ℕ) (x : JsMap Value)
        → n ≤ max_retries permitted
        → Recovers sdk permitted t r n 0 now (end_, returned x)
        → let a = (call_tool sdk patterns s r trace_id now).1 in
          (a.success ≡ true)
          × (a.result ≡ (if s.config.include_results then some x else none))
          × (a.error ≡ none)
          × (a.server_id ≡ t.server_id)
          × (a.tool_id ≡ t.id)
          × (a.latency_ms ≡ end_ - now)
          × (a.cost ≡ t.cost_estimate)
    unfolding finish_call tool_result
    call_tool-Recovers n end_ x le h =
        let cost =
          arbitrate-cost patterns permitted.policies permitted.registry r trace_id t selected in
        rw
          (
            call_tool-finish,
            attempts-Recovers sdk permitted t r n (max_retries permitted) 0 now end_ x le h,
          )
          (
            refl,
            ap (λ (q : Gateway). if q.config.include_results then some x else none)
                (take_permit-state s r now),
            refl,
            refl,
            refl,
            refl,
            ap (λ c. given_or c 0) cost,
          )

    -- Where the attempts of a permitted call end in an error, the audit log gets no record of it,
    -- whatever is configured.
    pub call_tool_unaudited :
        (end_ : ℕ) (e : String)
        → attempts sdk permitted t r (max_retries permitted) 0 now ≡ (end_, raised e)
        → let (q, a) = call_tool sdk patterns s r trace_id now in
          (a.success ≡ false) × (q.audit_log ≡ s.audit_log)
    unfolding finish_call create_error_result
    call_tool_unaudited end_ e h =
        rw (call_tool-finish, h)
          (refl, ap (λ (q : Gateway). q.audit_log) (take_permit-state s r now))

    -- A permitted call that ends in an error that may be tried again has made all its attempts.
    pub call_tool_persists :
        (end_ : ℕ) (e : String)
        → attempts sdk permitted t r (max_retries permitted) 0 now ≡ (end_, raised e)
        → is_transient e ≡ true
        → AllRetried sdk permitted t r (max_retries permitted) 0 now
    call_tool_persists end_ e h k =
        attempts-AllRetried sdk permitted t r (max_retries permitted) 0 now end_ e h k

    call_tool_streaming-finish :
        call_tool_streaming sdk patterns s r trace_id now
        ≡ after
            (started trace_id r.tool_name now
              ∷ arbitrating trace_id (count_named sdk patterns permitted r)
              ∷ map
                  (λ id. policy_evaluated trace_id id decision.allowed)
                  decision.policy_references)
            (after (tool_selected trace_id t.id t.server_id ∷ executing trace_id t.id ∷ []) (
              finish_stream permitted r t trace_id decision now
                (call_server sdk permitted t r now)))
    unfolding call_tool_streaming arbitrate
    call_tool_streaming-finish = permits (take_permit s r now) permit selected
      where
        permits :
            (x : Gateway × Bool)
            → x.1 ≡ true
            → (arbitrate patterns x.0.policies x.0.registry r trace_id).selected_tool ≡ some t
            → let d = arbitrate patterns x.0.policies x.0.registry r trace_id in
              stream_permitted sdk patterns r trace_id now x
              ≡ after
                  (started trace_id r.tool_name now
                    ∷ arbitrating trace_id (count_named sdk patterns x.0 r)
                    ∷ map (λ id. policy_evaluated trace_id id d.allowed) d.policy_references)
                  (after
                    (tool_selected trace_id t.id t.server_id ∷ executing trace_id t.id ∷ [])
                    (finish_stream x.0 r t trace_id d now (call_server sdk x.0 t r now)))
        permits (q, false) h k = absurd (cc)
        permits (q, true) h k = rw (k, stream_call) refl

    -- When the first attempt gives the answer, the call with progress completes with the same result as
    -- the plain call, and leaves the registry, with its metrics, in the same state.
    pub call_tool_streaming-agrees :
        (end_ : ℕ) (x : JsMap Value)
        → call_server sdk permitted t r now ≡ (end_, returned x)
        → let (q, a) = call_tool sdk patterns s r trace_id now in
          let (p, es) = call_tool_streaming sdk patterns s r trace_id now in
          (p.registry ≡ q.registry)
          × ((before : List StreamEvent) × (es ≡ before ++ completed trace_id a ∷ []))
    unfolding finish_call finish_stream attempt
    call_tool_streaming-agrees end_ x h =
        let begun : List StreamEvent =
          started trace_id r.tool_name now
          ∷ arbitrating trace_id (count_named sdk patterns permitted r)
          ∷ map (λ id. policy_evaluated trace_id id decision.allowed) decision.policy_references in
        let first : Recovers sdk permitted t r 0 0 now (end_, returned x) =
          ap (λ m. call_server sdk permitted t r m) (no_wait (retry_delay_ms permitted) now) ∙ h in
        rw
          (
            call_tool-finish,
            attempts-Recovers sdk permitted t r 0 (max_retries permitted) 0 now end_ x (omega arith)
                first,
            call_tool_streaming-finish,
            h,
          )
          (
            finish_stream-registry permitted r t trace_id decision now end_ x
                ∙ sym (finish_call-registry permitted r t trace_id decision now end_ x),
            (
              begun ++ tool_selected trace_id t.id t.server_id ∷ executing trace_id t.id ∷ [],
              append_behind begun
                  (tool_selected trace_id t.id t.server_id ∷ executing trace_id t.id ∷ [])
                  (completed trace_id (tool_result permitted t trace_id decision now end_ x) ∷ []),
            ),
          )
