-- ===== src/Mcp/Denial.antt =====
-- The call that no tool may answer.
use cam_protocol.Base.{ℕ, ◌≡◌, refl, Bool, not, ◌&&◌, none, any, if_both}
use cam_protocol.JsMap
use cam_protocol.JsMap.{JsMap}
use cam_protocol.RateLimiter.{check_limit}
use cam_protocol.Mcp.Types.{ToolCallRequest}
use cam_protocol.Mcp.Registry.{meets}
use cam_protocol.Mcp.Policies.{Patterns}
use cam_protocol.Mcp.Verdicts.{forbids}
use cam_protocol.Mcp.Arbitration.{criteria_of}
use cam_protocol.Mcp.Gateway.{Gateway, take_permit}

-- Some registered tool meets the criteria of the request, and no policy forbids it.
abbrev pub is_possible : Patterns → Gateway → ToolCallRequest → Bool
is_possible patterns s r =
    any (λ t. meets (criteria_of r) t && not (any (forbids patterns t r) (JsMap.values s.policies)))
      (JsMap.values s.registry.tools)

pub take_permit-state :
    (s : Gateway) (r : ToolCallRequest) (now : ℕ)
    → let q = (take_permit s r now).0 in
      q ≡ record s { rate_limiter = q.rate_limiter; events = q.events }
unfolding take_permit
take_permit-state s r now =
    let P : Gateway × Bool → Type 0 =
      λ x. x.0 ≡ record s { rate_limiter = x.0.rate_limiter; events = x.0.events } in
    let (limiter, result) = check_limit s.rate_limiter r.tenant_id none none now in
    if_both P s.config.rate_limit_enabled (λ e. if_both P result.allowed (λ e. refl) (λ e. refl))
      (λ e. refl)
