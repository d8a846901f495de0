-- ===== src/StateManager/Cleanup.antt =====
-- What the cleanup removes.
use cam_protocol.Base.{
  ℕ, ◌≡◌, ap, ◌∙◌, String, Bool, Option, none, some, arith, ltb, if◌then◌else◌, Option-cases, inl,
  inr, if_both,
}
use cam_protocol.Errors.{Result}
use cam_protocol.JsMap
use cam_protocol.JsMap.{JsMap}
use cam_protocol.Persistence.{Adapter}
use cam_protocol.StateManager.{
  StateManager, cleanup_expired_states, drop_expired, count_over, is_over, get_route_state,
  get_collaboration_state,
}
use cam_protocol.StateManager.Snapshots.{drop_expired-fields, Wrote-snapshot_and_persist}

-- What the cleanup does to the entries of a map.
abbrev pub unless_over {ℓ} : {V : Type ℓ} → (V → Bool) → Option V → Option V
unless_over test none = none
unless_over test (some v) = if test v then none else some v

get-reject-unless_over :
    {V : Type 0} (test : V → Bool) (k : String) (m : JsMap V)
    → JsMap.IsUnique m
    → JsMap.get k (JsMap.reject test m) ≡ unless_over test (JsMap.get k m)
get-reject-unless_over test k m u = elim (Option-cases (JsMap.get k m)) [
  | inl e ↦ ground (arith, JsMap.get-reject test k m u)
  | inr (v, e) ↦ ground (arith, JsMap.get-reject test k m u)
]

cleanup-maps :
    (a : Adapter) (s : StateManager a) (now : ℕ)
    → let q = (cleanup_expired_states a s now).0 in
      (q.route_states ≡ JsMap.reject (λ r. is_over now r.expires_at) s.route_states)
      × (q.collaboration_states
          ≡ JsMap.reject (λ c. is_over now c.expires_at) s.collaboration_states)
unfolding cleanup_expired_states
cleanup-maps a s now =
    let d = drop_expired a s now in
    let (sent', e) = drop_expired-fields a s now in
    let w = Wrote-snapshot_and_persist a d now in
    if_both
      (λ (r : StateManager a × Result (Unit {0})).
        (r.0.route_states ≡ JsMap.reject (λ r. is_over now r.expires_at) s.route_states)
        × (r.0.collaboration_states
            ≡ JsMap.reject (λ c. is_over now c.expires_at) s.collaboration_states))
      (ltb 0 (count_over a s now))
      (λ _.
        (w.routes ∙ ap (λ q. q.route_states) e, w.sessions ∙ ap (λ q. q.collaboration_states) e))
      (λ _. (ap (λ q. q.route_states) e, ap (λ q. q.collaboration_states) e))

-- After the cleanup, and also where it throws because the store cannot be saved, a route or a
-- collaboration is read as before unless its time is over; those whose time is over are gone. No key
-- stands twice in the two maps.
pub get-cleanup_expired_states :
    (a : Adapter) (s : StateManager a) (now : ℕ) (id : String)
    → JsMap.IsUnique s.route_states
    → JsMap.IsUnique s.collaboration_states
    → let q = (cleanup_expired_states a s now).0 in
      (get_route_state a q id
        ≡ unless_over (λ r. is_over now r.expires_at) (get_route_state a s id))
      × (get_collaboration_state a q id
          ≡ unless_over (λ c. is_over now c.expires_at) (get_collaboration_state a s id))
unfolding get_route_state get_collaboration_state
get-cleanup_expired_states a s now id u v =
    let (r, c) = cleanup-maps a s now in
    (
      ap (JsMap.get id) r
          ∙ get-reject-unless_over (λ r. is_over now r.expires_at) id s.route_states u,
      ap (JsMap.get id) c
          ∙ get-reject-unless_over (λ c. is_over now c.expires_at) id s.collaboration_states v,
    )
