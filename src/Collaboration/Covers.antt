-- ===== src/Collaboration/Covers.antt =====
-- The whole search for agents, and the session that is made of it.
use cam_protocol.Base.{
  ℕ, ◌≡◌, refl, String, true, false, some, List, [], ◌∷◌, arith, str_eq, eq_iff, Bool-cases, inl,
  inr, is_nil,
}
use cam_protocol.Errors.{ok}
use cam_protocol.JsMap
use cam_protocol.JsText.{is_truthy, contains}
use cam_protocol.Collaboration.Registry.{AgentInfo, Found, find_step, find_loop, find_agents}
use cam_protocol.Collaboration.Engine.{
  CollaborationEngine, CollaborationRequest, CollaborationSession, initiate_collaboration,
  new_session, validate_collaboration_request, find_suitable_agents, create_collaboration_session,
  initialize_agents, active,
}
use cam_protocol.Collaboration.Matching.{
  is_met, AllKnown, IsDistinct, ids_of, IsSound, find_step-IsSound, find_step-keeps,
  find_step-meets,
}

module _ (agents : List AgentInfo) where
  find_loop-IsSound :
      (found : Found) (reqs : List String)
      → AllKnown agents agents
      → IsSound agents found
      → IsSound agents (find_loop agents found reqs)
  unfolding find_loop
  find_loop-IsSound found [] all s = s
  find_loop-IsSound found (r ∷ reqs) all s =
      find_loop-IsSound (find_step agents found r) reqs all (find_step-IsSound agents found r all s)

  find_loop-keeps :
      (found : Found) (reqs : List String) (req : String)
      → is_met req found.matched ≡ true
      → is_met req (find_loop agents found reqs).matched ≡ true
  unfolding find_loop
  find_loop-keeps found [] req h = h
  find_loop-keeps found (r ∷ reqs) req h =
      find_loop-keeps (find_step agents found r) reqs req (find_step-keeps agents found r req h)

  find_loop-meets :
      (found : Found) (reqs : List String) (req : String)
      → AllKnown agents agents
      → IsSound agents found
      → contains req reqs ≡ true
      → is_met req agents ≡ true
      → is_met req (find_loop agents found reqs).matched ≡ true
  unfolding find_loop contains
  find_loop-meets found [] req all s c h = cc
  find_loop-meets found (r ∷ reqs) req all s c h = elim (Bool-cases (str_eq r req)) [
    | inl same ↦
        find_loop-keeps (find_step agents found r) reqs req
          (rw ((eq_iff r req).0 same) (find_step-meets agents found req all s h))
    | inr other ↦
        find_loop-meets (find_step agents found r) reqs req all
          (find_step-IsSound agents found r all s) (ground arith) h
  ]

  start-IsSound : IsSound agents (record { matched = []; added = [] })
  unfolding ids_of
  start-IsSound = record { same = refl; known = tt; distinct = tt }

  -- Every requirement asked for that some registered agent meets is met by an agent that is found. No
  -- two registered agents have the same id.
  pub find_agents-covers :
      (reqs : List String) (req : String)
      → AllKnown agents agents
      → contains req reqs ≡ true
      → is_met req agents ≡ true
      → is_met req (find_agents agents reqs) ≡ true
  unfolding find_agents
  find_agents-covers reqs req all c h = find_loop-meets _ reqs req all start-IsSound c h

  -- The agents that are found are registered ones, and each is found once. No two registered agents
  -- have the same id.
  pub find_agents-IsDistinct :
      (reqs : List String)
      → AllKnown agents agents
      → AllKnown agents (find_agents agents reqs) × IsDistinct (ids_of (find_agents agents reqs))
  unfolding find_agents
  find_agents-IsDistinct reqs all =
      let s = find_loop-IsSound _ reqs all start-IsSound in (s.known, s.distinct)

contains_not_empty : (t : String) (ts : List String) → contains t ts ≡ true → is_nil ts ≡ false
unfolding contains
contains_not_empty t [] h = cc
contains_not_empty t (u ∷ us) h = refl

is_met_not_empty :
    (req : String) (as_ : List AgentInfo) → is_met req as_ ≡ true → is_nil as_ ≡ false
unfolding is_met
is_met_not_empty req [] h = cc
is_met_not_empty req (a ∷ as_) h = refl

-- A request with a task and with a requirement that some registered agent meets starts a session: it
-- is stored under its id, it is active, its agents are those that the registry finds, and one of them
-- meets the requirement. No two registered agents have the same id.
pub initiate_collaboration_lem :
    (e : CollaborationEngine) (r : CollaborationRequest) (id req : String) (now : ℕ)
    → AllKnown e.registry e.registry
    → is_truthy r.task ≡ true
    → contains req r.requirements ≡ true
    → is_met req e.registry ≡ true
    → let (after, answer) = initiate_collaboration e r id now in
      (s : CollaborationSession) × (answer ≡ ok s)
      × (JsMap.get id after.active_sessions ≡ some s)
      × (s.status ≡ active)
      × (s.agents ≡ find_agents e.registry r.requirements)
      × (is_met req s.agents ≡ true)
unfolding initiate_collaboration new_session validate_collaboration_request find_suitable_agents
    create_collaboration_session initialize_agents
initiate_collaboration_lem e r id req now all task asked met =
    let agents = find_agents e.registry r.requirements in
    let covers = find_agents-covers e.registry r.requirements req all asked met in
    let some_req = contains_not_empty req r.requirements asked in
    let some_agent = is_met_not_empty req agents covers in
    let s = initialize_agents (create_collaboration_session r agents id now) now in
    (
      s,
      ground arith,
      ground (arith, JsMap.get-set id id s e.active_sessions, eq_iff id id),
      refl,
      refl,
      covers,
    )
