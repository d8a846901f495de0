-- ===== src/Collaboration/Tests.antt =====
-- Runs of the collaboration engine with the agents that it registers itself.
use cam_protocol.Base.{ℕ, ◌≡◌, refl, String, true, none, some, List, [], ◌∷◌, sort_by, insert_by}
use cam_protocol.Errors.{ok, cam_error, throw}
use cam_protocol.JsMap
use cam_protocol.JsText.{contains}
use cam_protocol.Collaboration.Registry.{
  AgentInfo, built_in_agents, find_agents, find_loop, find_step, add_candidate, candidates,
  satisfies, agent,
}
use cam_protocol.Collaboration.Engine.{
  CollaborationRequest, CollaborationSession, CollaborationWorkflow, init, initiate_collaboration,
  active, new_session, find_suitable_agents, validate_collaboration_request,
}
use cam_protocol.Collaboration.Matching.{is_met, agent_of, AllKnown, ids_of}
use cam_protocol.Collaboration.Covers

program : Unit {0}
unfolding built_in_agents find_agents find_loop find_step add_candidate candidates contains
    satisfies insert_by sort_by init is_met agent_of ids_of initiate_collaboration new_session
    validate_collaboration_request find_suitable_agents
program = tt

abbrev asked : List String
asked = "data-visualization" ∷ "charting" ∷ "financial-modeling" ∷ []

-- The visualizer serves two requirements and is found once.
find_agents_test :
    ids_of (find_agents built_in_agents asked) ≡ "agent-visualizer" ∷ "agent-financial" ∷ []
unfolding program
find_agents_test = refl

all_known : AllKnown built_in_agents built_in_agents
unfolding program
all_known = (refl, (refl, (refl, (refl, tt))))

find_agents-covers_example : is_met "charting" (find_agents built_in_agents asked) ≡ true
unfolding program
find_agents-covers_example =
    Covers.find_agents-covers built_in_agents asked "charting" all_known refl refl

abbrev best : AgentInfo
best =
    agent "agent-financial" "Financial Modeler" "financial-modeling"
      ("financial-modeling" ∷ "forecasting" ∷ []) ("risk-analysis" ∷ []) 93

abbrev request : CollaborationRequest
request = record { task = "report"; requirements = asked }

initiate_collaboration_lem_example :
    let (after, answer) = initiate_collaboration init request "collab-1" 5 in
    (s : CollaborationSession) × (answer ≡ ok s)
    × (JsMap.get "collab-1" after.active_sessions ≡ some s)
    × (s.status ≡ active)
    × (s.agents ≡ find_agents init.registry request.requirements)
    × (is_met "charting" s.agents ≡ true)
unfolding program
initiate_collaboration_lem_example =
    Covers.initiate_collaboration_lem init request "collab-1" "charting" 5 all_known refl refl refl

abbrev show : ℕ → String
show n = "n"

abbrev clock : ℕ → ℕ × ℕ
clock n = (n, n)

abbrev workflow : CollaborationWorkflow
workflow = record {
  id = "w";
  name = "flow";
  steps =
      record { id = "s1"; agent = some "ann" }
      ∷ record { id = "s2"; agent = none }
      ∷ record { id = "s3"; agent = some "ann" }
      ∷ [];
}

no_agent_test :
    (initiate_collaboration init (record { task = "x"; requirements = "cooking" ∷ [] }) "c" 5).1
    ≡ throw (cam_error "No suitable agents found" "AGENT_UNAVAILABLE")
unfolding program
no_agent_test = refl
