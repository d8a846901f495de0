-- ===== src/Collaboration/Engine.antt =====
-- The collaboration engine: src/collaboration/collaboration-engine.ts, class `CollaborationEngine`. A
-- fresh session id and the clock are arguments; the text of a number is the parameter `show`. Inputs
-- of steps, metadata and the constant parts of a result are left out.
use Prim.Native.String.{◌++◌}
use cam_protocol.Base.{
  is_nil, ℕ, zero, suc, not, ◌-◌, String, Option, List, [], ◌∷◌, map, if◌then◌else◌, length,
}
use cam_protocol.Errors.{cam_error, Result, ok, throw, ◌>>=◌, ◌>>◌, guard}
use cam_protocol.JsMap
use cam_protocol.JsMap.{JsMap}
use cam_protocol.JsText.{contains, is_truthy, text_or}
use cam_protocol.Collaboration.Registry.{AgentInfo, AgentCapabilities, find_agents, built_in_agents}

pub record CollaborationRequest : Type 0 where
  pub task : String
  pub requirements : List String

pub data SessionStatus : Type 0 where
  initializing active completed failed : SessionStatus

pub record CollaborationSession : Type 0 where
  pub id : String
  pub task : String
  pub agents : List AgentInfo
  pub status : SessionStatus
  pub created_at : ℕ
  pub updated_at : ℕ

pub record CollaborationEngine : Type 0 where
  pub active_sessions : JsMap CollaborationSession
  pub registry : List AgentInfo

unfoldable pub init : CollaborationEngine
init = record { active_sessions = []; registry = built_in_agents }

unfoldable pub validate_collaboration_request : CollaborationRequest → Result (Unit {0})
validate_collaboration_request r = do
  guard (is_truthy r.task) (cam_error "Invalid request: task is required" "INVALID_REQUEST")
  guard (not (is_nil r.requirements)) (
      cam_error "Invalid request: requirements array is required and must not be empty"
        "INVALID_REQUEST")

unfoldable pub discover_agents : CollaborationEngine → List AgentCapabilities → List AgentInfo
discover_agents e capabilities =
    find_agents e.registry (map (λ (c : AgentCapabilities). c.type_) capabilities)

unfoldable pub find_suitable_agents : CollaborationEngine → List String → Result (List AgentInfo)
find_suitable_agents e requirements =
    let agents = find_agents e.registry requirements in
    if is_nil agents
    then throw (cam_error "No suitable agents found" "AGENT_UNAVAILABLE")
    else ok agents

unfoldable pub create_collaboration_session :
    CollaborationRequest → List AgentInfo → String → ℕ → CollaborationSession
create_collaboration_session r agents id now = record {
  id = id;
  task = r.task;
  agents = agents;
  status = initializing;
  created_at = now;
  updated_at = now;
}

unfoldable pub initialize_agents : CollaborationSession → ℕ → CollaborationSession
initialize_agents s now = record s { status = active; updated_at = now }

-- The session of a request, before it is stored.
unfoldable pub new_session :
    CollaborationEngine → CollaborationRequest → String → ℕ → Result CollaborationSession
unfolding create_collaboration_session initialize_agents
new_session e r id now = do
  validate_collaboration_request r
  agents ← find_suitable_agents e r.requirements
  ok (initialize_agents (create_collaboration_session r agents id now) now)

abbrev pub store_session :
    CollaborationEngine
    → Result CollaborationSession
    → CollaborationEngine × Result CollaborationSession
store_session e (throw thrown) = (e, throw thrown)
store_session e (ok s) = (record e { active_sessions = JsMap.set s.id s e.active_sessions }, ok s)

unfoldable pub initiate_collaboration :
    CollaborationEngine
    → CollaborationRequest
    → String
    → ℕ
    → CollaborationEngine × Result CollaborationSession
initiate_collaboration e r id now = store_session e (new_session e r id now)

-- The session's last update is not seen, since the map loses it.
unfoldable pub close_collaboration_session : CollaborationEngine → String → CollaborationEngine
close_collaboration_session e id = record e { active_sessions = JsMap.delete id e.active_sessions }

pub record TaskComponents : Type 0 where
  pub id : String
  pub parent_task_id : String
  pub description : String
  pub required_capabilities : List String
  pub dependencies : List String

module _ (show : ℕ → String) where
  abbrev pub component_id : String → ℕ → String
  component_id task_id n = task_id ++ "-component-" ++ show n

  unfoldable pub component : String → String → ℕ → TaskComponents
  component task_id req index = record {
    id = component_id task_id (suc index);
    parent_task_id = task_id;
    description = "Handle capability: " ++ req;
    required_capabilities = req ∷ [];
    dependencies = elim index [ zero ↦ [] | suc i ↦ component_id task_id (suc i) ∷ [] ];
  }

  -- The loop of `decomposeTask`, from an index on.
  unfoldable pub components_from : String → List String → ℕ → List TaskComponents
  unfolding component
  components_from task_id [] index = []
  components_from task_id (req ∷ reqs) index =
      component task_id req index ∷ components_from task_id reqs (suc index)

  unfoldable pub decompose_task : String → List String → List TaskComponents
  decompose_task task_id requirements = components_from task_id requirements 0

pub record WorkflowStep : Type 0 where
  pub id : String
  pub agent : Option String

pub record CollaborationWorkflow : Type 0 where
  pub id : String
  pub name : String
  pub steps : List WorkflowStep

pub record ExecutionStep : Type 0 where
  pub step_id : String
  pub agent : String
  pub start_time : ℕ
  pub end_time : ℕ
  pub output : String

pub record CollaborationResult : Type 0 where
  pub session_id : String
  pub participating_agents : List String
  pub execution_path : List ExecutionStep
  -- In milliseconds, and in hundredths of a dollar.
  pub duration : ℕ
  pub cost : ℕ

unfoldable pub validate_workflow : CollaborationWorkflow → Result (Unit {0})
validate_workflow w =
    let invalid = cam_error "Invalid workflow: missing required fields" "INVALID_WORKFLOW" in
    do
      guard (is_truthy w.id) invalid
      guard (is_truthy w.name) invalid
      guard (not (is_nil w.steps)) invalid

-- `clock n` reads the clock before and after the step at the index `n`.
unfoldable pub execute_workflow_steps : (ℕ → ℕ × ℕ) → ℕ → List WorkflowStep → List ExecutionStep
execute_workflow_steps clock n [] = []
execute_workflow_steps clock n (s ∷ ss) =
    record {
      step_id = s.id;
      agent = text_or s.agent "unassigned";
      start_time = (clock n).0;
      end_time = (clock n).1;
      output = "Output of " ++ s.id;
    }
    ∷ execute_workflow_steps clock (suc n) ss

-- `Array.from(new Set(texts))`, from the set of the texts before.
unfoldable pub add_all : List String → List String → List String
add_all seen [] = []
add_all seen (t ∷ ts) = if contains t seen then add_all seen ts else t ∷ add_all (t ∷ seen) ts

abbrev pub last_end : ℕ → List ExecutionStep → ℕ
last_end t [] = t
last_end t (s ∷ ss) = last_end s.end_time ss

abbrev pub first_start : List ExecutionStep → ℕ
first_start [] = 0
first_start (s ∷ ss) = s.start_time

unfoldable pub collect_workflow_results :
    CollaborationWorkflow → List ExecutionStep → CollaborationResult
unfolding add_all
collect_workflow_results w path = record {
  session_id = w.id;
  participating_agents = add_all [] (map (λ (s : ExecutionStep). s.agent) path);
  execution_path = path;
  duration = last_end 0 path - first_start path;
  cost = length path;
}

unfoldable pub orchestrate_workflow :
    (ℕ → ℕ × ℕ) → CollaborationWorkflow → Result CollaborationResult
orchestrate_workflow clock w = do
  validate_workflow w
  ok (collect_workflow_results w (execute_workflow_steps clock 0 w.steps))
