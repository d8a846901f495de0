-- ===== src/Collaboration/Registry.antt =====
-- The registry of the agents: src/collaboration/agent-registry.ts, class `AgentRegistry`. Qualities are
-- whole numbers of 1/100. Costs, reputations and metadata, which no method reads, are left out.
use cam_protocol.Base.{
  ℕ, String, Bool, ◌||◌, none, some, List, [], ◌∷◌, ◌++◌, leb, str_eq, if◌then◌else◌, filter,
  first_of, sort_by,
}
use cam_protocol.JsText.{contains}

pub record AgentCapabilities : Type 0 where
  pub type_ : String
  pub skills : List String
  pub specializations : List String
  pub quality : ℕ

pub data AgentStatus : Type 0 where
  available busy offline : AgentStatus

pub record AgentInfo : Type 0 where
  pub id : String
  pub name : String
  pub type_ : String
  pub capabilities : AgentCapabilities
  pub status : AgentStatus

unfoldable pub satisfies : String → AgentInfo → Bool
satisfies req a =
    str_eq a.type_ req
    || contains req a.capabilities.skills
    || contains req a.capabilities.specializations

-- The comparison `b.capabilities.quality - a.capabilities.quality`.
abbrev pub by_quality : AgentInfo → AgentInfo → Bool
by_quality a b = leb b.capabilities.quality a.capabilities.quality

unfoldable pub candidates : List AgentInfo → String → List AgentInfo
candidates agents req = sort_by by_quality (filter (satisfies req) agents)

-- The state of the loop of `findAgents`.
pub record Found : Type 0 where
  pub matched : List AgentInfo
  pub added : List String

unfoldable pub add_candidate : Found → AgentInfo → Found
add_candidate found c =
    if contains c.id found.added
    then found
    else record { matched = found.matched ++ c ∷ []; added = found.added ++ c.id ∷ [] }

unfoldable pub find_step : List AgentInfo → Found → String → Found
unfolding add_candidate candidates
find_step agents found req = elim (first_of (candidates agents req)) [
  | none ↦ found
  | some c ↦ add_candidate found c
]

unfoldable pub find_loop : List AgentInfo → Found → List String → Found
find_loop agents found [] = found
find_loop agents found (req ∷ reqs) = find_loop agents (find_step agents found req) reqs

unfoldable pub find_agents : List AgentInfo → List String → List AgentInfo
find_agents agents requirements =
    (find_loop agents (record { matched = []; added = [] }) requirements).matched

unfoldable pub register_agent : List AgentInfo → AgentInfo → List AgentInfo
register_agent agents agent = agents ++ agent ∷ []

abbrev pub agent : String → String → String → List String → List String → ℕ → AgentInfo
agent id name type_ skills specializations quality = record {
  id = id;
  name = name;
  type_ = type_;
  capabilities = record {
    type_ = type_;
    skills = skills;
    specializations = specializations;
    quality = quality;
  };
  status = available;
}

-- The agents that the constructor registers.
unfoldable pub built_in_agents : List AgentInfo
built_in_agents =
    agent "agent-analyst" "Data Analyst" "analysis" ("data-analysis" ∷ "statistics" ∷ "python" ∷ [])
      ("financial-modeling" ∷ []) 90
    ∷ agent "agent-reporter" "Reporting Specialist" "reporting" ("reporting" ∷ "writing" ∷ [])
        ("data-visualization" ∷ []) 85
    ∷ agent "agent-visualizer" "Visualization Expert" "visualization"
        ("data-visualization" ∷ "charting" ∷ []) ("d3.js" ∷ []) 88
    ∷ agent "agent-financial" "Financial Modeler" "financial-modeling"
        ("financial-modeling" ∷ "forecasting" ∷ []) ("risk-analysis" ∷ []) 93
    ∷ []
