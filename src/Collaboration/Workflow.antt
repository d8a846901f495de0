-- ===== src/Collaboration/Workflow.antt =====
-- The chain of a decomposed task, and the results of a workflow.
use cam_protocol.Base.{
  ℕ, suc, ◌≡◌, refl, ap, ◌∙◌, String, true, false, List, [], ◌∷◌, map, arith, if◌then◌else◌, eq_iff,
  Bool-cases, inl, inr, is_nil,
}
use cam_protocol.Errors.{ok}
use cam_protocol.JsText.{is_truthy, text_or, contains}
use cam_protocol.Collaboration.Engine.{
  TaskComponents, component, components_from, decompose_task, component_id, WorkflowStep,
  CollaborationWorkflow, ExecutionStep, CollaborationResult, validate_workflow,
  execute_workflow_steps, add_all, collect_workflow_results, orchestrate_workflow,
}
use cam_protocol.Collaboration.Matching.{IsDistinct}

-- Each component depends on the one before it, the first one on `before`.
abbrev pub IsChain : List String → List TaskComponents → Type 0
IsChain before [] = Unit
IsChain before (c ∷ cs) = (c.dependencies ≡ before) × IsChain (c.id ∷ []) cs

module _ (show : ℕ → String) where
  components_from-IsChain :
      (task_id : String) (reqs : List String) (i : ℕ)
      → IsChain (component_id show task_id (suc i) ∷ []) (components_from show task_id reqs (suc i))
  unfolding components_from component
  components_from-IsChain task_id [] i = tt
  components_from-IsChain task_id (r ∷ reqs) i =
      (refl, components_from-IsChain task_id reqs (suc i))

  components_from-requirements :
      (task_id : String) (reqs : List String) (i : ℕ)
      → map (λ c. c.required_capabilities) (components_from show task_id reqs i)
        ≡ map (λ r. r ∷ []) reqs
  unfolding components_from component
  components_from-requirements task_id [] i = refl
  components_from-requirements task_id (r ∷ reqs) i =
      ap (λ l. (r ∷ []) ∷ l) (components_from-requirements task_id reqs (suc i))

  -- A task is decomposed into one component for each requirement, in order, and they are a chain: the
  -- first depends on nothing, and each other on the one before it.
  pub decompose_task-IsChain :
      (task_id : String) (reqs : List String)
      → IsChain [] (decompose_task show task_id reqs)
        × (map (λ c. c.required_capabilities) (decompose_task show task_id reqs)
            ≡ map (λ r. r ∷ []) reqs)
  unfolding decompose_task components_from component
  decompose_task-IsChain task_id [] = (tt, refl)
  decompose_task-IsChain task_id (r ∷ reqs) = (
    (refl, components_from-IsChain task_id reqs 0),
    components_from-requirements task_id (r ∷ reqs) 0,
  )

-- What `Array.from(new Set(…))` keeps: the texts of the list that were not seen.
contains-add_all :
    (t : String) (seen ts : List String)
    → contains t (add_all seen ts) ≡ (if contains t seen then false else contains t ts)
unfolding contains add_all
contains-add_all t seen [] = ground arith
contains-add_all t seen (u ∷ us) =
    ground (arith, eq_iff u t, contains-add_all t seen us, contains-add_all t (u ∷ seen) us)

add_all-IsDistinct : (seen ts : List String) → IsDistinct (add_all seen ts)
unfolding contains add_all
add_all-IsDistinct seen [] = tt
add_all-IsDistinct seen (u ∷ us) = elim (Bool-cases (contains u seen)) [
  | inl e ↦ rw (e, add_all) (add_all-IsDistinct seen us)
  | inr e ↦
      rw (e, add_all)
        (
          ground (arith, eq_iff u u, contains-add_all u (u ∷ seen) us),
          add_all-IsDistinct (u ∷ seen) us,
        )
]

agents-execute :
    (clock : ℕ → ℕ × ℕ) (n : ℕ) (ss : List WorkflowStep)
    → (map (λ e. e.agent) (execute_workflow_steps clock n ss)
        ≡ map (λ s. text_or s.agent "unassigned") ss)
      × (map (λ e. e.step_id) (execute_workflow_steps clock n ss) ≡ map (λ s. s.id) ss)
unfolding execute_workflow_steps
agents-execute clock n [] = (refl, refl)
agents-execute clock n (s ∷ ss) =
    let (p, q) = agents-execute clock (suc n) ss in
    (ap (λ l. text_or s.agent "unassigned" ∷ l) p, ap (λ l. s.id ∷ l) q)

-- A workflow with an id, a name and a step completes: its path has each step once, in order, and it
-- names as participants exactly the agents of the steps, each once.
pub orchestrate_workflow_lem :
    (clock : ℕ → ℕ × ℕ) (w : CollaborationWorkflow) (t : String)
    → is_truthy w.id ≡ true
    → is_truthy w.name ≡ true
    → is_nil w.steps ≡ false
    → (r : CollaborationResult) × (orchestrate_workflow clock w ≡ ok r)
      × (map (λ e. e.step_id) r.execution_path ≡ map (λ s. s.id) w.steps)
      × (contains t r.participating_agents
          ≡ contains t (map (λ s. text_or s.agent "unassigned") w.steps))
      × IsDistinct r.participating_agents
unfolding orchestrate_workflow validate_workflow collect_workflow_results contains
orchestrate_workflow_lem clock w t has_id has_name has_step =
    let path = execute_workflow_steps clock 0 w.steps in
    let (p, q) = agents-execute clock 0 w.steps in
    let agents = map (λ (s : ExecutionStep). s.agent) path in
    (
      collect_workflow_results w path,
      ground arith,
      q,
      contains-add_all t [] agents ∙ ap (contains t) p,
      add_all-IsDistinct [] agents,
    )
