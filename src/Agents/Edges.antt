-- ===== src/Agents/Edges.antt =====
-- `_ensure_communication_edge` and `_materialize_communication_policy` of provisioning_services.py.
use hermes_orchestrator.Prelude.{
  ℕ, Bool, ◌&&◌, not, String, Option, none, some, List, [], ◌∷◌, ◌++◌, str_eq, ◌==◌, find, any,
  strip_prefix,
}
use hermes_orchestrator.Models.Json.{Json, text, array, Items, nil, cons, get}
use hermes_orchestrator.Models.Rows.{Agent, CommunicationEdge}
use hermes_orchestrator.Store.Exec.{Db, Exec, pure, gets, add_row, when, ◌>>=◌, ◌>>◌}
use hermes_orchestrator.Agents.Evaluation.{is_subset}

-- An edge between the agents that covers the task classes and the scopes.
unfoldable pub covers : ℕ → ℕ → List String → List String → CommunicationEdge → Bool
covers source target task_classes scopes e =
    e.source_agent_id == source
    && e.target_agent_id == target
    && is_subset task_classes e.task_classes
    && is_subset scopes e.scopes

unfoldable pub new_edge : ℕ → ℕ → List String → List String → String → ℕ → CommunicationEdge
new_edge source target task_classes scopes approved_by_actor_id id = record {
  id = id;
  source_agent_id = source;
  target_agent_id = target;
  task_classes = task_classes;
  scopes = scopes;
  expires_at = none;
  approved_by_actor_id = approved_by_actor_id;
}

unfoldable pub add_edge : ℕ → ℕ → List String → List String → String → Exec Unit
unfolding new_edge
add_edge source target task_classes scopes approved_by_actor_id = do
  add_row λ id d. record d {
    communication_edges =
        d.communication_edges
        ++ new_edge source target task_classes scopes approved_by_actor_id id ∷ [];
  }
  pure tt

-- `_ensure_communication_edge`
unfoldable pub ensure_edge : ℕ → ℕ → List String → List String → String → Exec Unit
unfolding covers add_edge
ensure_edge source target task_classes scopes approved_by_actor_id = do
  covered ← gets (λ d. any (covers source target task_classes scopes) d.communication_edges)
  when (not covered) (add_edge source target task_classes scopes approved_by_actor_id)

-- The agent that a reference "agent:<slug>" names, if it is active.
unfoldable pub referenced : Json → Db → Option Agent
referenced (text reference) d = elim (strip_prefix "agent:" reference) [
  | none ↦ none
  | some slug ↦ find (λ (a : Agent). str_eq a.slug slug && str_eq a.desired_state "active") d.agents
]
referenced _ d = none

unfoldable pub connect : Agent → String → Option Agent → Exec Unit
unfolding ensure_edge
connect agent approved_by_actor_id none = pure tt
connect agent approved_by_actor_id (some target) = when (not (target.id == agent.id)) (do
  ensure_edge agent.id target.id ("visibility" ∷ []) ("read" ∷ []) approved_by_actor_id
  when (str_eq target.role "leader") (
      ensure_edge target.id agent.id ("visibility" ∷ "task" ∷ []) ("read" ∷ "dispatch" ∷ [])
        approved_by_actor_id))

-- The loop over the references.
unfoldable pub connect_all : Agent → String → Items → Exec Unit
unfolding connect referenced
connect_all agent approved_by_actor_id nil = pure tt
connect_all agent approved_by_actor_id (cons reference references) = do
  target ← gets (referenced reference)
  connect agent approved_by_actor_id target
  connect_all agent approved_by_actor_id references

unfoldable pub connect_value : Agent → String → Option Json → Exec Unit
unfolding connect_all
connect_value agent approved_by_actor_id (some (array references)) =
    connect_all agent approved_by_actor_id references
connect_value agent approved_by_actor_id _ = pure tt

-- `_materialize_communication_policy`
unfoldable pub materialize_policy : Agent → String → Exec Unit
unfolding connect_value
materialize_policy agent approved_by_actor_id =
    connect_value agent approved_by_actor_id (get "communication" agent.policy_set)
