-- ===== src/Policy/Tests.antt =====
-- The theorems on permissions and edges at concrete actors.
use hermes_orchestrator.Prelude.{
  ◌≡◌, ◌≢◌, ◌⊎◌, ◌↔◌, refl, inl, inr, true, String, some, List, [], ◌∷◌,
}
use hermes_orchestrator.Models.Rows.{CommunicationEdge}
use hermes_orchestrator.Fixtures.{settings}
use hermes_orchestrator.Policy.Permissions.{
  tasks_read, tasks_comment, lookup, actor_is_allowed, role_allows,
}
use hermes_orchestrator.Policy.Duties.{
  request-decide_owner, provision-reset_roles, specialist_permissions,
}
use hermes_orchestrator.Policy.Edges.{
  communication_is_allowed, SomeGrants, communication_is_allowed_iff,
}

request-decide_owner_example : lookup "ana" settings.actor_roles ≡ some "owner"
unfolding actor_is_allowed role_allows
request-decide_owner_example = request-decide_owner "ana" settings.actor_roles refl refl

provision-reset_roles_example :
    (lookup "oscar" settings.actor_roles ≡ some "owner")
    ⊎ (lookup "oscar" settings.actor_roles ≡ some "operator")
unfolding actor_is_allowed role_allows
provision-reset_roles_example = provision-reset_roles "oscar" settings.actor_roles (inr refl)

abbrev trader : String
trader = "trader"

specialist_permissions_example :
    (tasks_comment ≡ tasks_read) ⊎ ((tasks_comment ≡ tasks_comment) × (trader ≢ "data_steward"))
unfolding actor_is_allowed role_allows
specialist_permissions_example =
    specialist_permissions "tara" tasks_comment settings.actor_roles trader refl (inl refl) refl

abbrev edges : List CommunicationEdge
edges =
    record {
      id = 1;
      source_agent_id = 2;
      target_agent_id = 3;
      task_classes = "research" ∷ [];
      scopes = "market" ∷ [];
      expires_at = some 900;
      approved_by_actor_id = "ana";
    }
    ∷ []

communication_is_allowed_iff_example :
    (communication_is_allowed edges 2 3 "research" "market" (some 200) 0 ≡ true)
    ↔ SomeGrants 2 3 "research" "market" 200 edges
communication_is_allowed_iff_example =
    communication_is_allowed_iff 2 3 "research" "market" 200 edges 0
