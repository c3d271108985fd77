-- ===== src/Agents/Provisioning.antt =====
-- `provision_agent_request` and `rollback_agent_request` of provisioning_services.py. The provisioner
-- is another process (`AgentProvisioner`), given by what it answers.
use Prim.Native.String.{compare}
use Prim.Native.Nat.{Ordering}
use hermes_orchestrator.Prelude.{
  ℕ, Bool, true, String, Option, none, some, List, [], ◌∷◌, ◌++◌, str_eq, str_append, ◌==◌, find,
  filter, is_some, if◌then◌else◌,
}
use hermes_orchestrator.Models.Json.{Fields, end, set, text, uuid, array, texts}
use hermes_orchestrator.Models.Rows.{Agent, AgentInstance}
use hermes_orchestrator.Models.Requests.{AgentRequestRecord}
use hermes_orchestrator.Store.Exec.{
  Db, Exec, Exception, pure, or_raise, gets, commit, effective_time, add_row, save_agent,
  save_instance, ◌>>=◌, ◌>>◌,
}
use hermes_orchestrator.Agents.Profiles.{role_execution_profile}
use hermes_orchestrator.Agents.Payload.{ProvisioningPayload}
use hermes_orchestrator.Agents.Edges.{materialize_policy}

pub record ProvisionerResult : Type 0 where
  pub status : String
  pub service_name : String
  pub config_digest : String
  pub health : String
  pub credential_sha256 : Option String

-- What a call of the provisioner comes to: a result, or a `ProvisioningError`.
pub data Answer : Type 0 where
  done : ProvisionerResult → Answer
  refused : String → String → ℕ → Answer

-- `AgentProvisioner`
pub record AgentProvisioner : Type 0 where
  pub apply : ProvisioningPayload → Answer
  pub rollback : ProvisioningPayload → Answer

pub record AgentProvisioningResult : Type 0 where
  pub request_id : ℕ
  pub provisioner : ProvisionerResult
  pub replayed : Bool

-- `AgentRepository.get_by_slug`
unfoldable pub agent_by_slug : String → Db → Option Agent
agent_by_slug slug d = find (λ (a : Agent). str_eq a.slug slug) d.agents

last : List AgentInstance → Option AgentInstance
last [] = none
last (i ∷ is) = let rest = last is in if is_some rest then rest else some i

-- `agent.instances[-1]`
unfoldable pub last_instance : ℕ → Db → Option AgentInstance
unfolding last
last_instance agent_id d =
    last (filter (λ (i : AgentInstance). i.agent_id == agent_id) d.agent_instances)

insert_text : String → List String → List String
insert_text s [] = s ∷ []
insert_text s (t ∷ ts) =
    let rest = insert_text s ts in
    elim (compare s t) [ Ordering.lt ↦ s ∷ t ∷ ts | Ordering.eq ↦ t ∷ ts | Ordering.gt ↦ t ∷ rest ]

-- `sorted(set(xs))`
unfoldable pub sorted_set : List String → List String
unfolding insert_text
sorted_set [] = []
sorted_set (s ∷ ss) = insert_text s (sorted_set ss)

-- `f"{WORKER_API_SECRET_PREFIX}{slug}"`
unfoldable pub worker_secret_ref : String → String
worker_secret_ref slug = str_append "secret://hermes/api-server/" slug

credential_policy : Option String → Fields → Fields
credential_policy none policy_set = policy_set
credential_policy (some sha) policy_set =
    if str_eq sha "" then policy_set else set "runtime_auth_token_sha256" (text sha) policy_set

-- A replay: the provisioner is asked again and the agent and its instance follow its answer.
unfoldable pub refresh_agent :
    AgentRequestRecord → String → String → ProvisionerResult → Exec AgentProvisioningResult
unfolding credential_policy last_instance sorted_set agent_by_slug
refresh_agent r slug actor_id result = do
  found ← gets (agent_by_slug slug)
  agent ← or_raise found (Exception.agent_request "provisioning_state_missing" 500)
  instances ← gets (last_instance agent.id)
  instance_ ← or_raise instances (Exception.agent_request "provisioning_state_missing" 500)
  now ← effective_time none
  save_instance (record instance_ {
    health = result.health;
    config_revision = some result.config_digest;
    last_heartbeat_at = some now;
    reconciliation_state = "in_sync";
  })
  let refreshed = record agent {
    policy_set = credential_policy result.credential_sha256 agent.policy_set;
    secret_refs = sorted_set (agent.secret_refs ++ worker_secret_ref slug ∷ []);
  }
  save_agent refreshed
  materialize_policy refreshed actor_id
  commit
  pure (record { request_id = r.id; provisioner = result; replayed = true })

blank_agent : ProvisioningPayload → String → ℕ → Agent
blank_agent payload owner id = record {
  id = id;
  slug = payload.slug;
  role = payload.role;
  description = payload.description;
  owner_actor_id = owner;
  desired_state = "requested";
  policy_set = end;
  capabilities = [];
  secret_refs = [];
}

-- The agent of the slug, made if there is none.
unfoldable pub agent_for : ProvisioningPayload → String → Option Agent → Exec Agent
unfolding blank_agent
agent_for payload owner (some agent) = pure agent
agent_for payload owner none = do
  id ← add_row λ id d. record d { agents = d.agents ++ blank_agent payload owner id ∷ [] }
  pure (blank_agent payload owner id)

unfoldable pub provisioned_policy : AgentRequestRecord → ProvisioningPayload → String → Fields
provisioned_policy r payload credential = set "runtime_auth_token_sha256" (text credential) (
    set "request_id" (uuid r.id) (
      set "managed_by" (text "agent-provisioner") (
        set "allowed_profiles" (array (texts (role_execution_profile payload.role ∷ []))) (
          set "execution_profile_default" (text (role_execution_profile payload.role))
            payload.policy_set))))

unfoldable pub provisioned_agent :
    AgentRequestRecord → ProvisioningPayload → String → String → Agent → Agent
unfolding provisioned_policy sorted_set
provisioned_agent r payload slug credential agent = record agent {
  role = payload.role;
  description = payload.description;
  desired_state = "active";
  policy_set = provisioned_policy r payload credential;
  capabilities = payload.capabilities;
  secret_refs = sorted_set (payload.secret_refs ++ worker_secret_ref slug ∷ []);
}
