-- ===== src/Policy/Permissions.antt =====
-- The permissions, the permissions of each role, and `actor_is_allowed`.
use hermes_orchestrator.Prelude.{
  Bool, false, String, Option, none, some, List, [], ◌∷◌, str_eq, str_in, map, if◌then◌else◌,
}

pub data Permission : Type 0 where
  agents_read agents_request agents_request_decide agents_request_retire : Permission
  agents_provision profiles_read tasks_read tasks_create tasks_dispatch : Permission
  tasks_comment tasks_cancel runs_read approvals_decide fleet_read : Permission
  fleet_reconcile_request usage_read usage_control_reset environments_read : Permission
  environments_deploy environments_promote environments_rollback operations_read : Permission

-- The value of the `StrEnum` member.
abbrev pub permission_text : Permission → String
permission_text agents_read = "agents:read"
permission_text agents_request = "agents:request"
permission_text agents_request_decide = "agents:request_decide"
permission_text agents_request_retire = "agents:request_retire"
permission_text agents_provision = "agents:provision"
permission_text profiles_read = "profiles:read"
permission_text tasks_read = "tasks:read"
permission_text tasks_create = "tasks:create"
permission_text tasks_dispatch = "tasks:dispatch"
permission_text tasks_comment = "tasks:comment"
permission_text tasks_cancel = "tasks:cancel"
permission_text runs_read = "runs:read"
permission_text approvals_decide = "approvals:decide"
permission_text fleet_read = "fleet:read"
permission_text fleet_reconcile_request = "fleet:reconcile_request"
permission_text usage_read = "usage:read"
permission_text usage_control_reset = "usage:control_reset"
permission_text environments_read = "environments:read"
permission_text environments_deploy = "environments:deploy"
permission_text environments_promote = "environments:promote"
permission_text environments_rollback = "environments:rollback"
permission_text operations_read = "operations:read"

-- `frozenset(Permission)`
abbrev pub all_permissions : List Permission
all_permissions =
    agents_read ∷ agents_request ∷ agents_request_decide ∷ agents_request_retire ∷ agents_provision
    ∷ profiles_read ∷ tasks_read ∷ tasks_create ∷ tasks_dispatch ∷ tasks_comment ∷ tasks_cancel
    ∷ runs_read ∷ approvals_decide ∷ fleet_read ∷ fleet_reconcile_request ∷ usage_read
    ∷ usage_control_reset ∷ environments_read ∷ environments_deploy ∷ environments_promote
    ∷ environments_rollback ∷ operations_read ∷ []

-- `ROLE_PERMISSIONS`
abbrev pub role_permissions : List (String × List Permission)
role_permissions =
    ("owner", all_permissions)
    ∷ (
      "leader",
      agents_read ∷ agents_request ∷ profiles_read ∷ tasks_read ∷ tasks_create ∷ tasks_dispatch
          ∷ tasks_comment ∷ tasks_cancel ∷ runs_read ∷ approvals_decide ∷ fleet_read
          ∷ fleet_reconcile_request ∷ usage_read ∷ environments_read ∷ environments_deploy
          ∷ environments_promote ∷ environments_rollback ∷ operations_read ∷ [],
    )
    ∷ (
      "operator",
      agents_read ∷ agents_request_decide ∷ agents_request_retire ∷ agents_provision ∷ profiles_read
          ∷ tasks_read ∷ tasks_cancel ∷ runs_read ∷ fleet_read ∷ fleet_reconcile_request
          ∷ usage_read ∷ usage_control_reset ∷ approvals_decide ∷ environments_read
          ∷ environments_deploy ∷ environments_promote ∷ environments_rollback ∷ operations_read
          ∷ [],
    )
    ∷ (
      "researcher",
      agents_read ∷ profiles_read ∷ tasks_read ∷ tasks_create ∷ tasks_comment ∷ runs_read
          ∷ usage_read ∷ environments_read ∷ operations_read ∷ [],
    )
    ∷ (
      "developer",
      agents_read ∷ profiles_read ∷ tasks_read ∷ tasks_create ∷ tasks_comment ∷ runs_read
          ∷ usage_read ∷ environments_read ∷ environments_deploy ∷ operations_read ∷ [],
    )
    ∷ (
      "validator",
      agents_read ∷ profiles_read ∷ tasks_read ∷ tasks_comment ∷ runs_read ∷ approvals_decide
          ∷ fleet_read ∷ usage_read ∷ environments_read ∷ operations_read ∷ [],
    )
    ∷ ("data_steward", tasks_read ∷ [])
    ∷ ("risk_manager", tasks_read ∷ tasks_comment ∷ [])
    ∷ ("trader", tasks_read ∷ tasks_comment ∷ [])
    ∷ []

-- `d.get(k)` of a dictionary with text keys
abbrev pub lookup : {V : Type 0} → String → List (String × V) → Option V
lookup k [] = none
lookup k ((j, v) ∷ d) = if str_eq j k then some v else lookup k d

-- `permission in ROLE_PERMISSIONS.get(role, frozenset())`
unfoldable pub role_allows : String → Permission → Bool
role_allows role p = elim (lookup role role_permissions) [
  | none ↦ false
  | some ps ↦ str_in (permission_text p) (map permission_text ps)
]

unfoldable pub actor_is_allowed : String → Permission → List (String × String) → Bool
actor_is_allowed actor_id p actor_roles = elim (lookup actor_id actor_roles) [
  | none ↦ false
  | some role ↦ role_allows role p
]
