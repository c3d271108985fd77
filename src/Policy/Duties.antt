-- ===== src/Policy/Duties.antt =====
-- What the table of permissions rules out (policy.py, `ROLE_PERMISSIONS` and `actor_is_allowed`).
use hermes_orchestrator.Prelude.{
  ◌≡◌, refl, ◌≢◌, ◌⊎◌, inl, inr, ap, sym, ◌∙◌, subst, true, false, String, some, List, arith,
  eq_iff, str_eq, false, Option-cases,
}
use hermes_orchestrator.Policy.Permissions.{
  Permission, agents_request, agents_request_decide, agents_provision, tasks_read, tasks_comment,
  usage_control_reset, role_allows, actor_is_allowed, lookup,
}

-- The role that a grant rests on.
granted_role :
    (actor_id : String) (p : Permission) (actor_roles : List (String × String))
    → actor_is_allowed actor_id p actor_roles ≡ true
    → (role : String) × (lookup actor_id actor_roles ≡ some role) × (role_allows role p ≡ true)
unfolding actor_is_allowed
granted_role actor_id p actor_roles h = elim (Option-cases (lookup actor_id actor_roles)) [
  | inl unknown ↦ absurd (ground (arith, h, unknown))
  | inr (role, e) ↦ (role, e, ground arith)
]

request_and_decide :
    (role : String)
    → role_allows role agents_request ≡ true
    → role_allows role agents_request_decide ≡ true
    → role ≡ "owner"
unfolding role_allows
request_and_decide role h k = ground (arith, eq_iff "owner" role)

provision_or_reset :
    (role : String)
    → (role_allows role agents_provision ≡ true) ⊎ (role_allows role usage_control_reset ≡ true)
    → (role ≡ "owner") ⊎ (role ≡ "operator")
unfolding role_allows
provision_or_reset role h = ground (arith, eq_iff "owner" role, eq_iff "operator" role)

specialist_reads :
    (p : Permission) → role_allows "trader" p ≡ true → (p ≡ tasks_read) ⊎ (p ≡ tasks_comment)
unfolding role_allows
specialist_reads Permission.tasks_read h = inl refl
specialist_reads Permission.tasks_comment h = inr refl
specialist_reads _ h = cc

steward_reads : (p : Permission) → role_allows "data_steward" p ≡ true → p ≡ tasks_read
unfolding role_allows
steward_reads Permission.tasks_read h = refl
steward_reads _ h = cc

risk_as_trader : (p : Permission) → role_allows "risk_manager" p ≡ role_allows "trader" p
unfolding role_allows
risk_as_trader p = refl

not_steward : (role : String) → str_eq role "data_steward" ≡ false → role ≢ "data_steward"
not_steward role h e = ground (arith, eq_iff role "data_steward")

specialist :
    (role : String) (p : Permission)
    → role_allows role p ≡ true
    → (role ≡ "trader") ⊎ (role ≡ "risk_manager") ⊎ (role ≡ "data_steward")
    → (p ≡ tasks_read) ⊎ ((p ≡ tasks_comment) × (role ≢ "data_steward"))
specialist role p h (inl t) = elim (specialist_reads p (subst (λ r. role_allows r p ≡ true) t h)) [
  | inl reads ↦ inl reads
  | inr comments ↦ inr (comments, not_steward role (rw t))
]
specialist role p h (inr (inl t)) =
    elim (specialist_reads p (sym (risk_as_trader p) ∙ subst (λ r. role_allows r p ≡ true) t h)) [
      | inl reads ↦ inl reads
      | inr comments ↦ inr (comments, not_steward role (rw t))
    ]
specialist role p h (inr (inr t)) = inl (steward_reads p (subst (λ r. role_allows r p ≡ true) t h))

-- An actor that may both request an agent and decide on such requests has the role "owner".
pub request-decide_owner :
    (actor_id : String) (actor_roles : List (String × String))
    → actor_is_allowed actor_id agents_request actor_roles ≡ true
    → actor_is_allowed actor_id agents_request_decide actor_roles ≡ true
    → lookup actor_id actor_roles ≡ some "owner"
request-decide_owner actor_id actor_roles h k =
    let (role, e, g) = granted_role actor_id agents_request actor_roles h in
    let (role', e', g') = granted_role actor_id agents_request_decide actor_roles k in
    let same : role' ≡ role = cc in
    e
    ∙ ap some (
        request_and_decide role g (subst (λ r. role_allows r agents_request_decide ≡ true) same g'))

-- An actor that may apply agent requests or reset circuits has the role "owner" or "operator".
pub provision-reset_roles :
    (actor_id : String) (actor_roles : List (String × String))
    → (actor_is_allowed actor_id agents_provision actor_roles ≡ true)
      ⊎ (actor_is_allowed actor_id usage_control_reset actor_roles ≡ true)
    → (lookup actor_id actor_roles ≡ some "owner") ⊎ (lookup actor_id actor_roles ≡ some "operator")
provision-reset_roles actor_id actor_roles (inl h) =
    let (role, e, g) = granted_role actor_id agents_provision actor_roles h in
    ground (arith, provision_or_reset role (inl g), e)
provision-reset_roles actor_id actor_roles (inr h) =
    let (role, e, g) = granted_role actor_id usage_control_reset actor_roles h in
    ground (arith, provision_or_reset role (inr g), e)

-- An actor with the role "trader", "risk_manager" or "data_steward" may read tasks and, but for
-- the last, comment on them; it has no other permission.
pub specialist_permissions :
    (actor_id : String) (p : Permission) (actor_roles : List (String × String)) (role : String)
    → lookup actor_id actor_roles ≡ some role
    → (role ≡ "trader") ⊎ (role ≡ "risk_manager") ⊎ (role ≡ "data_steward")
    → actor_is_allowed actor_id p actor_roles ≡ true
    → (p ≡ tasks_read) ⊎ ((p ≡ tasks_comment) × (role ≢ "data_steward"))
specialist_permissions actor_id p actor_roles role e which h =
    let (role', e', g) = granted_role actor_id p actor_roles h in
    let same : role' ≡ role = cc in
    specialist role p (subst (λ r. role_allows r p ≡ true) same g) which
