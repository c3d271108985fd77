-- ===== src/Environments/Approved/Reversal.antt =====
-- What a rollback that went through has passed.
use hermes_orchestrator.Prelude.{
  ap, ℕ, ◌≡◌, refl, sym, ◌∙◌, subst, false, ◌⊎◌, String, Option, some, [], ◌∷◌, arith, eq_iff,
  str_eq, str_in, not,
}
use hermes_orchestrator.Models.Environments.{
  EnvironmentDeployment, EnvironmentAction, EnvironmentApprovalEvidence, EnvironmentRollbackCreate,
}
use hermes_orchestrator.Models.Settings.{Settings, TextLibrary}
use hermes_orchestrator.Store.Table
use hermes_orchestrator.Store.Exec.{Db, Session, ok, save_action, EnvironmentDeployment-Keyed}
use hermes_orchestrator.Store.Inversion.{gets-bind-ok, bind-ok}
use hermes_orchestrator.Environments.Action.{EnvironmentResult}
use hermes_orchestrator.Environments.Install.{new_deployment, current_of}
use hermes_orchestrator.Environments.Inversion.{reject_if-bind-ok, or_reject-bind-ok, Begun-ok}
use hermes_orchestrator.Environments.Approved.{Independent, approve-Independent, replace-finish-ok}
use hermes_orchestrator.Environments.Rollback.{
  rollback_draft, rollback_to, rollback_new, rollback_environment,
}
use hermes_orchestrator.Environments.Governed.Reversal.{rollback_target_of}

-- A rollback of the running deployment of pre or prod-sim to a stored one, approved independently.
pub record RolledBack (settings : Settings) (environment : String)
    (body : EnvironmentRollbackCreate) (actor_id : String) (d : Db) (e : EnvironmentDeployment)
    : Type 0 where
  pub known : (environment ≡ "pre") ⊎ (environment ≡ "prod-sim")
  pub target : EnvironmentDeployment
  pub current : EnvironmentDeployment
  pub stored : Table.get body.target_deployment_id d.environment_deployments ≡ some target
  pub here : target.environment ≡ environment
  pub running : current_of environment "shared" d ≡ some current
  pub replaces : e.rollback_of_deployment_id ≡ some current.id
  pub same_environment : e.environment ≡ environment
  pub same_repository : e.repository ≡ target.repository
  pub same_kind : e.ref_kind ≡ target.ref_kind
  pub same_value : e.ref_value ≡ target.ref_value
  pub same_sha : e.resolved_sha ≡ target.resolved_sha
  pub named : e.approval_actor_id ≡ some body.approval.actor_id
  pub independent :
      Independent settings actor_id body.approval.actor_id (str_eq environment "prod-sim")

RolledBack-row :
    (settings : Settings) (environment : String) (body : EnvironmentRollbackCreate)
    (actor_id : String) (d : Db) (target current : EnvironmentDeployment) (a : EnvironmentAction)
    (evidence : EnvironmentApprovalEvidence) (now id : ℕ) (e : EnvironmentDeployment)
    → not (str_in environment ("pre" ∷ "prod-sim" ∷ [])) ≡ false
    → Table.get body.target_deployment_id d.environment_deployments ≡ some target
    → target.environment ≡ environment
    → current_of environment "shared" d ≡ some current
    → ◌≡◌ {A = Option EnvironmentApprovalEvidence} (some body.approval) (some evidence)
    → a.approval_actor_id ≡ some evidence.actor_id
    → Independent settings actor_id evidence.actor_id (str_eq environment "prod-sim")
    → e
      ≡ new_deployment
          (rollback_draft environment actor_id target current a.approval_actor_id)
          now
          id
    → RolledBack settings environment body actor_id d e
unfolding new_deployment rollback_draft
RolledBack-row settings environment body actor_id d target current a evidence now id e known at here
      runs given kept independent made =
    let same : body.approval ≡ evidence = ground arith in
    subst (RolledBack settings environment body actor_id d) (sym made) (record {
      known = ground (arith, eq_iff "pre" environment, eq_iff "prod-sim" environment);
      target = target;
      current = current;
      stored = at;
      here = here;
      running = runs;
      replaces = refl;
      same_environment = refl;
      same_repository = refl;
      same_kind = refl;
      same_value = refl;
      same_sha = refl;
      named = kept ∙ sym (ap (λ x. some x.actor_id) same);
      independent =
          subst (λ x. Independent settings actor_id x.actor_id (str_eq environment "prod-sim"))
            (sym same) independent;
    })

rollback_new-RolledBack :
    (settings : Settings) (environment : String) (body : EnvironmentRollbackCreate)
    (actor_id : String) (a : EnvironmentAction) (s s' : Session) (r : EnvironmentResult)
    → rollback_new settings environment body actor_id a s ≡ (ok r, s')
    → RolledBack settings environment body actor_id s.current r.deployment
unfolding rollback_new rollback_to
rollback_new-RolledBack settings environment body actor_id a s s' r h =
    let (known, h1) = reject_if-bind-ok a actor_id _ _ _ _ s s' r h in
    let h2 = gets-bind-ok _ _ s s' r h1 in
    let h3 = gets-bind-ok _ _ s s' r h2 in
    let (target, found, h4) = or_reject-bind-ok a actor_id _ _ _ _ s s' r h3 in
    let (current, runs, h5) = or_reject-bind-ok a actor_id _ _ _ _ s s' r h4 in
    let (approved, granted, h6) = or_reject-bind-ok a actor_id _ _ _ _ s s' r h5 in
    let (done, saved, h7) = bind-ok (save_action approved) _ s s' r h6 in
    let of_target = rollback_target_of environment _ target found in
    let (evidence, given, kept, independent) =
      approve-Independent settings a approved actor_id (some body.approval) _ granted in
    let (now, id, made) = replace-finish-ok _ _ approved actor_id _ _ _ s' r h7 in
    RolledBack-row settings environment body actor_id s.current target current approved evidence now
      id r.deployment known of_target.0 of_target.1 runs given kept independent made

-- The same of a state with the same deployments.
RolledBack-untouched :
    (settings : Settings) (environment : String) (body : EnvironmentRollbackCreate)
    (actor_id : String) (d d' : Db) (e : EnvironmentDeployment)
    → d'.environment_deployments ≡ d.environment_deployments
    → RolledBack settings environment body actor_id d' e
    → RolledBack settings environment body actor_id d e
unfolding current_of
RolledBack-untouched settings environment body actor_id d d' e same r = record {
  known = r.known;
  target = r.target;
  current = r.current;
  stored = rw (← same) r.stored;
  here = r.here;
  running = rw (← same) r.running;
  replaces = r.replaces;
  same_environment = r.same_environment;
  same_repository = r.same_repository;
  same_kind = r.same_kind;
  same_value = r.same_value;
  same_sha = r.same_sha;
  named = r.named;
  independent = r.independent;
}

-- A rollback that goes through, and is no replay, is of pre or prod-sim; its deployment has the
-- repository, the reference and the commit of the stored target, which is of that environment, names
-- the deployment that was running as the one it replaces, and carries the approval of another actor
-- who may decide approvals and who, for prod-sim, is an owner or an operator.
pub rollback-RolledBack :
    (lib : TextLibrary) (settings : Settings) (environment : String)
    (body : EnvironmentRollbackCreate) (actor_id key : String) (s s' : Session)
    (r : EnvironmentResult)
    → rollback_environment lib settings environment body actor_id key s ≡ (ok r, s')
    → r.replayed ≡ false
    → RolledBack settings environment body actor_id s.current r.deployment
unfolding rollback_environment
rollback-RolledBack lib settings environment body actor_id key s s' r h fresh =
    let b = Begun-ok lib _ _ s s' r h fresh in
    RolledBack-untouched settings environment body actor_id s.current b.opened.current r.deployment
      b.untouched
      (rollback_new-RolledBack settings environment body actor_id b.action b.opened s' r b.went)
