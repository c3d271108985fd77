-- ===== src/Task/Create.antt =====
-- `create_task` and `unmet_dependencies` of task_services.py.
pub mod Replay
use hermes_orchestrator.Prelude.{
  ℕ, Bool, true, false, ◌||◌, ◌&&◌, not, String, Option, none, some, List, [], ◌∷◌, ◌++◌, map,
  str_eq, ◌==◌, find, filter, is_some, or_else, if◌then◌else◌,
}
use hermes_orchestrator.Models.Json.{
  Fields, end, field, text, number, uuid, boolean, array, object, texts, uuids, opt_text, opt_uuid,
  opt_instant,
}
use hermes_orchestrator.Models.Status.{TaskStatus, task_status_eq}
use hermes_orchestrator.Models.Rows.{Task, TaskDependency}
use hermes_orchestrator.Models.Settings.{TextLibrary}
use hermes_orchestrator.Store.Table
use hermes_orchestrator.Store.Exec.{
  Db, Exec, Exception, Code, error, pure, gets, modify, raise_if, uuid4, commit, Task-Keyed, ◌>>=◌,
  ◌>>◌,
}
use hermes_orchestrator.Task.Base.{append_audit, get_task}

-- The body of `POST /v1/tasks` (`TaskCreate` of schemas.py); only the workflow coordinator gives an
-- `operation_id`.
pub record TaskCreate : Type 0 where
  pub operation_id : Option ℕ
  pub objective : String
  pub acceptance_criteria : List String
  pub assignee_actor_id : Option String
  pub reviewer_actor_id : Option String
  pub independent_review : Bool
  pub priority : ℕ
  pub parent_task_id : Option ℕ
  pub workflow_ref : Option String
  pub dependency_ids : List ℕ
  pub budget : Fields
  pub references : List String
  pub deadline_at : Option ℕ

operation_field : Option ℕ → Fields → Fields
operation_field none fields = fields
operation_field (some id) fields = field "operation_id" (uuid id) fields

-- `body.model_dump()`
pub task_fields : TaskCreate → Fields
unfolding operation_field
task_fields p = operation_field p.operation_id (
    field "objective" (text p.objective) (
      field "acceptance_criteria" (array (texts p.acceptance_criteria)) (
        field "assignee_actor_id" (opt_text p.assignee_actor_id) (
          field "reviewer_actor_id" (opt_text p.reviewer_actor_id) (
            field "independent_review" (boolean p.independent_review) (
              field "priority" (number p.priority) (
                field "parent_task_id" (opt_uuid p.parent_task_id) (
                  field "workflow_ref" (opt_text p.workflow_ref) (
                    field "dependency_ids" (array (uuids p.dependency_ids)) (
                      field "budget" (object p.budget) (
                        field "references" (array (texts p.references))
                          (field "deadline_at" (opt_instant p.deadline_at) end))))))))))))

-- Some identifier names no task.
pub some_missing : Db → List ℕ → Bool
some_missing d [] = false
some_missing d (i ∷ is) = not (is_some (Table.get i d.tasks)) || some_missing d is

mem_id : ℕ → List ℕ → Bool
mem_id i [] = false
mem_id i (j ∷ js) = i == j || mem_id i js

-- A link twice breaks the primary key of the links.
pub has_duplicates : List ℕ → Bool
unfolding mem_id
has_duplicates [] = false
has_duplicates (i ∷ is) = mem_id i is || has_duplicates is

parent_missing : Db → Option ℕ → Bool
parent_missing d none = false
parent_missing d (some p) = not (is_some (Table.get p d.tasks))

new_task : String → String → String → TaskCreate → ℕ → ℕ → Task
new_task actor_id idempotency_key request_hash p id operation_id = record {
  id = id;
  operation_id = or_else p.operation_id operation_id;
  parent_task_id = p.parent_task_id;
  workflow_ref = p.workflow_ref;
  requester_actor_id = actor_id;
  assignee_actor_id = p.assignee_actor_id;
  reviewer_actor_id = p.reviewer_actor_id;
  priority = p.priority;
  status = TaskStatus.pending;
  idempotency_key = idempotency_key;
  request_hash = request_hash;
  objective = p.objective;
  acceptance_criteria = p.acceptance_criteria;
  budget = p.budget;
  references = p.references;
  independent_review = p.independent_review;
  deadline_at = p.deadline_at;
  cancel_idempotency_key = none;
}

dependency_links : ℕ → List ℕ → List TaskDependency
dependency_links id = map λ value. record {
  task_id = id;
  depends_on_task_id = value;
  required_status = TaskStatus.completed;
}

-- A key that was used before: the same request, or a conflict.
unfoldable pub replay_task : String → String → Task → Exec (Task × Bool)
unfolding get_task
replay_task actor_id request_hash existing = do
  raise_if
      (not (str_eq existing.request_hash request_hash)
        || not (str_eq existing.requester_actor_id actor_id))
      (error Code.idempotency_conflict)
  task ← get_task existing.id
  pure (task, true)

unfoldable pub insert_task : String → String → String → TaskCreate → Exec (Task × Bool)
unfolding some_missing has_duplicates parent_missing new_task dependency_links append_audit get_task
insert_task actor_id idempotency_key request_hash p = do
  d ← gets (λ d. d)
  raise_if (some_missing d p.dependency_ids) (error Code.dependency_not_found)
  id ← uuid4
  operation_id ← uuid4
  raise_if (parent_missing d p.parent_task_id) Exception.integrity
  modify λ d. record d {
    tasks = d.tasks ++ new_task actor_id idempotency_key request_hash p id operation_id ∷ [];
  }
  raise_if (has_duplicates p.dependency_ids) Exception.integrity
  modify λ d. record d {
    task_dependencies = d.task_dependencies ++ dependency_links id p.dependency_ids;
  }
  append_audit actor_id "task.created" "task" id
      (field "idempotency_key" (text idempotency_key) end)
  commit
  task ← get_task id
  pure (task, false)

task_by_key : String → Db → Option Task
task_by_key idempotency_key d = find (λ t. str_eq t.idempotency_key idempotency_key) d.tasks

unfoldable pub replay_or_insert :
    String → String → String → TaskCreate → Option Task → Exec (Task × Bool)
unfolding replay_task insert_task
replay_or_insert actor_id idempotency_key request_hash p none =
    insert_task actor_id idempotency_key request_hash p
replay_or_insert actor_id idempotency_key request_hash p (some existing) =
    replay_task actor_id request_hash existing

-- The task, and whether the call was a replay.
unfoldable pub create_task : TextLibrary → String → String → TaskCreate → Exec (Task × Bool)
unfolding replay_or_insert task_by_key
create_task lib actor_id idempotency_key p = do
  existing ← gets (task_by_key idempotency_key)
  replay_or_insert actor_id idempotency_key (lib.digest (task_fields p)) p existing

link_unmet : Db → TaskDependency → Bool
link_unmet d link = elim (Table.get link.depends_on_task_id d.tasks) [
  | none ↦ true
  | some t ↦ not (task_status_eq t.status link.required_status)
]

-- `unmet_dependencies`
unfoldable pub unmet_dependencies : Db → Task → List ℕ
unfolding link_unmet
unmet_dependencies d task =
    map (λ (l : TaskDependency). l.depends_on_task_id)
      (filter (λ l. l.task_id == task.id && link_unmet d l) d.task_dependencies)
