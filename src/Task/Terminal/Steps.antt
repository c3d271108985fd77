-- ===== src/Task/Terminal/Steps.antt =====
-- The invariant through the steps that the operations are made of.
use hermes_orchestrator.Prelude.{suc, arith, ℕ, ◌≤◌, ◌==◌, sym, subst, String, Option, All, count}
use hermes_orchestrator.Models.Rows.{Task, Run, Approval, AuditEvent, UsageLedger}
use hermes_orchestrator.Models.Settings.{Settings, TextLibrary}
use hermes_orchestrator.Store.Table
use hermes_orchestrator.Store.Exec.{
  Db, Exec, save_task, save_run, save_approval, add_audit, uuid4, Run-Keyed, Task-Keyed,
  Approval-Keyed,
}
use hermes_orchestrator.Store.Fresh.{put-FreshIds, more-FreshIds, Keeps-Fresh}
use hermes_orchestrator.Store.Keeps.{
  Keeps, Keeps-modify, Keeps-uuid4, Keeps-LeavesLifecycle, keeps_rules,
}
use hermes_orchestrator.Usage.Circuit.{record_run_outcome}
use hermes_orchestrator.Usage.Circuit.Breaking.{
  record_run_outcome-LeavesLifecycle, record_run_outcome_ledger, record_run_outcome_next_id,
}
use hermes_orchestrator.Usage.Ledger.{ingest_run_usage}
use hermes_orchestrator.Usage.Ledger.Once.{
  OneEntry, ingest-LeavesLifecycle, ingest-OneEntry, ingest_next_id,
}
use hermes_orchestrator.Task.Base.{get_run, get_task}
use hermes_orchestrator.Task.Terminal.{EndedRun, WellFormed}

-- Two invariants, or one for each number, are kept together.
Keeps-pair :
    {A : Type 0} {P Q : Db → Type 0} (m : Exec A) → Keeps P m → Keeps Q m → Keeps (λ d. P d × Q d) m
Keeps-pair m kp kq = record {
  at = λ s h k.
      let (h', k') = kp.at s h.0 k.0 in let (i', l') = kq.at s h.1 k.1 in ((h', i'), (k', l'));
}

Keeps-all :
    {A : Type 0} {P : ℕ → Db → Type 0} (m : Exec A)
    → ((r : ℕ) → Keeps (P r) m)
    → Keeps (λ d. (r : ℕ) → P r d) m
Keeps-all m k = record {
  at = λ s h c. ((λ r. ((k r).at s (h r) (c r)).0), (λ r. ((k r).at s (h r) (c r)).1));
}

record_run_outcome-OneEntry :
    (run : Run) (settings : Settings) (actor_id : String) (now : Option ℕ) (r : ℕ)
    → Keeps (OneEntry r) (record_run_outcome run settings actor_id now)
record_run_outcome-OneEntry run settings actor_id now r = record {
  at = λ s h k. (
    subst (λ es. count (λ (e : UsageLedger). e.run_id == r) es ≤ 1)
        (sym (record_run_outcome_ledger run settings actor_id now s)) h,
    subst (OneEntry r)
        (sym ((record_run_outcome-LeavesLifecycle run settings actor_id now).committed s)) k,
  );
}

pub save_run-WellFormed : (r : Run) → EndedRun r → Keeps WellFormed (save_run r)
save_run-WellFormed r e = Keeps-modify _ (λ d h. (
  (Table.All-put EndedRun r d.runs e h.0.0, h.0.1),
  (put-FreshIds r d.next_id d.runs h.1.0, h.1.1),
))

pub save_task-WellFormed : (t : Task) → Keeps WellFormed (save_task t)
save_task-WellFormed t = Keeps-modify _ (λ d h. h)

pub save_approval-WellFormed : (a : Approval) → Keeps WellFormed (save_approval a)
save_approval-WellFormed a =
    Keeps-modify _ (λ d h. (h.0, (h.1.0, put-FreshIds a d.next_id d.approvals h.1.1)))

pub add_audit-WellFormed : (e : AuditEvent) → Keeps WellFormed (add_audit e)
add_audit-WellFormed e = Keeps-modify _ (λ d h. h)

pub uuid4-WellFormed : Keeps WellFormed uuid4
uuid4-WellFormed = Keeps-uuid4 (λ d h. (
  h.0,
  (
    more-FreshIds d.next_id (suc d.next_id) d.runs (omega arith) h.1.0,
    more-FreshIds d.next_id (suc d.next_id) d.approvals (omega arith) h.1.1,
  ),
))

pub get_task-WellFormed : (id : ℕ) → Keeps WellFormed (get_task id)
unfolding get_task
get_task-WellFormed id = search keeps_rules

pub get_run-WellFormed : (id : ℕ) → Keeps WellFormed (get_run id)
unfolding get_run
get_run-WellFormed id = search keeps_rules

pub ingest-WellFormed :
    (lib : TextLibrary) (run : Run) (settings : Settings) (actor_id : String)
    → Keeps WellFormed (ingest_run_usage lib run settings actor_id)
ingest-WellFormed lib run settings actor_id =
    let l = ingest-LeavesLifecycle lib run settings actor_id in
    Keeps-pair _
      (Keeps-pair _ (Keeps-LeavesLifecycle (All EndedRun) _ l)
        (Keeps-all _ (λ r. ingest-OneEntry lib run settings actor_id r)))
      (Keeps-Fresh _ l (ingest_next_id lib run settings actor_id))

pub record_run_outcome-WellFormed :
    (run : Run) (settings : Settings) (actor_id : String) (now : Option ℕ)
    → Keeps WellFormed (record_run_outcome run settings actor_id now)
record_run_outcome-WellFormed run settings actor_id now =
    let l = record_run_outcome-LeavesLifecycle run settings actor_id now in
    Keeps-pair _
      (Keeps-pair _ (Keeps-LeavesLifecycle (All EndedRun) _ l)
        (Keeps-all _ (λ r. record_run_outcome-OneEntry run settings actor_id now r)))
      (Keeps-Fresh _ l (record_run_outcome_next_id run settings actor_id now))
