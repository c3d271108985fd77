-- ===== src/Usage/Ledger/Once.antt =====
-- A run has one entry in the ledger, however often its usage is ingested.
use hermes_orchestrator.Prelude.{
  ℕ, ◌≤◌, ◌≡◌, Bool, true, String, arith, eq_iff, ◌==◌, count, count-append, count_of_find-none,
  find-append,
}
use hermes_orchestrator.Models.Rows.{Run, UsageLedger}
use hermes_orchestrator.Models.Settings.{Settings, TextLibrary}
use hermes_orchestrator.Store.Exec.{Db, Session, ok, Task-Keyed, ◌>>=◌}
use hermes_orchestrator.Store.Keeps.{Keeps, LeavesLifecycle}
use hermes_orchestrator.Usage.Ledger.{ledger_entry, ingest_run_usage}

-- At most one entry of that run.
abbrev pub OneEntry : ℕ → Db → Type 0
OneEntry r d = count (λ e. e.run_id == r) d.usage_ledger ≤ 1

module _ (lib : TextLibrary) where
  ingest_at :
      (run : Run) (settings : Settings) (actor_id : String) (r : ℕ) (s : Session)
      → OneEntry r s.current
      → OneEntry r (ingest_run_usage lib run settings actor_id s).1.current
  unfolding ingest_run_usage ◌>>=◌ ledger_entry
  ingest_at run settings actor_id r s h = grind (
    arith,
    count_of_find-none (λ (e : UsageLedger). e.run_id == run.id) s.current.usage_ledger,
    count-append,
  )

  ingest_commits_nothing :
      (run : Run) (settings : Settings) (actor_id : String) (s : Session)
      → (ingest_run_usage lib run settings actor_id s).1.committed ≡ s.committed
  unfolding ingest_run_usage ◌>>=◌
  ingest_commits_nothing run settings actor_id s = ground arith

  -- Ingesting the usage of a run keeps the ledger at one entry for each run, whichever run it is.
  pub ingest-OneEntry :
      (run : Run) (settings : Settings) (actor_id : String) (r : ℕ)
      → Keeps (OneEntry r) (ingest_run_usage lib run settings actor_id)
  ingest-OneEntry run settings actor_id r = record {
    at = λ s h k. (
      ingest_at run settings actor_id r s h,
      rw (ingest_commits_nothing run settings actor_id s) k,
    );
  }

  -- Once the usage of a run is in the ledger, ingesting the same run again returns the same entry,
  -- says that it stood there, and changes nothing.
  pub ingest_again :
      (run : Run) (settings : Settings) (actor_id actor_id' : String) (s s' : Session)
      (e : UsageLedger) (stood : Bool)
      → ingest_run_usage lib run settings actor_id s ≡ (ok (e, stood), s')
      → ingest_run_usage lib run settings actor_id' s' ≡ (ok (e, true), s')
  unfolding ingest_run_usage ◌>>=◌ ledger_entry
  ingest_again run settings actor_id actor_id' s s' e stood h =
      grind (arith, find-append, eq_iff (lib.digest _) _)

  pub ingest-LeavesLifecycle :
      (run : Run) (settings : Settings) (actor_id : String)
      → LeavesLifecycle (ingest_run_usage lib run settings actor_id)
  unfolding ingest_run_usage ◌>>=◌
  ingest-LeavesLifecycle run settings actor_id = record {
    tasks = λ s. ground arith;
    runs = λ s. ground arith;
    approvals = λ s. ground arith;
    committed = λ s. ground arith;
  }

  pub ingest_next_id :
      (run : Run) (settings : Settings) (actor_id : String) (s : Session)
      → s.current.next_id ≤ (ingest_run_usage lib run settings actor_id s).1.current.next_id
  unfolding ingest_run_usage ◌>>=◌
  ingest_next_id run settings actor_id s = ground arith
