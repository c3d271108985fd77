-- ===== src/Lib.antt =====
-- The control plane of Hermes Orchestrator: the services that keep the tasks of a group of agents,
-- their runs, approvals and costs, the deployments, and the agents themselves
-- (src/hermes_orchestrator).
--
-- Parts and files
--   Prelude and its children: the native numbers, lists, options and texts that all files share.
--   Models: the rows of models.py (Rows), the status words and the run transitions (Status), values
--     of JSON columns and `_integer` (Json), the settings of config.py that the services read, and
--     the functions of Python's library that they call (Settings); the tables of deployments and of
--     agent requests, with their schemas (Environments, Requests).
--   Store: tables with their keys (Table); a session of database.py as a state monad with its
--     uncommitted and its committed database, the exceptions and `request` (Exec); the rules by
--     which an action keeps an invariant (Keeps) or is taken apart (Inversion); tables whose keys
--     are distinct and below the next one (Fresh), tables rewritten row by row (Listed), and what
--     holds before and after an action (Triple).
--   Policy: policy.py. Permissions has `ROLE_PERMISSIONS` and `actor_is_allowed`, Edges has
--     `communication_is_allowed`.
--   Usage: usage_services.py. Limits has `resolve_limits`, Circuit `record_run_outcome` and
--     `reset_circuit`, Ledger `ingest_run_usage`, Controls `enforce_dispatch_controls`.
--   Task: task_services.py. Lease has `claim_dispatching_runs`, `heartbeat_run_lease` and
--     `release_run_lease`; Create, Dispatch, Transition, Handoff, Approval, Cancel, Expiry and
--     Comment have `create_task`, `dispatch_task`, `transition_run`, `handoff_task`,
--     `resolve_approval`, `cancel_task`, `expire_due_runs` and `add_comment`. Service puts them
--     together as requests to one store, and Terminal has the invariants that they all keep.
--   Environments: environment_services.py. Action has `_begin_action`, `_reject` and `_approve`,
--     Install `_current` and what every deployment ends with; Deploy, Promote and Rollback have
--     `deploy_environment` and `expire_local`, `promote_environment` and `rollback_environment`.
--     Service serves them to one store; Governed has the invariant that they keep.
--   Agents: Requests and Application are services.py; Profiles, Evaluation and Policy are
--     `evaluate_agent_request` and Process is `process_agent_request` of agent_policy.py; Payload is
--     the schema of provisioning.py, and Edges, Provisioning, Provision and Removal are
--     provisioning_services.py. Service serves them to one store; Rows and Duties have what the
--     rows of the requests keep.
--   Fixtures and the modules named Tests: concrete states, and the theorems at them.
--
-- How they interact
--   A dispatch asks Usage.Controls whether it may start; its refusal is an exception that the
--   dispatch turns into one of its own. A transition, a timeout, an approval and a cancellation end
--   runs, and then write the ledger and, the first two, the circuit of the worker. The policy
--   decides a request by Agents.Requests and has it applied by Agents.Provision, whose edges are the
--   ones that Policy.Edges reads. The environments read the tasks and the table of permissions.
--
-- Conventions
--   An operation is a function from a session to a result and a session. An exception leaves the
--   uncommitted changes in the session; `request` closes the session and keeps what was committed.
--   Where the code changes one object in several statements, the model builds the changed row and
--   saves it once. Times are microseconds, costs are millionths, identifiers are numbers, and
--   `uuid4` takes the next one. A row lock orders transactions, which run one after another here;
--   the rows that others hold while a claim skips them are its argument `locked`. A unique key that
--   is taken raises `integrity`. There is no fuel: every loop is a recursion on a list, a text, a
--   JSON value or the number of ports that are left.
--
-- Parameters
--   TextLibrary stands for `stable_hash`, `Decimal`, `datetime.fromisoformat`, `str` of a UUID,
--   `str.lower`, `json.dumps`, `json.loads` and `==` of dictionaries; no theorem asks anything of
--   them. AgentProvisioner is the provisioner, another process: what `apply` and `rollback` answer to
--   a payload. It may change from call to call.
--
-- Not modelled
--   The read-only reports of usage_services.py; the read-only listing of the environments;
--   `AgentPolicyCoordinator.run_once`; in `request_agent`, the key that another
--   transaction takes between the test and the flush; the renderer of provisioning.py, which writes
--   files. A request's payload has no key `request_id`, since its schema has none, and where
--   `rollback_agent_request` takes `str` of a value of the policy, the model reads texts only, which
--   is what the services write there. The fleet, the workflow coordinator, the run dispatcher and
--   its worker client, the operations reports, and the HTTP and MCP interfaces are left out.
pub mod Prelude
pub mod Models
pub mod Store
pub mod Fixtures
pub mod Policy
pub mod Usage
pub mod Task
pub mod Environments
pub mod Agents
