-- ===== src/Lib.antt =====
-- The verification library of the cognitive agent: its guardian approvals, its action engine, its
-- repair queue, its messages, tasks, reminders and recurring work, and the registry and the growth
-- of its child modules.
--
-- The agent acts on its own only inside limits that its guardian sets. An action of more than low
-- risk is stored as an approval, the guardian answers it, and the action engine claims and runs it.
-- Failures that the agent notices in itself are collected in the repair queue until there is
-- evidence enough for a repair. Reminders and recurring tasks make the agent act at a later time, and
-- what it sends goes through the same approvals. Child modules that the agent has written grow from
-- shadow runs to full activity on the ticks of a worker.
--
-- Common: shared names, Boolean tests on numbers and strings, lists, code points (Text), integers,
--   and Python's `int` of a text (Digits, for ASCII digits).
-- Database: a table as an interface with its laws, and Memory, an implementation that has them.
-- Safety/Policy and Safety/Gate: app/safety/policy.py (`classify`) and app/safety/approval_gate.py
--   (`evaluate`), on texts as lists of code points, since `strip` and `lower` work on characters.
-- Safety/World: the state the calls share: the table of app/db/models.py `CognitiveApproval`, the
--   audit log with its fallback file (app/safety/audit_logger.py), decision memories, the calls made
--   to the outside, a clock, and a list that says which of the coming writes fail. `session` is
--   `session_scope`: it commits whole, or rolls back and raises. Calls return or raise (`Outcome`).
-- Safety/Keeps: predicates that lead from the state before a call to the state after it.
-- Safety/Approvals: app/safety/approvals.py, one function for each operation that writes, and
--   `get_approval`. Rows says what each operation does to each row, Claims is about the
--   compare-and-set of `claim_execution`, History about the life cycle of an approval.
-- ActionEngine: app/brain/action_engine.py with `propose`, `execute_approved` and `_execute`
--   (`execute`); the stages of `execute_approved` after its early returns are functions of their own
--   (`execute_row`, `after_claim`, `run_loaded`, `run_claimed`, `close`). The functions behind the
--   actions are a parameter `handler`, which may change the state and may raise; where a theorem
--   needs it, the handler adds approvals at most (`IsContained`). JSON is a parameter with the
--   round trip of `dumps` and `loads`.
-- TodySend: `request_send`, `request_reply` and `execute_send` of app/agents/tody_agent.py, on the
--   approval store. `send_payload` is `_send_payload`, whose dictionary is a record of optional
--   entries; `json` is a parameter `Payloads` with the round trip of `dumps` and `loads`. The TODY
--   client, the event log and the dialogue memory are a parameter `Services`, whose calls may raise;
--   where a theorem needs it they add approvals at most (`IsContained`). Claimed is about the part after the claim, Once about a whole run.
-- TodyTasks: app/agents/tody_task_actions.py: the payload of a task, and in Actions the guardian's
--   participation and the calls of the TODY client, a parameter whose answers may depend on the calls
--   before. Ids is about the assignees, Preview about the guardian's participation,
--   Actions/Prepared about what is sent for parameters that are prepared, Actions/Sent about all
--   that is sent.
-- RepairQueue: app/brain/repair_queue.py with `note_failure`, `_is_ready`, `mark` and `_slug`. A row
--   under a signature is one `Intention`; `note_row` is what one occurrence makes of it. The table is
--   a parameter `QueueOps`. The audit events of `note_failure` are left out. Tiers is about the
--   evidence tiers, Queue about the table.
-- WallClock: the guardian's wall clock, and the next moment at which it shows a time.
-- AutonomousTasks: app/brain/autonomous_tasks.py. Schedule has `_compute_next_run`, Worker the
--   operations and the run loop, with both sessions of a run and the nested audit events, Due the
--   query and `run_due`. The work of the handlers is a parameter `handler`, which may change the
--   state. Worker/Caps is about the daily cap, Worker/Status about which tasks run.
-- ProspectiveMemory: app/brain/prospective_memory.py. Parse has `_mk_due` and `_deterministic_parse`
--   over what the regular expressions find; the parent has `extract`, and Sending has `_mark`, `cancel`
--   and `fire_due` (`list_due` is a parameter), which calls Safety/Approvals and TodySend. Kept is
--   about `extract`, Sending/Fired about `fire_due`.
-- ModuleLifecycle: app/brain/module_lifecycle.py with the health of app/brain/module_runtime.py and
--   the rollback test of app/brain/canary_controller.py. What a run of a module gives is an input.
--   Growth is about any number of ticks.
-- Capabilities: app/brain/capability_registry.py: what a child module may ask for. A set of texts is
--   the sorted list that the source stores. Limits says what the tests of the code say of a valid
--   request, Granted what it asks for.
-- ModuleRegistry: app/brain/module_registry.py: registration, status changes and activation of child
--   modules (Operations), over lists of rows; a transaction commits, or fails and writes nothing. Safe
--   is about the rows, Logged about the control log. Hashes, the constraints of the database and
--   `log_module_event`, which nothing calls, are left out.
-- Coding: app/coding/agent.py with app/safety/risk_classifier.py. Types, and the monad of steps over a
--   trace of events (the newest first). A value in a tool call or a review may have any type, and the
--   code's `TypeError` and `AttributeError` are errors of the model. Risk is the classifier, Malformed
--   says where it raises, Json `_extract_json`, Transcript
--   `_compact`, Dispatch `_route` and `_dispatch`, Plan `make_plan`, Execute the run and what a tool
--   result adds to it, Rounds `execute` (`_run_verification`, `_self_review` and the loop included).
--   Ensures has the rules for the steps, Guarded is about one call, Outcomes says how a run may
--   end, Answered is about one reply of the model, Finished about the loop, Runs about whole runs. The steps are bounded by max_steps and max_read_steps.
-- Tests: the theorems at concrete inputs.
--
-- Numbers are natural numbers; scores are hundredths and error rates ten-thousandths, as the columns
-- keep them, and the tests on means compare sums. All loops are structural, so no fuel is needed.
-- Moments are microseconds in UTC; within one call the clock stands still, except where a handler
-- moves it. The concurrency of callers is the order of operations in a list: each operation is one
-- transaction.
--
-- Not modelled: the network, the language model, the prompts, the worker processes, the loading and
-- the time limit of child modules, an approver that raises, and the
-- remaining parts of the agent.
pub mod Common
pub mod WallClock
pub mod Database
pub mod Safety
pub mod ActionEngine
pub mod TodySend
pub mod TodyTasks
pub mod RepairQueue
pub mod AutonomousTasks
pub mod ProspectiveMemory
pub mod ModuleLifecycle
pub mod Capabilities
pub mod ModuleRegistry
pub mod Coding
mod Tests
