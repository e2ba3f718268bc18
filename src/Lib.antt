-- ===== src/Lib.antt =====
-- The core of PHYLUM, a local agent runtime: the state graphs that its pipelines run on, the scheduler
-- of a plan's tasks, the durable queue of goals, the sessions of a workspace, the policy that lets a
-- task pass or asks the user, the paths that a run may touch, the recovery of failures, the context
-- window of the language model, the lock for desktop automation, the watchdog for frozen windows and
-- the event bus.
--
-- How the parts interact. A goal is taken from the queue and run by walking one of three graphs, whose
-- nodes call the planner, the scheduler, the policy engine, the tools and the recovery engine. The
-- conditions on a graph's edges read the verdict of the policy, the result of the tool and the
-- classification of the recovery engine. A task of the file tool is tested against the scope of its
-- run, a task of the desktop takes the operation lock, and the agentic loop compresses its messages to
-- the context window before each call; the runs of a goal are recorded in a session. The runtime
-- reports through the event bus.
--
-- The files and their sources.
-- - Common and its children: lists, dictionaries, a stable sort and tests on native numbers. A `dict`
--   is an association list in the order of insertion; `d[k] = v` is `put`, `d.get(k)` is `get`.
-- - StateGraph: the data and the builder methods of `StateGraph` in core/state_graph.py. Its children:
--   Order, Closed and Built for what the builder and `compile` keep; Executor for `GraphExecutor.run`,
--   with Rounds, Trail, Ends and Resolve for its runs; Recovery for `find_recovery_target`; Cuts for
--   gates that every walk passes.
-- - Pipelines: the conditions of core/graph_definitions.py. Local is `build_local_graph`, and Agentic
--   is `build_agentic_graph` and `build_manual_graph`; the children say which node follows which
--   result.
-- - TaskGraph: `TaskGraphScheduler` of core/task_graph.py. Validation is its `validate`; Release and
--   Acyclic follow its loop, Dependencies is the dictionary that it reads, and Cycles its answers.
-- - Queue: `DurableQueue` of persistence/durable_queue.py.
-- - SessionManager: `SessionManager` of persistence/session_manager.py. Interleaving splits its calls
--   into the transactions that others may come between.
-- - RiskClassifier: `normalize_command` and `classify` of safety/risk_classifier.py.
-- - Policy: `PolicyEngine` of safety/policy_engine.py; Sandbox joins it with the tests of paths of the
--   file tool.
-- - RecoveryEngine: `RecoveryEngine` of safety/recovery_engine.py, and `suggest_script_recovery` of
--   execution/execution_strategy.py.
-- - EventBus: core/event_bus.py.
-- - FilesystemScope: `RunFilesystemScope` of core/filesystem_scope.py, and the tests of paths of
--   tools/tool_filesystem.py.
-- - ContextWindow: `ContextWindowManager` of core/context_window.py.
-- - Watchdog: the detector and the recoveries of core/process_watchdog.py.
-- - AgenticLoop: the loop of `AgenticLoop.run` in core/agentic_loop.py. Its children: Turns and
--   Conversation for the answers to the calls of a turn, Partition and Order for the tasks that are
--   run, Journal and Execution for what a run starts, Requests for the repeated requests of a step,
--   Protocol and Runs for the whole run, and Resume for `_apply_handoff_response` of
--   core/runtime_manager.py.
-- - ActionExecutor: `ActionExecutor.execute` of core/action_executor.py. Guards is what may stand in
--   its log, Attempts and Ends its attempts, and Pauses a handoff inside its `try`.
-- - RuntimeManager: the approvals of core/runtime_manager.py. Families and Grants are about the grants
--   that they leave, and Waiters about the futures that a run waits on. Lifecycle is the cancellation,
--   the reply and the resumption of a run, and its child Resumption when a run is started again.
-- - UiLock: core/ui_lock.py; System is the lock among the tasks that use it.
-- - Examples: runs on concrete inputs.
--
-- State is passed explicitly: an operation takes the old state and gives the new one with its result.
-- A handler of a graph is a function to an outcome, which returns, raises or is cancelled; an
-- exception in a condition is `none`. A call of the event bus is synchronous, since the bus changes
-- before it waits.
--
-- Bounds and fuel. The executor's loop is recursion on `max_visits`, the source's own bound (200 by
-- default), so the fuel is the program's; the agentic loop's fuel is its `max_steps` in the same way,
-- and the fuel of the requests of a step is 3, since a larger model and fewer tools are each tried
-- once. The executor of a task has as much fuel as its attempts are left, and one more. The loop of
-- `validate` has as much fuel as there are ids. Other loops are recursion on lists. Numbers are
-- Python's integers, which do not overflow, and are natural where the source has no negative ones.
-- Times are numbers of microseconds, and of milliseconds for the watchdog.
--
-- Parameters. The handlers and conditions of a graph; the table of tools, the allowed paths and the
-- regular expressions for the policy; the detection of missing modules and the script generator for
-- the recovery engine; the file system and `pathlib` for the scopes; the windows and processes for the
-- watchdog; for the agentic loop the answers of the language model and the tests of its errors, the
-- budget, the validation of calls, the tasks and the sub-agents, whose answers may depend on all that
-- the run has done before, and in the same way for the action executor the verdict of the policy, the
-- tool, the user and the reflection; the ids of new grants; JSON, regular expressions and slices of
-- texts for the context window.
--
-- Not modelled: texts for the user, logging, methods that only report, `prepare` and `snapshot` of the
-- scheduler, the connection to SQLite, the fast path and the sub-agents' branches of the agentic loop,
-- its metrics, the language model's agents and providers, the tools, the servers and the user
-- interface.
pub mod Common
pub mod StateGraph
pub mod Pipelines
pub mod TaskGraph
pub mod Queue
pub mod RiskClassifier
pub mod Policy
pub mod RecoveryEngine
pub mod EventBus
pub mod FilesystemScope
pub mod ContextWindow
pub mod SessionManager
pub mod UiLock
pub mod Watchdog
pub mod AgenticLoop
pub mod ActionExecutor
pub mod RuntimeManager
pub mod Examples
