-- ===== src/Pipelines/Local.antt =====
-- `build_local_graph` of core/graph_definitions.py: the graph of the local heuristic pipeline.
pub mod Routes
pub mod Failures
use phylum.StateGraph.{
  NodeType, entry, planner, router, safety, approval, executor, reflection, recovery, checkpoint,
  handoff, complete, fail, script_recovery, StateGraph, Compiled, ok, error, empty, add_node,
  add_edge, compile,
}
use mathlib.Core.Bool.{decide}
use phylum.Common.{◌≡◌, refl}
use phylum.Common.Dict.{get, put}
use phylum.Common.Sort.{sort}
use phylum.Pipelines.{
  Graph, PipelineState, StepResult, ◌▹◌, node, edge, plain, graph_of, edge_success, edge_error,
  edge_has_tasks, edge_no_tasks, edge_denied, edge_needs_approval, edge_allowed,
  edge_approval_granted, edge_approval_rejected, edge_task_succeeded, edge_task_partial,
  edge_task_failed, edge_retryable, edge_needs_user, edge_script_recovery, edge_replan_required,
  edge_terminal_failure, edge_always,
}

abbrev local_nodes : Graph → Graph
local_nodes g =
    g
    ▹ node "entry" entry
    ▹ node "planner" planner
    ▹ node "plan_empty" complete
    ▹ node "task_picker" router
    ▹ node "safety" safety
    ▹ node "approval" approval
    ▹ node "executor" executor
    ▹ node "reflection" reflection
    ▹ node "recovery" recovery
    ▹ node "script_recovery" script_recovery
    ▹ node "checkpoint" checkpoint
    ▹ node "handoff" handoff
    ▹ node "complete" complete
    ▹ node "fail" fail

abbrev local_task_edges : Graph → Graph
local_task_edges g =
    g
    ▹ plain "entry" "planner" "start"
    ▹ edge "planner" "plan_empty" edge_no_tasks 10 "no tasks"
    ▹ edge "planner" "task_picker" edge_has_tasks 20 "has tasks"
    ▹ edge "planner" "fail" edge_error 5 "planner error"
    ▹ edge "task_picker" "complete" edge_no_tasks 10 "all done"
    ▹ edge "task_picker" "safety" edge_has_tasks 20 "next task"
    ▹ edge "safety" "fail" edge_denied 10 "denied"
    ▹ edge "safety" "approval" edge_needs_approval 20 "needs approval"
    ▹ edge "safety" "executor" edge_allowed 30 "allowed"
    ▹ edge "approval" "executor" edge_approval_granted 10 "approved"
    ▹ edge "approval" "fail" edge_approval_rejected 20 "rejected"
    ▹ edge "executor" "reflection" edge_success 10 "executed"
    ▹ edge "executor" "recovery" edge_error 20 "execution failed"

abbrev local_outcome_edges : Graph → Graph
local_outcome_edges g =
    g
    ▹ edge "reflection" "checkpoint" edge_task_succeeded 10 "succeeded"
    ▹ edge "reflection" "recovery" edge_task_partial 20 "partial/blocked"
    ▹ edge "reflection" "recovery" edge_task_failed 30 "task failed"
    ▹ edge "reflection" "checkpoint" edge_always 99 "fallback to checkpoint"
    ▹ plain "checkpoint" "task_picker" "next task"
    ▹ edge "recovery" "executor" edge_retryable 10 "retry"
    ▹ edge "recovery" "script_recovery" edge_script_recovery 15 "script recovery"
    ▹ edge "recovery" "handoff" edge_needs_user 20 "ask user"
    ▹ edge "recovery" "planner" edge_replan_required 25 "replan"
    ▹ edge "recovery" "fail" edge_terminal_failure 90 "terminal failure"
    ▹ edge "recovery" "fail" edge_always 99 "recovery fallback"
    ▹ edge "script_recovery" "checkpoint" edge_success 10 "script succeeded"
    ▹ edge "script_recovery" "fail" edge_error 20 "script failed"
    ▹ edge "script_recovery" "fail" edge_always 99 "script fallback"

unfoldable pub local_draft : Graph
local_draft = local_outcome_edges (local_task_edges (local_nodes (empty "local_heuristic")))

unfoldable pub build_local_graph : Compiled PipelineState StepResult
unfolding local_draft compile empty add_node add_edge put get sort decide
build_local_graph = compile local_draft

abbrev pub local : Graph
local = graph_of build_local_graph

-- The builder of the local graph does not raise.
pub build_local_graph-ok : build_local_graph ≡ ok local
unfolding build_local_graph
build_local_graph-ok = refl
