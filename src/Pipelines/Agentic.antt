-- ===== src/Pipelines/Agentic.antt =====
-- `build_agentic_graph` and `build_manual_graph` of core/graph_definitions.py.
pub mod Routes
use mathlib.Core.Bool.{decide}
use phylum.StateGraph.{
  NodeType, entry, planner, router, executor, reflection, recovery, handoff, complete, fail,
  script_recovery, Compiled, ok, empty, add_node, add_edge, compile,
}
use phylum.Common.{◌≡◌, refl}
use phylum.Common.Dict.{get, put}
use phylum.Common.Sort.{sort}
use phylum.Pipelines.{
  Graph, PipelineState, StepResult, ◌▹◌, node, edge, plain, graph_of, edge_success, edge_error,
  edge_has_tasks, edge_no_tasks, edge_retryable, edge_needs_user, edge_script_recovery,
  edge_terminal_failure, edge_always, has_provider, no_provider, llm_completed, llm_handoff,
  llm_error,
}

abbrev agentic_nodes : Graph → Graph
agentic_nodes g =
    g
    ▹ node "entry" entry
    ▹ node "provider_check" router
    ▹ node "llm_loop" executor
    ▹ node "reflection" reflection
    ▹ node "recovery" recovery
    ▹ node "script_recovery" script_recovery
    ▹ node "handoff" handoff
    ▹ node "complete" complete
    ▹ node "fail" fail
    ▹ node "fallback_manual" planner

unfoldable pub agentic_draft : Graph
agentic_draft =
    agentic_nodes (empty "agentic")
    ▹ plain "entry" "provider_check" "start"
    ▹ edge "provider_check" "llm_loop" has_provider 10 "has provider"
    ▹ edge "provider_check" "fallback_manual" no_provider 20 "no provider"
    ▹ plain "fallback_manual" "complete" "manual assist done"
    ▹ edge "llm_loop" "reflection" llm_completed 10 "LLM done"
    ▹ edge "llm_loop" "handoff" llm_handoff 20 "needs user input"
    ▹ edge "llm_loop" "recovery" llm_error 30 "LLM error"
    ▹ edge "reflection" "complete" edge_success 10 "success"
    ▹ edge "reflection" "recovery" edge_error 20 "reflection error"
    ▹ edge "recovery" "llm_loop" edge_retryable 10 "retry LLM"
    ▹ edge "recovery" "script_recovery" edge_script_recovery 15 "script recovery"
    ▹ edge "recovery" "handoff" edge_needs_user 20 "ask user"
    ▹ edge "recovery" "fail" edge_terminal_failure 90 "terminal"
    ▹ edge "recovery" "fail" edge_always 99 "recovery fallback"
    ▹ edge "script_recovery" "complete" edge_success 10 "script ok"
    ▹ edge "script_recovery" "fail" edge_always 99 "script fail"

unfoldable pub build_agentic_graph : Compiled PipelineState StepResult
unfolding agentic_draft compile empty add_node add_edge put get sort decide
build_agentic_graph = compile agentic_draft

abbrev pub agentic : Graph
agentic = graph_of build_agentic_graph

-- The builder of the agentic graph does not raise.
pub build_agentic_graph-ok : build_agentic_graph ≡ ok agentic
unfolding build_agentic_graph
build_agentic_graph-ok = refl

unfoldable pub manual_draft : Graph
manual_draft =
    empty "manual_assist"
    ▹ node "entry" entry
    ▹ node "planner" planner
    ▹ node "present" reflection
    ▹ node "complete" complete
    ▹ node "fail" fail
    ▹ plain "entry" "planner" "start"
    ▹ edge "planner" "complete" edge_no_tasks 10 "no tasks"
    ▹ edge "planner" "present" edge_has_tasks 20 "has tasks"
    ▹ edge "planner" "fail" edge_error 5 "error"
    ▹ plain "present" "complete" "presented to user"

unfoldable pub build_manual_graph : Compiled PipelineState StepResult
unfolding manual_draft compile empty add_node add_edge put get sort decide
build_manual_graph = compile manual_draft

abbrev pub manual : Graph
manual = graph_of build_manual_graph

-- The builder of the manual graph does not raise.
pub build_manual_graph-ok : build_manual_graph ≡ ok manual
unfolding build_manual_graph
build_manual_graph-ok = refl
