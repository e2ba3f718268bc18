-- ===== src/Pipelines/Local/Failures.antt =====
-- Where the local graph goes after a handler has raised an exception.
use phylum.Common.{String, ◌≡◌, ◌≢◌, some, arith, eq_iff}
use phylum.StateGraph.Executor.{resolve_next}
use phylum.Pipelines.{
  PipelineState, failed_result, edge_allowed, edge_denied, edge_needs_approval, edge_no_tasks,
  edge_success, edge_error,
}
use phylum.Pipelines.Local.{local}
use phylum.Pipelines.Local.Routes.{
  safety_route, task_picker_route, executor_route, planner_route, script_route,
}

module _ (s : PipelineState) (message type : String) where
  -- After any exception in the handler of the safety node the next node is the executor, and after
  -- any exception in the handler of the task picker it is the node that completes the run.
  pub crash_fails_open :
      (resolve_next local "safety" s (failed_result message type) ≡ some "executor")
      × (resolve_next local "task_picker" s (failed_result message type) ≡ some "complete")
  unfolding failed_result edge_allowed edge_denied edge_needs_approval edge_no_tasks
  crash_fails_open = (
    ground (arith, safety_route s (failed_result message type)),
    ground (arith, task_picker_route s (failed_result message type)),
  )

  -- An exception with a text leads from the executor to the recovery node and from the planner and
  -- the script recovery to failure.
  pub crash_with_text :
      message ≢ ""
      → (resolve_next local "executor" s (failed_result message type) ≡ some "recovery")
        × (resolve_next local "planner" s (failed_result message type) ≡ some "fail")
        × (resolve_next local "script_recovery" s (failed_result message type) ≡ some "fail")
  unfolding failed_result edge_success edge_error
  crash_with_text h = (
    ground (arith, executor_route s (failed_result message type), eq_iff message ""),
    ground (arith, planner_route s (failed_result message type), eq_iff message ""),
    ground (arith, script_route s (failed_result message type), eq_iff message ""),
  )

-- An exception without a text counts as a success: the run goes from the executor to the reflection,
-- and from the script recovery to the checkpoint.
pub crash_without_text :
    (s : PipelineState) (type : String)
    → (resolve_next local "executor" s (failed_result "" type) ≡ some "reflection")
      × (resolve_next local "script_recovery" s (failed_result "" type) ≡ some "checkpoint")
unfolding failed_result edge_success
crash_without_text s type = (
  ground (arith, executor_route s (failed_result "" type)),
  ground (arith, script_route s (failed_result "" type)),
)
