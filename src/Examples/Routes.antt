-- ===== src/Examples/Routes.antt =====
-- Steps of the pipelines' graphs.
use phylum.Common.{String, ◌≡◌, ◌≢◌, ◌⊎◌, refl, true, none, some, [], ◌∷◌, ◌++◌, In, inl, inr}
use phylum.StateGraph.Executor.{resolve_next}
use phylum.StateGraph.Executor.Trail.{IsWalk}
use phylum.StateGraph.{matches}
use phylum.Pipelines.{
  PipelineState, StepResult, no_result, failed_result, edge_allowed, edge_denied,
  edge_needs_approval, edge_approval_granted, edge_retryable,
}
use phylum.Pipelines.Local.{local, build_local_graph}
use phylum.Pipelines.Local.Routes.{executor_guarded, local_goes_on, IsWalk-safety_first}
use phylum.Pipelines.Local.Failures.{crash_fails_open}

abbrev plain_state : PipelineState
plain_state = record { recovery_info = none; provider = some "local" }

abbrev allowed_result : StepResult
allowed_result = record no_result { safety_status = some "allow" }

abbrev safety_id : String
safety_id = "safety"

executor_guarded_example :
    ((safety_id ≡ "safety") × (edge_allowed plain_state allowed_result ≡ true))
    ⊎ ((safety_id ≡ "approval") × (edge_approval_granted plain_state allowed_result ≡ true))
    ⊎ ((safety_id ≡ "recovery") × (edge_retryable plain_state allowed_result ≡ true))
unfolding resolve_next build_local_graph matches no_result edge_denied edge_needs_approval
    edge_allowed
executor_guarded_example = executor_guarded "safety" plain_state allowed_result refl

local_goes_on_example : resolve_next local "safety" plain_state allowed_result ≢ none
local_goes_on_example =
    local_goes_on "safety" plain_state allowed_result (inr (inr (inr (inl refl))))

first_run :
    IsWalk local "entry" (("entry" ∷ "planner" ∷ "task_picker" ∷ "safety" ∷ []) ++ "executor" ∷ [])
unfolding build_local_graph
first_run = (refl, (inl refl, (inr (inr (inl refl)), (inr (inl refl), (inr (inr (inl refl)), tt)))))

IsWalk-safety_first_example : In safety_id ("entry" ∷ "planner" ∷ "task_picker" ∷ "safety" ∷ [])
IsWalk-safety_first_example =
    IsWalk-safety_first ("entry" ∷ "planner" ∷ "task_picker" ∷ "safety" ∷ []) [] first_run

crash_fails_open_example :
    (resolve_next local "safety" plain_state (failed_result "boom" "ValueError") ≡ some "executor")
    × (resolve_next local "task_picker" plain_state (failed_result "boom" "ValueError")
        ≡ some "complete")
crash_fails_open_example = crash_fails_open plain_state "boom" "ValueError"
