-- ===== src/Pipelines.antt =====
-- core/graph_definitions.py: the conditions and the graphs of the three pipelines. The states and
-- results are records of the keys that the conditions read.
pub mod Local
pub mod Agentic
use phylum.Common.{
  is_text, text_in, ℕ, String, Bool, true, false, not, Option, none, some, List, [], ◌∷◌, ◌&&◌,
  ◌||◌, ◌==◌, non_empty, truthy, one_of, is_some, if◌then◌else◌,
}
use phylum.StateGraph.{
  NodeType, entry, planner, router, safety, approval, executor, reflection, recovery, checkpoint,
  handoff, complete, fail, script_recovery, StateGraph, Compiled, ok, error, empty, add_node,
  add_edge, compile,
}
use phylum.StateGraph.Executor.{ResultOps}

-- A recovery classification, which the conditions find under `recovery`.
pub record RecoveryInfo : Type 0 where
  pub retryable : Bool
  pub needs_user : Bool
  pub classification : Option String
  pub script : Option String

-- `recovery` is `none` where the key is missing or its value is falsy.
pub record PipelineState : Type 0 where
  pub recovery_info : Option RecoveryInfo
  pub provider : Option String

-- A nested `status` is `none` where its dictionary is missing or has no such key.
pub record StepResult : Type 0 where
  pub error_text : Option String
  pub tasks : List String
  pub safety_status : Option String
  pub approval_status : Option String
  pub action_status : Option String
  pub recovery_info : Option RecoveryInfo
  pub status : Option String
  pub keys_given : List String

unfoldable pub no_result : StepResult
no_result = record {
  error_text = none;
  tasks = [];
  safety_status = none;
  approval_status = none;
  action_status = none;
  recovery_info = none;
  status = none;
  keys_given = [];
}

unfoldable pub failed_result : String → String → StepResult
unfolding no_result
failed_result message type = record no_result {
  error_text = some message;
  keys_given = "_error" ∷ "_exception_type" ∷ [];
}

abbrev pub step_results : ResultOps StepResult
unfolding failed_result
step_results = record {
  none_given = no_result;
  of_exception = failed_result;
  keys = λ r. r.keys_given;
}

abbrev pub Condition : Type 0
Condition = PipelineState → StepResult → Bool

unfoldable pub edge_success : Condition
edge_success state result = not (truthy result.error_text)

unfoldable pub edge_error : Condition
edge_error state result = truthy result.error_text

unfoldable pub edge_has_tasks : Condition
edge_has_tasks state result = non_empty result.tasks

unfoldable pub edge_no_tasks : Condition
edge_no_tasks state result = not (non_empty result.tasks)

unfoldable pub edge_denied : Condition
edge_denied state result = is_text result.safety_status "deny"

unfoldable pub edge_needs_approval : Condition
edge_needs_approval state result = is_text result.safety_status "require_approval"

unfoldable pub edge_allowed : Condition
edge_allowed state result = not (text_in result.safety_status ("deny" ∷ "require_approval" ∷ []))

unfoldable pub edge_approval_granted : Condition
edge_approval_granted state result = is_text result.approval_status "approved"

unfoldable pub edge_approval_rejected : Condition
edge_approval_rejected state result = text_in result.approval_status ("rejected" ∷ "cancelled" ∷ [])

unfoldable pub edge_task_succeeded : Condition
edge_task_succeeded state result = is_text result.action_status "succeeded"

unfoldable pub edge_task_partial : Condition
edge_task_partial state result =
    text_in result.action_status ("partial" ∷ "needs_input" ∷ "blocked" ∷ [])

unfoldable pub edge_task_failed : Condition
edge_task_failed state result =
    truthy result.error_text
    || (is_text result.action_status "failed" || not (is_some result.action_status))

-- `result.get("recovery") or state.get("recovery") or {}`.
unfoldable pub recovery_of : PipelineState → StepResult → RecoveryInfo
recovery_of state result = elim result.recovery_info [
  | some r ↦ r
  | none ↦ elim state.recovery_info [
    | some r ↦ r
    | none ↦ record { retryable = false; needs_user = false; classification = none; script = none }
  ]
]

unfoldable pub edge_retryable : Condition
unfolding recovery_of
edge_retryable state result = (recovery_of state result).retryable

unfoldable pub edge_needs_user : Condition
unfolding recovery_of
edge_needs_user state result = (recovery_of state result).needs_user

unfoldable pub edge_script_recovery : Condition
unfolding recovery_of
edge_script_recovery state result =
    let r = recovery_of state result in
    is_text r.classification "script_recovery" && truthy r.script

unfoldable pub edge_replan_required : Condition
unfolding recovery_of
edge_replan_required state result =
    is_text (recovery_of state result).classification "replan_required"

unfoldable pub edge_terminal_failure : Condition
unfolding recovery_of
edge_terminal_failure state result =
    let r = recovery_of state result in
    text_in r.classification ("terminal" ∷ "blocked_by_policy" ∷ [])
    || (not r.retryable && (not r.needs_user && not (is_text r.classification "script_recovery")))

unfoldable pub edge_always : Condition
edge_always state result = true

-- The closures of `build_agentic_graph`.
unfoldable pub has_provider : Condition
has_provider state result = truthy state.provider

unfoldable pub no_provider : Condition
no_provider state result = not (truthy state.provider)

unfoldable pub llm_completed : Condition
llm_completed state result = is_text result.status "completed"

unfoldable pub llm_handoff : Condition
llm_handoff state result = is_text result.status "awaiting_input"

unfoldable pub llm_error : Condition
llm_error state result =
    truthy result.error_text || (is_text result.status "failed" || not (is_some result.status))

abbrev pub Graph : Type 0
Graph = StateGraph PipelineState StepResult

-- A call on the graph that is being built. The graphs are built without handlers.
infixl 10 ◌▹◌
abbrev pub ◌▹◌ : Graph → (Graph → Graph) → Graph
g ▹ f = f g

abbrev pub node : String → NodeType → Graph → Graph
node i t = add_node i t none

abbrev pub edge : String → String → Condition → ℕ → String → Graph → Graph
edge s t c p l = add_edge s t (some (λ state result. some (c state result))) p l

-- An edge with no condition has the default priority.
abbrev pub plain : String → String → String → Graph → Graph
plain s t l = add_edge s t none 50 l

-- The graph that a builder returns; the theorems show that none of the three raises.
abbrev pub graph_of : Compiled PipelineState StepResult → Graph
graph_of (ok g) = g
graph_of (error e) = record {
  name = "";
  nodes = [];
  edges = [];
  entry_node = none;
  compiled = false;
}
