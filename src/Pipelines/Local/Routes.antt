-- ===== src/Pipelines/Local/Routes.antt =====
-- Where the local graph's edges lead, and what a task has to pass before it is executed.
use phylum.Common.{
  text_in, sym, ◌↔◌, String, ◌≡◌, refl, Bool, true, false, none, some, List, [], ◌∷◌, arith, In,
  ◌⊎◌, inl, inr, ◌≢◌, ◌++◌, ◌==◌, eq_iff, if◌then◌else◌, one_of, not, ◌||◌,
}
use phylum.StateGraph.{matches}
use phylum.StateGraph.Executor.{resolve_next}
use phylum.StateGraph.Executor.Trail.{IsWalk, IsLinked}
use phylum.StateGraph.Executor.Rounds.{resolve_next-IsLinked}
use phylum.StateGraph.Cuts.{ends_pass, IsLinked-passes, IsWalk-gate}
use phylum.Pipelines.{
  PipelineState, StepResult, edge_allowed, edge_retryable, edge_approval_granted, edge_denied,
  edge_needs_approval, edge_approval_rejected, edge_script_recovery, edge_needs_user,
  edge_replan_required, edge_error, edge_success, edge_no_tasks, edge_has_tasks,
  edge_task_succeeded, edge_task_partial, edge_task_failed, edge_always,
}
use phylum.Pipelines.Local.{local, build_local_graph}

-- Only these nodes have an edge to the executor.
abbrev sources : List String
sources = "safety" ∷ "approval" ∷ "recovery" ∷ []

abbrev to_executor : String → String → Bool
to_executor a b = not (b == "executor") || one_of a sources

to_executor_table : ends_pass to_executor local ≡ true
unfolding build_local_graph
to_executor_table = refl

one_of_sources :
    (n : String) → one_of n sources ≡ true → (n ≡ "safety") ⊎ (n ≡ "approval") ⊎ (n ≡ "recovery")
one_of_sources n h = ground (arith, eq_iff n "safety", eq_iff n "approval", eq_iff n "recovery")

module _ (s : PipelineState) (r : StepResult) where
  pub safety_route : resolve_next local "safety" s r ≡ (
      if edge_denied s r
      then some "fail"
      else if edge_needs_approval s r
      then some "approval"
      else if edge_allowed s r
      then some "executor"
      else none)
  unfolding resolve_next build_local_graph matches
  safety_route = refl

  pub approval_route : resolve_next local "approval" s r ≡ (
      if edge_approval_granted s r
      then some "executor"
      else if edge_approval_rejected s r
      then some "fail"
      else none)
  unfolding resolve_next build_local_graph matches
  approval_route = refl

  pub recovery_route : resolve_next local "recovery" s r ≡ (
      if edge_retryable s r
      then some "executor"
      else if edge_script_recovery s r
      then some "script_recovery"
      else if edge_needs_user s r
      then some "handoff"
      else if edge_replan_required s r
      then some "planner"
      else some "fail")
  unfolding resolve_next build_local_graph matches edge_always
  recovery_route = ground arith

  pub planner_route : resolve_next local "planner" s r ≡ (
      if edge_error s r
      then some "fail"
      else if edge_no_tasks s r
      then some "plan_empty"
      else if edge_has_tasks s r
      then some "task_picker"
      else none)
  unfolding resolve_next build_local_graph matches
  planner_route = refl

  pub task_picker_route : resolve_next local "task_picker" s r ≡ (
      if edge_no_tasks s r
      then some "complete"
      else if edge_has_tasks s r
      then some "safety"
      else none)
  unfolding resolve_next build_local_graph matches
  task_picker_route = refl

  pub executor_route : resolve_next local "executor" s r ≡ (
      if edge_success s r
      then some "reflection"
      else if edge_error s r
      then some "recovery"
      else none)
  unfolding resolve_next build_local_graph matches
  executor_route = refl

  pub reflection_route : resolve_next local "reflection" s r ≡ (
      if edge_task_succeeded s r
      then some "checkpoint"
      else if edge_task_partial s r
      then some "recovery"
      else if edge_task_failed s r
      then some "recovery"
      else some "checkpoint")
  unfolding resolve_next build_local_graph matches edge_always
  reflection_route = refl

  pub script_route : resolve_next local "script_recovery" s r ≡ (
      if edge_success s r
      then some "checkpoint"
      else if edge_error s r
      then some "fail"
      else some "fail")
  unfolding resolve_next build_local_graph matches edge_always
  script_route = refl

  pub plain_routes :
      (resolve_next local "entry" s r ≡ some "planner")
      × (resolve_next local "checkpoint" s r ≡ some "task_picker")
  unfolding resolve_next build_local_graph matches
  plain_routes = (refl, refl)

-- The executor is entered only from the safety node when its verdict is neither a denial nor a
-- request for approval, from the approval node when the approval is granted, and from the recovery
-- node when the failure is retryable.
pub executor_guarded :
    (n : String) (s : PipelineState) (r : StepResult)
    → resolve_next local n s r ≡ some "executor"
    → ((n ≡ "safety") × (edge_allowed s r ≡ true))
      ⊎ ((n ≡ "approval") × (edge_approval_granted s r ≡ true))
      ⊎ ((n ≡ "recovery") × (edge_retryable s r ≡ true))
executor_guarded n s r h =
    elim (one_of_sources n (
      IsLinked-passes to_executor local n "executor" to_executor_table
        (resolve_next-IsLinked local n "executor" s r h))) [
          | inl e ↦ inl (e, from_safety (rw e at h))
          | inr (inl e) ↦ inr (inl (e, from_approval (rw e at h)))
          | inr (inr e) ↦ inr (inr (e, from_recovery (rw e at h)))
        ]
  where
    other : (a : String) → (a == "executor") ≡ false → ¬ (some a ≡ some "executor")
    other a d e = absurd (ground (arith, eq_iff a "executor"))

    from_safety : resolve_next local "safety" s r ≡ some "executor" → edge_allowed s r ≡ true
    from_safety p = ground (arith, safety_route s r, other "fail" refl, other "approval" refl)

    from_approval :
        resolve_next local "approval" s r ≡ some "executor" → edge_approval_granted s r ≡ true
    from_approval p = ground (arith, approval_route s r, other "fail" refl)

    from_recovery : resolve_next local "recovery" s r ≡ some "executor" → edge_retryable s r ≡ true
    from_recovery p = ground (
      arith,
      recovery_route s r,
      other "script_recovery" refl,
      other "handoff" refl,
      other "planner" refl,
      other "fail" refl,
    )

-- The nodes that have a way on whatever their handlers return or raise.
abbrev pub never_stuck : List String
never_stuck =
    "entry" ∷ "planner" ∷ "task_picker" ∷ "safety" ∷ "executor" ∷ "reflection" ∷ "recovery"
    ∷ "script_recovery" ∷ "checkpoint" ∷ []

-- Whatever the state and the result, a run of the local graph can go on from every node that does
-- not end it but the approval node.
pub local_goes_on :
    (n : String) (s : PipelineState) (r : StepResult)
    → In n never_stuck
    → resolve_next local n s r ≢ none
unfolding edge_error edge_success edge_no_tasks edge_has_tasks edge_denied edge_needs_approval
    edge_allowed
local_goes_on n s r (inl e) = rw (← e) (ground (arith, plain_routes s r))
local_goes_on n s r (inr (inl e)) = rw (← e) (ground (arith, planner_route s r))
local_goes_on n s r (inr (inr (inl e))) = rw (← e) (ground (arith, task_picker_route s r))
local_goes_on n s r (inr (inr (inr (inl e)))) = rw (← e) (ground (arith, safety_route s r))
local_goes_on n s r (inr (inr (inr (inr (inl e))))) = rw (← e) (ground (arith, executor_route s r))
local_goes_on n s r (inr (inr (inr (inr (inr (inl e)))))) =
    rw (← e) (ground (arith, reflection_route s r))
local_goes_on n s r (inr (inr (inr (inr (inr (inr (inl e))))))) =
    rw (← e) (ground (arith, recovery_route s r))
local_goes_on n s r (inr (inr (inr (inr (inr (inr (inr (inl e)))))))) =
    rw (← e) (ground (arith, script_route s r))
local_goes_on n s r (inr (inr (inr (inr (inr (inr (inr (inr (inl e))))))))) =
    rw (← e) (ground (arith, plain_routes s r))
local_goes_on n s r (inr (inr (inr (inr (inr (inr (inr (inr (inr m))))))))) = absurd m

-- From the approval node a run cannot go on exactly when the approval is neither granted nor
-- rejected nor cancelled.
pub approval_stuck_iff :
    (s : PipelineState) (r : StepResult)
    → (resolve_next local "approval" s r ≡ none)
      ↔ (text_in r.approval_status ("approved" ∷ "rejected" ∷ "cancelled" ∷ []) ≡ false)
unfolding edge_approval_granted edge_approval_rejected
approval_stuck_iff s r = ground (arith, approval_route s r)

-- The nodes that a run can visit before the safety node.
abbrev before_safety : List String
before_safety = "entry" ∷ "planner" ∷ "plan_empty" ∷ "task_picker" ∷ "complete" ∷ "fail" ∷ []

abbrev safety_is_gate : String → String → Bool
safety_is_gate a b = not (one_of a before_safety) || (one_of b before_safety || b == "safety")

safety_is_gate_table : ends_pass safety_is_gate local ≡ true
unfolding build_local_graph
safety_is_gate_table = refl

not_executor : (b : String) → (b == "executor") ≡ false → b ≢ "executor"
not_executor b h e = ground (arith, eq_iff b "executor")

-- In the local graph every walk from the entry node that comes to the executor has passed the
-- safety node before.
pub IsWalk-safety_first :
    (ids rest : List String) → IsWalk local "entry" (ids ++ "executor" ∷ rest) → In "safety" ids
IsWalk-safety_first ids rest w =
    IsWalk-gate local (λ n. one_of n before_safety) "safety" closed "entry" ids "executor" rest refl
      refl (λ e. not_executor "safety" refl (sym e)) w
  where
    closed :
        (a b : String)
        → IsLinked local a b
        → one_of a before_safety ≡ true
        → (one_of b before_safety ≡ true) ⊎ (b ≡ "safety")
    closed a b l i =
        ground (
          arith,
          IsLinked-passes safety_is_gate local a b safety_is_gate_table l,
          eq_iff b "safety",
        )
