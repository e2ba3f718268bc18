-- ===== src/EventBus/Types.antt =====
-- The values of the event types.
use phylum.Common.{false, some, ◌≡◌, refl, ◌==◌}
use phylum.EventBus.{
  EventType, value, event_types, of_value, wildcard, run_started, run_resumed, run_finished,
  run_failed, run_paused, run_cancellation_requested, run_cancelled, run_deleted, goal_enqueued,
  goal_cancelled, session_created, session_closed, task_planned, task_started, task_finished,
  task_failed, task_cancelled, task_retry_scheduled, task_graph_built, task_branch_batch_started,
  task_branch_batch_finished, approval_requested, approval_resolved, approval_grant_created,
  approval_grant_revoked, script_recovery_started, script_recovery_succeeded, agent_step,
  agent_thinking, tool_call_proposed, agentic_fallback, llm_turn_metrics, agent_step_metrics,
  task_budget_profile, task_budget_warning, intent_classified, intent_routing,
  intent_fast_path_started, intent_fast_path_completed, intent_fast_path_failed,
  intent_profile_learned, tool_disclosure_expanded, run_cost_summary, dependency_install_requested,
  dependency_installed, user_input_requested, user_input_received, custom,
}

-- Every event type is found by its value, and no event type has the key of the subscriptions to all
-- events.
pub of_value-value :
    (t : EventType) → (of_value (value t) ≡ some t) × ((value t == wildcard) ≡ false)
unfolding of_value value event_types
of_value-value run_started = (refl, refl)
of_value-value run_resumed = (refl, refl)
of_value-value run_finished = (refl, refl)
of_value-value run_failed = (refl, refl)
of_value-value run_paused = (refl, refl)
of_value-value run_cancellation_requested = (refl, refl)
of_value-value run_cancelled = (refl, refl)
of_value-value run_deleted = (refl, refl)
of_value-value goal_enqueued = (refl, refl)
of_value-value goal_cancelled = (refl, refl)
of_value-value session_created = (refl, refl)
of_value-value session_closed = (refl, refl)
of_value-value task_planned = (refl, refl)
of_value-value task_started = (refl, refl)
of_value-value task_finished = (refl, refl)
of_value-value task_failed = (refl, refl)
of_value-value task_cancelled = (refl, refl)
of_value-value task_retry_scheduled = (refl, refl)
of_value-value task_graph_built = (refl, refl)
of_value-value task_branch_batch_started = (refl, refl)
of_value-value task_branch_batch_finished = (refl, refl)
of_value-value approval_requested = (refl, refl)
of_value-value approval_resolved = (refl, refl)
of_value-value approval_grant_created = (refl, refl)
of_value-value approval_grant_revoked = (refl, refl)
of_value-value script_recovery_started = (refl, refl)
of_value-value script_recovery_succeeded = (refl, refl)
of_value-value agent_step = (refl, refl)
of_value-value agent_thinking = (refl, refl)
of_value-value tool_call_proposed = (refl, refl)
of_value-value agentic_fallback = (refl, refl)
of_value-value llm_turn_metrics = (refl, refl)
of_value-value agent_step_metrics = (refl, refl)
of_value-value task_budget_profile = (refl, refl)
of_value-value task_budget_warning = (refl, refl)
of_value-value intent_classified = (refl, refl)
of_value-value intent_routing = (refl, refl)
of_value-value intent_fast_path_started = (refl, refl)
of_value-value intent_fast_path_completed = (refl, refl)
of_value-value intent_fast_path_failed = (refl, refl)
of_value-value intent_profile_learned = (refl, refl)
of_value-value tool_disclosure_expanded = (refl, refl)
of_value-value run_cost_summary = (refl, refl)
of_value-value dependency_install_requested = (refl, refl)
of_value-value dependency_installed = (refl, refl)
of_value-value user_input_requested = (refl, refl)
of_value-value user_input_received = (refl, refl)
of_value-value custom = (refl, refl)
