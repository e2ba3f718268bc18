-- ===== src/EventBus.antt =====
-- core/event_bus.py: `EventType`, `Event` and `EventBus`. A handler is known by a number; an event's
-- timestamp is left out.
pub mod Delivery
pub mod Types
pub mod History
use phylum.Common.{
  ℕ, ◌+◌, ◌-◌, String, Bool, true, false, Option, none, some, List, [], ◌∷◌, ◌++◌, ◌==◌,
  if◌then◌else◌, ltb, nat_eq, find?, length, drop, filter, map, is_some,
}
use phylum.Common.Dict.{Dict, get, put}

pub data EventType : Type 0 where
  run_started run_resumed run_finished run_failed run_paused run_cancellation_requested
        run_cancelled run_deleted goal_enqueued goal_cancelled session_created session_closed
        task_planned task_started task_finished task_failed task_cancelled task_retry_scheduled
        task_graph_built task_branch_batch_started task_branch_batch_finished approval_requested
        approval_resolved approval_grant_created approval_grant_revoked script_recovery_started
        script_recovery_succeeded agent_step agent_thinking tool_call_proposed agentic_fallback
        llm_turn_metrics agent_step_metrics task_budget_profile task_budget_warning
        intent_classified intent_routing intent_fast_path_started intent_fast_path_completed
        intent_fast_path_failed intent_profile_learned tool_disclosure_expanded run_cost_summary
        dependency_install_requested dependency_installed user_input_requested user_input_received
        custom :
      EventType

unfoldable pub value : EventType → String
value run_started = "run_started"
value run_resumed = "run_resumed"
value run_finished = "run_finished"
value run_failed = "run_failed"
value run_paused = "run_paused"
value run_cancellation_requested = "run_cancellation_requested"
value run_cancelled = "run_cancelled"
value run_deleted = "run_deleted"
value goal_enqueued = "goal_enqueued"
value goal_cancelled = "goal_cancelled"
value session_created = "session_created"
value session_closed = "session_closed"
value task_planned = "task_planned"
value task_started = "task_started"
value task_finished = "task_finished"
value task_failed = "task_failed"
value task_cancelled = "task_cancelled"
value task_retry_scheduled = "task_retry_scheduled"
value task_graph_built = "task_graph_built"
value task_branch_batch_started = "task_branch_batch_started"
value task_branch_batch_finished = "task_branch_batch_finished"
value approval_requested = "approval_requested"
value approval_resolved = "approval_resolved"
value approval_grant_created = "approval_grant_created"
value approval_grant_revoked = "approval_grant_revoked"
value script_recovery_started = "script_recovery_started"
value script_recovery_succeeded = "script_recovery_succeeded"
value agent_step = "agent_step"
value agent_thinking = "agent_thinking"
value tool_call_proposed = "tool_call_proposed"
value agentic_fallback = "agentic_fallback"
value llm_turn_metrics = "llm_turn_metrics"
value agent_step_metrics = "agent_step_metrics"
value task_budget_profile = "task_budget_profile"
value task_budget_warning = "task_budget_warning"
value intent_classified = "intent_classified"
value intent_routing = "intent_routing"
value intent_fast_path_started = "intent_fast_path_started"
value intent_fast_path_completed = "intent_fast_path_completed"
value intent_fast_path_failed = "intent_fast_path_failed"
value intent_profile_learned = "intent_profile_learned"
value tool_disclosure_expanded = "tool_disclosure_expanded"
value run_cost_summary = "run_cost_summary"
value dependency_install_requested = "dependency_install_requested"
value dependency_installed = "dependency_installed"
value user_input_requested = "user_input_requested"
value user_input_received = "user_input_received"
value custom = "custom"

unfoldable pub event_types : List EventType
event_types =
    run_started ∷ run_resumed ∷ run_finished ∷ run_failed ∷ run_paused ∷ run_cancellation_requested
    ∷ run_cancelled ∷ run_deleted ∷ goal_enqueued ∷ goal_cancelled ∷ session_created
    ∷ session_closed ∷ task_planned ∷ task_started ∷ task_finished ∷ task_failed ∷ task_cancelled
    ∷ task_retry_scheduled ∷ task_graph_built ∷ task_branch_batch_started
    ∷ task_branch_batch_finished ∷ approval_requested ∷ approval_resolved ∷ approval_grant_created
    ∷ approval_grant_revoked ∷ script_recovery_started ∷ script_recovery_succeeded ∷ agent_step
    ∷ agent_thinking ∷ tool_call_proposed ∷ agentic_fallback ∷ llm_turn_metrics ∷ agent_step_metrics
    ∷ task_budget_profile ∷ task_budget_warning ∷ intent_classified ∷ intent_routing
    ∷ intent_fast_path_started ∷ intent_fast_path_completed ∷ intent_fast_path_failed
    ∷ intent_profile_learned ∷ tool_disclosure_expanded ∷ run_cost_summary
    ∷ dependency_install_requested ∷ dependency_installed ∷ user_input_requested
    ∷ user_input_received ∷ custom ∷ []

-- `EventType(text)`, where it raises no `ValueError`.
unfoldable pub of_value : String → Option EventType
unfolding value event_types
of_value text = find? (λ t. value t == text) event_types

pub record Event : Type 0 where
  pub type : EventType
  pub payload : Dict String
  pub source : Option String

pub record EventBus : Type 0 where
  pub handlers : Dict (List ℕ)
  pub history : List Event

abbrev pub new_bus : EventBus
new_bus = record { handlers = []; history = [] }

abbrev pub max_history : ℕ
max_history = 500

abbrev pub wildcard : String
wildcard = "__all__"

unfoldable pub mem : ℕ → List ℕ → Bool
mem h [] = false
mem h (k ∷ ks) = if nat_eq k h then true else mem h ks

-- `list.remove`: the first one that is equal.
unfoldable pub remove : ℕ → List ℕ → List ℕ
remove h [] = []
remove h (k ∷ ks) = let rest = remove h ks in if nat_eq k h then ks else k ∷ rest

-- `self._handlers.get(key, [])`.
unfoldable pub handlers_at : String → EventBus → List ℕ
unfolding get
handlers_at key b = elim (get key b.handlers) [ none ↦ [] | some hs ↦ hs ]

-- What both subscriptions do with their key, which the `defaultdict` makes where it is missing.
unfoldable pub add_at : String → ℕ → EventBus → EventBus
unfolding handlers_at put mem
add_at key h b =
    let hs = handlers_at key b in
    record b { handlers = put key (if mem h hs then hs else hs ++ h ∷ []) b.handlers }

unfoldable pub subscribe : EventType → ℕ → EventBus → EventBus
unfolding add_at value
subscribe t h b = add_at (value t) h b

unfoldable pub subscribe_all : ℕ → EventBus → EventBus
unfolding add_at
subscribe_all h b = add_at wildcard h b

unfoldable pub unsubscribe : EventType → ℕ → EventBus → EventBus
unfolding handlers_at mem remove put value
unsubscribe t h b =
    let hs = handlers_at (value t) b in
    if mem h hs then record b { handlers = put (value t) (remove h hs) b.handlers } else b

-- `remove` under the test that `handler in self._handlers[key]`.
unfoldable pub remove_if : ℕ → List ℕ → List ℕ
unfolding mem remove
remove_if h hs = if mem h hs then remove h hs else hs

unfoldable pub unsubscribe_all : ℕ → EventBus → EventBus
unfolding remove_if
unsubscribe_all h b = record b { handlers = map (λ e. (e.0, remove_if h e.1)) b.handlers }

-- The last `n` elements: `xs[-n:]`.
unfoldable pub last_n : {A : Type 0} → ℕ → List A → List A
last_n n xs = drop (length xs - n) xs

unfoldable pub record_event : Event → EventBus → EventBus
unfolding last_n
record_event e b =
    let longer = b.history ++ e ∷ [] in
    record b {
      history = if ltb max_history (length longer) then last_n max_history longer else longer;
    }

-- What `emit` leaves: the bus, the event it returns, the handlers it calls, and those that raised,
-- which it logs.
pub record Emitted : Type 0 where
  pub bus : EventBus
  pub event : Event
  pub called : List ℕ
  pub failed : List ℕ

-- `raises h e` tells whether the handler raises on the event.
unfoldable pub emit :
    (ℕ → Event → Bool) → EventType → Dict String → Option String → EventBus → Emitted
unfolding record_event handlers_at value
emit raises t payload source b =
    let event : Event = record { type = t; payload = payload; source = source } in
    let called = handlers_at (value t) b ++ handlers_at wildcard b in
    record {
      bus = record_event event b;
      event = event;
      called = called;
      failed = filter (λ h. raises h event) called;
    }

unfoldable pub emit_raw :
    (ℕ → Event → Bool) → String → Dict String → Option String → EventBus → Emitted
unfolding emit of_value put
emit_raw raises text payload source b = elim (of_value text) [
  | some t ↦ emit raises t payload source b
  | none ↦ emit raises custom (put "_original_type" text payload) source b
]

unfoldable pub subscribers_for : EventType → EventBus → ℕ
unfolding handlers_at value
subscribers_for t b = length (handlers_at (value t) b) + length (handlers_at wildcard b)

abbrev pub clear : EventBus → EventBus
clear b = new_bus
