-- ===== src/ActionExecutor.antt =====
-- core/action_executor.py: `ActionExecutor.execute` for one task, with the approvals of
-- core/runtime_manager.py that it asks for. Events to the user, observations and the texts for the
-- user are left out: they do not change what the executor does next.
pub mod Guards
pub mod Attempts
pub mod Ends
pub mod Pauses
use phylum.Common.{
  ℕ, zero, suc, ◌+◌, String, Bool, true, false, not, Option, none, some, List, [], ◌∷◌, ◌++◌, ◌&&◌,
  ◌||◌, ◌==◌, if◌then◌else◌, one_of, find?, non_empty, truthy,
}
use phylum.RecoveryEngine as Recovery
use phylum.RecoveryEngine.{Issue, ActionResult, Plan}

-- The verdict of the policy, which Policy models.
pub record Verdict : Type 0 where
  pub status : String
  pub has_grant : Bool
  pub reason : String

pub record Approval : Type 0 where
  pub task_id : String
  pub status : String

-- What the tool does: a result, an exception with its text, or a CancelledError.
pub data Ran : Type 0 where
  reported : ActionResult → Ran
  crashed : String → Ran
  stopped : Ran

-- What the executor has done so far, in order.
pub data Event : Type 0 where
  judged : Verdict → Event
  asked attempted handed_off : Event
  answered reused : String → Event
  ran : Event
  scripted : String → Event
  run_failed : String → Event

abbrev pub Log : Type 0
Log = List Event

-- The collaborators, whose answers may depend on all that has been done before. `answer` is what the
-- user says to the approval that was asked last; an exception is `some` text. `verify_goal` is whether the
-- goal is satisfied, `none` where the verification raises.
pub record Services : Type 0 where
  pub is_set : Log → Bool
  pub evaluate : Log → Verdict
  pub answer : Log → String
  pub restore_context : Log → Option String
  pub bind_scope : Log → Option String
  pub execute_tool : Log → Ran
  pub execute_script : Log → String → Ran
  pub verify_goal : Log → Option Bool
  pub reflection_error : Log → Option String
  pub reflection_summary : ActionResult → String
  pub recovery : Recovery.Services

-- The task and its run. `approvals` are those of the state before.
pub record Setting : Type 0 where
  pub task_id : String
  pub tool : Recovery.Task
  pub max_attempts : ℕ
  pub is_agentic : Bool
  pub force_approval : Bool
  pub approvals : List Approval

-- `issue` is that of the task's last result.
pub record State : Type 0 where
  pub attempt : ℕ
  pub issue : Issue
  pub log : Log

pub data Ended : Type 0 where
  returned : String → Ended
  cancelled paused : Ended
  raised : String → Ended

pub data Gate : Type 0 where
  passes : Gate
  halts : Ended → Gate

-- How the `try` of an attempt ends: with a result, a CancelledError or an exception.
pub data Tried : Type 0 where
  gives : String → Tried
  is_cancelled : Tried
  throws : String → Tried

pub data Next : Type 0 where
  again : Next
  over : Ended → Next

abbrev pub answered_approvals : String → Log → List Approval
answered_approvals task_id [] = []
answered_approvals task_id (answered s ∷ log) =
    record { task_id = task_id; status = s } ∷ answered_approvals task_id log
answered_approvals task_id (judged v ∷ log) = answered_approvals task_id log
answered_approvals task_id (asked ∷ log) = answered_approvals task_id log
answered_approvals task_id (attempted ∷ log) = answered_approvals task_id log
answered_approvals task_id (handed_off ∷ log) = answered_approvals task_id log
answered_approvals task_id (reused s ∷ log) = answered_approvals task_id log
answered_approvals task_id (ran ∷ log) = answered_approvals task_id log
answered_approvals task_id (scripted s ∷ log) = answered_approvals task_id log
answered_approvals task_id (run_failed s ∷ log) = answered_approvals task_id log

-- `_resolved_approval_status`.
unfoldable pub resolved_approval_status : List Approval → String → Option String
resolved_approval_status approvals task_id =
    elim (find? (λ a. a.task_id == task_id && one_of a.status ("approved" ∷ "rejected" ∷ []))
      approvals) [ none ↦ none | some a ↦ some a.status ]

-- `_task_status_for_action_status`.
unfoldable pub task_status : String → String
task_status action_status =
    if action_status == "succeeded"
    then "completed"
    else if one_of action_status ("needs_input" ∷ "blocked" ∷ "partial" ∷ [])
    then action_status
    else "failed"

-- The result with the verification of its goal.
unfoldable pub with_goal : Bool → ActionResult → ActionResult
with_goal satisfied r = record r {
  goal_satisfied = some satisfied;
  status = if not satisfied && r.status == "succeeded" then "partial" else r.status;
}

abbrev pub logger_error : String
logger_error = "name 'logger' is not defined"

module _ (services : Services) (task : Setting) where
  -- The status of a verdict after `force_approval`.
  unfoldable pub effective_status : Verdict → String
  effective_status v =
      if task.force_approval && (v.status == "allow" && not v.has_grant)
      then "require_approval"
      else v.status

  unfoldable pub follow_answer : String → State → State × Gate
  follow_answer s st =
      if s == "cancelled"
      then (st, halts cancelled)
      else if s == "approved"
      then (st, passes)
      else if task.is_agentic
      then (st, halts (returned "blocked"))
      else (
        record st { log = st.log ++ run_failed "approval rejected" ∷ [] },
        halts (raised "approval rejected"),
      )

  -- The approval that is there already, or the user's answer.
  unfoldable pub take_approval : State → State × Gate
  unfolding resolved_approval_status follow_answer
  take_approval st =
      let known = task.approvals ++ answered_approvals task.task_id st.log in
      elim (resolved_approval_status known task.task_id) [
        | some s ↦ follow_answer s (record st { log = st.log ++ reused s ∷ [] })
        | none ↦
            let asking = st.log ++ asked ∷ [] in
            let s = services.answer asking in
            follow_answer s (record st { log = asking ++ answered s ∷ [] })
      ]

  -- The policy and the approval, before an attempt.
  unfoldable pub guard : State → State × Gate
  unfolding effective_status take_approval
  guard st =
      let v = services.evaluate st.log in
      let told = record st { log = st.log ++ judged v ∷ [] } in
      if services.is_set st.log
      then (st, halts cancelled)
      else if effective_status v == "deny"
      then (record told { log = told.log ++ run_failed v.reason ∷ [] }, halts (raised v.reason))
      else if effective_status v == "require_approval"
      then take_approval told
      else (told, passes)

  -- What follows a result of the tool.
  unfoldable pub take_result : ActionResult → State → State × Tried
  unfolding task_status
  take_result r st =
      let plan =
        Recovery.classify_action_result services.recovery task.tool r st.attempt
          task.max_attempts in
      if task.is_agentic
      then if one_of r.status ("blocked" ∷ "needs_input" ∷ "partial" ∷ "failed" ∷ [])
          && plan.needs_user
        then (record st { log = st.log ++ handed_off ∷ [] }, throws "")
        else (st, gives (task_status r.status))
      else if one_of r.status ("partial" ∷ "needs_input" ∷ "blocked" ∷ [])
      then (st, gives r.status)
      else if r.status == "succeeded"
      then (st, gives "completed")
      else (st, throws (services.reflection_summary r))

  -- After the tool: the goal is verified and the result is reflected on. A failure of either is
  -- written to a `logger` that the module does not have.
  unfoldable pub check_result : Ran → State → State × Tried
  unfolding with_goal take_result
  check_result stopped st = (st, is_cancelled)
  check_result (crashed text) st = (st, throws text)
  check_result (reported r) st = elim (services.verify_goal st.log) [
    | none ↦ (st, throws logger_error)
    | some goal ↦
        let r' = with_goal goal r in
        let kept = record st { issue = r'.issue } in
        elim (services.reflection_error st.log) [
          | some text ↦ (kept, throws logger_error)
          | none ↦ take_result r' kept
        ]
  ]

  -- The `try` of an attempt.
  unfoldable pub try_tool : State → State × Tried
  unfolding check_result
  try_tool st =
      let started = record st { attempt = st.attempt + 1; log = st.log ++ attempted ∷ [] } in
      let running = record started { log = started.log ++ ran ∷ [] } in
      elim (services.restore_context started.log) [
        | some text ↦ (started, throws text)
        | none ↦
            if services.is_set started.log
            then (started, is_cancelled)
            else elim (services.bind_scope started.log) [
              | some text ↦ (started, throws text)
              | none ↦ check_result (services.execute_tool running.log) running
            ]
      ]

  unfoldable pub fail : String → State → State × Next
  fail text st = (record st { log = st.log ++ run_failed text ∷ [] }, over (raised text))

  -- `_execute_script_recovery`, and the failure of the run where it does not help.
  unfoldable pub run_script : String → String → State → State × Next
  unfolding fail
  run_script text script st =
      let told = record st { log = st.log ++ scripted script ∷ [] } in
      elim (services.execute_script told.log script) [
        | stopped ↦ (told, over cancelled)
        | crashed text' ↦ fail text told
        | reported r ↦
            if r.status == "succeeded" then (told, over (returned "completed")) else fail text told
      ]

  -- The `except` of an attempt. `_handle_dependency_install` asks for a handoff without an id where
  -- modules are missing, which is a KeyError.
  unfoldable pub recover : String → State → State × Next
  unfolding fail run_script
  recover text st =
      let plan =
        Recovery.classify services.recovery task.tool text st.issue st.attempt task.max_attempts in
      let installs = plan.classification == "dependency_install" in
      elim (services.reflection_error st.log) [
        | some text' ↦ (st, over (raised text'))
        | none ↦
            if plan.needs_user
            then (record st { log = st.log ++ handed_off ∷ [] }, over paused)
            else if installs && non_empty plan.missing_modules
            then (st, over (raised "'handoff_id'"))
            else if plan.retryable && not installs
            then (st, again)
            else if plan.classification == "script_recovery" && truthy plan.script
            then elim plan.script [ none ↦ fail text st | some script ↦ run_script text script st ]
            else fail text st
      ]

  -- The attempt after its `try`, and after the guard.
  unfoldable pub after_try : State × Tried → State × Next
  unfolding recover
  after_try r = elim (r.1) [
    | gives status ↦ (r.0, over (returned status))
    | is_cancelled ↦ (r.0, over cancelled)
    | throws text ↦ recover text (r.0)
  ]

  unfoldable pub after_guard : State × Gate → State × Next
  unfolding try_tool after_try
  after_guard r = elim (r.1) [ halts e ↦ (r.0, over e) | passes ↦ after_try (try_tool (r.0)) ]

  unfoldable pub attempt_once : State → State × Next
  unfolding guard after_guard
  attempt_once st = after_guard (guard st)

  -- `execute`, on fuel for its attempts.
  unfoldable pub execute : ℕ → State → Option (State × Ended)
  unfolding attempt_once
  execute zero st = none
  execute (suc fuel) st =
      let (st', next) = attempt_once st in
      let rest = execute fuel st' in elim next [ over e ↦ some (st', e) | again ↦ rest ]
