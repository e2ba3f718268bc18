-- ===== src/RuntimeManager/Lifecycle.antt =====
-- core/runtime_manager.py: the cancellation of a run, the user's reply to its handoff and its
-- resumption, for a run that is active. Writes to the database and events to the user are left out.
pub mod Resumption
use phylum.Common.{
  String, Bool, true, false, not, Option, none, some, List, [], ◌∷◌, ◌&&◌, ◌||◌, ◌==◌,
  if◌then◌else◌, one_of, any, truthy, is_text, is_some,
}
use phylum.AgenticLoop.{Message}
use phylum.AgenticLoop.Resume.{apply_handoff_response}

pub record RunTask : Type 0 where
  pub id : String
  pub status : String

-- The text of an empty response is empty.
pub record Handoff : Type 0 where
  pub tool_call_id : Option String
  pub response : Option String
  pub status : String

-- `approvals` are the statuses of the run's approvals, `is_running` says whether its asyncio task is
-- there and not done, `stops` whether that was cancelled, `is_cancelled` is the cancel event, and
-- `messages` are those of the agent's session.
pub record Life : Type 0 where
  pub status : String
  pub tasks : List RunTask
  pub current_task_id : Option String
  pub pending_handoff : Option Handoff
  pub approvals : List String
  pub messages : List Message
  pub is_running : Bool
  pub stops : Bool
  pub is_cancelled : Bool

pub data Resumed : Type 0 where
  already_terminal wants_response awaits_approval runs_already started : Resumed

abbrev pub is_terminal : String → Bool
is_terminal status = one_of status ("completed" ∷ "failed" ∷ "cancelled" ∷ [])

abbrev pub is_open : RunTask → Bool
is_open t = not (one_of t.status ("completed" ∷ "failed" ∷ "cancelled" ∷ "rejected" ∷ []))

unfoldable pub cancel_first : (RunTask → Bool) → List RunTask → List RunTask
cancel_first test [] = []
cancel_first test (t ∷ ts) =
    if test t then record t { status = "cancelled" } ∷ ts else t ∷ cancel_first test ts

-- The current task where it is there, else the first one that is not at its end.
unfoldable pub cancel_task : Option String → List RunTask → List RunTask
unfolding cancel_first
cancel_task current tasks =
    let is_current = λ (t : RunTask). is_text current t.id in
    if truthy current && any is_current tasks
    then cancel_first is_current tasks
    else cancel_first is_open tasks

-- `cancel_run`, and whether the run was at its end already.
unfoldable pub cancel_run : Life → Life × Bool
unfolding cancel_task
cancel_run l = if is_terminal l.status then (l, true) else (
  record l {
    status = "cancelling";
    tasks = cancel_task l.current_task_id l.tasks;
    stops = l.stops || l.is_running;
    is_cancelled = true;
  },
  false,
)

-- `reply_to_run`; `none` is its ValueError.
unfoldable pub reply_to_run : String → Life → Option Life
reply_to_run response l = elim l.pending_handoff [
  | none ↦ none
  | some h ↦ some (record l {
    pending_handoff = some (record h { response = some response; status = "answered" });
    status = "paused";
  })
]

-- `_apply_handoff_response`.
unfoldable pub apply_response : Handoff → String → Life → Life
unfolding apply_handoff_response
apply_response h response l = record l {
  messages = apply_handoff_response h.tool_call_id response l.messages;
  pending_handoff = none;
}

-- `resume_run` after the handoff.
unfoldable pub start_again : Life → Resumed × Life
start_again l =
    if any (λ s. s == "pending") l.approvals
    then (awaits_approval, record l { status = "awaiting_approval" })
    else if l.is_running
    then (runs_already, l)
    else (started, record l { is_running = true })

-- The handoff of `resume_run`.
unfoldable pub take_response : Option Handoff → Life → Resumed × Life
unfolding apply_response start_again
take_response none l = start_again l
take_response (some h) l = elim h.response [
  | none ↦ (wants_response, l)
  | some response ↦
      if response == "" then (wants_response, l) else start_again (apply_response h response l)
]

unfoldable pub resume_run : Life → Resumed × Life
unfolding take_response
resume_run l =
    if is_terminal l.status then (already_terminal, l) else take_response l.pending_handoff l
