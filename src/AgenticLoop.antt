-- ===== src/AgenticLoop.antt =====
-- core/agentic_loop.py: `AgenticLoop.run` from its loop on, after the fast path has not served, with
-- the functions that it calls. Events to the user, metrics and the thinking of the model
-- are left out: they do not change what the loop does next.
pub mod Partition
pub mod Conversation
pub mod Journal
pub mod Execution
pub mod Turns
pub mod Protocol
pub mod Requests
pub mod Runs
pub mod Order
pub mod Resume
use phylum.Common.{
  ℕ, zero, suc, ◌+◌, ◌-◌, String, Bool, true, false, not, Option, none, some, List, [], ◌∷◌, ◌++◌,
  ◌&&◌, ◌||◌, ◌==◌, if◌then◌else◌, leb, ltb, one_of, any, filter, find?, map, length, non_empty,
  is_text,
}
use phylum.Common.Dict.{Dict, get, put}

pub record ToolCall : Type 0 where
  pub id : String
  pub name : String
  pub arguments : Dict String

-- A message of the conversation. An assistant's has its tool calls, none where the key is missing.
pub data Message : Type 0 where
  system user : String → Message
  assistant : String → List ToolCall → Message
  tool : String → String → Message

pub record Usage : Type 0 where
  pub prompt_tokens : ℕ
  pub completion_tokens : ℕ

pub record Turn : Type 0 where
  pub content : String
  pub tool_calls : List ToolCall
  pub usage : Usage

-- The values of `params` are their texts.
pub record Task : Type 0 where
  pub id : String
  pub action : String
  pub params : Dict String

pub record Result : Type 0 where
  pub status : String
  pub success : Option Bool
  pub text : String

-- CancelledError, RunPausedError, and any other exception with its text.
pub data Failure : Type 0 where
  cancelled paused : Failure
  error : String → Failure

pub data Outcome : Type 0 where
  returned : Result → Outcome
  raised : Failure → Outcome

-- What a request to the model gives: a turn, an `LLMApiError` or another exception.
pub data Reply : Type 0 where
  turned : Turn → Reply
  llm_error : Reply
  broken : Failure → Reply

-- What the loop has done so far, in order: requests to the model, tasks and sub-agents that were
-- started.
pub data Event : Type 0 where
  asked : List Message → Event
  executed : Task → Event
  delegated : ToolCall → Event

abbrev pub Log : Type 0
Log = List Event

-- The loop's collaborators. What they answer may depend on all that has been done before. `complete` is
-- the client's, with the step of the disclosure, whether the model is the escalated one and whether the
-- tools are the focused ones. After an `LLMApiError`, `escalates` says whether
-- `should_escalate_after_failure` holds apart from its flag and there is a model to escalate to, and
-- `is_failed_generation` whether it is a failed generation of groq with tools to choose from. `contains` is
-- `in` on texts; `compact` is `_compact_tool_result`.
pub record Services : Type 0 where
  pub is_set : Log → Bool
  pub complete : Log → List Message → ℕ → Bool → Bool → Reply
  pub escalates : Log → Bool
  pub is_failed_generation : Log → Bool
  pub prevalidate : ℕ → ToolCall → Option String
  pub task_factory : ToolCall → ℕ → Task
  pub execute_task : Log → Task → Outcome
  pub execute_subagents : Log → ToolCall → Outcome
  pub over_budget : List Usage → Bool
  pub compact : Result → String
  pub lower : String → String
  pub contains : String → String → Bool
  pub join : String → List String → String

-- `messages` is the list that the checkpoints write into the session, `expansion` the state's
-- `_disclosure_expansion_step`, `escalated` the flag `escalation_used` of the provider's configuration.
pub record State : Type 0 where
  pub messages : List Message
  pub usages : List Usage
  pub expansion : ℕ
  pub escalated : Bool
  pub log : Log

-- How a run ends: with a result, whose texts are left out where they are salvaged, or with an
-- exception.
pub data Ended : Type 0 where
  completed : String → ℕ → Ended
  budget_exceeded llm_failed : ℕ → Ended
  awaiting_input : ToolCall → ℕ → Ended
  failed : Failure → Ended

pub data Progress : Type 0 where
  goes_on : Progress
  ends : Ended → Progress

abbrev pub is_handoff : ToolCall → Bool
is_handoff call = call.name == "request_user_input"

abbrev pub is_subagent : ToolCall → Bool
is_subagent call = call.name == "subagent"

abbrev pub max_disclosure_expansion : ℕ
max_disclosure_expansion = 2

abbrev pub mutation_types : List String
mutation_types =
    "execute_python" ∷ "execute_powershell" ∷ "write_result" ∷ "create" ∷ "word_create_document"
    ∷ "save_as_document" ∷ "export_pdf" ∷ "draft_email_with_attachment" ∷ "delete" ∷ "move" ∷ "copy"
    ∷ []

abbrev pub Planned : Type 0
Planned = List (ToolCall × Task)

unfoldable pub is_expandable_failure : Result → Bool
is_expandable_failure r =
    one_of r.status ("failed" ∷ "error" ∷ "timeout" ∷ "validation_failed" ∷ "rejected" ∷ [])
    || elim r.success [ none ↦ false | some ok ↦ not ok ]

module _ (services : Services) where
  -- The parameters name the id of a task before.
  unfoldable pub refs_sibling : List String → Task → Bool
  refs_sibling seen t =
      let param_values = services.lower (services.join " " (map (λ e. e.1) t.params)) in
      any (λ tid. not (tid == "") && services.contains tid param_values) seen

  unfoldable pub split : List String → Planned → Planned × Planned
  unfolding refs_sibling
  split seen [] = ([], [])
  split seen (p ∷ planned) =
      let rest = split (p.1.id ∷ seen) planned in
      if one_of (p.1.action) mutation_types || refs_sibling seen (p.1)
      then ([], p ∷ planned)
      else (p ∷ rest.0, rest.1)

  -- `_partition_by_dependency`.
  unfoldable pub partition : Planned → Planned × Planned
  unfolding split
  partition planned = if leb (length planned) 1 then (planned, []) else split [] planned

  -- `_plan_validated_tool_calls`: the answers to the calls that are not valid, and the tasks of the others.
  unfoldable pub plan_calls : ℕ → List ToolCall → List Message × Planned
  plan_calls step [] = ([], [])
  plan_calls step (call ∷ calls) =
      let rest = plan_calls step calls in
      elim (services.prevalidate step call) [
        | none ↦ (rest.0, (call, services.task_factory call step) ∷ rest.1)
        | some refusal ↦ (tool call.id refusal ∷ rest.0, rest.1)
      ]

  -- `_execute_task`.
  unfoldable pub execute_one : Task → Log → Log × Outcome
  execute_one t log =
      let started = log ++ executed t ∷ [] in
      if services.is_set log
      then (log, raised cancelled)
      else (started, services.execute_task started t)

  -- `asyncio.gather`, with the tasks started in order.
  unfoldable pub gather : Planned → Log → Log × List (ToolCall × Outcome)
  unfolding execute_one
  gather [] log = (log, [])
  gather (p ∷ planned) log =
      let first = execute_one (p.1) log in
      let rest = gather planned first.0 in (rest.0, (p.0, first.1) ∷ rest.1)

-- The results by the ids of their calls, and whether one raised; or the exception that goes through.
pub data Gathered : Type 0 where
  results : Dict Result → Bool → Gathered
  stopped : Failure → Gathered

unfoldable pub collect : List (ToolCall × Outcome) → Dict Result → Bool → Gathered
unfolding put
collect [] found broke = results found broke
collect ((call, returned r) ∷ rest) found broke = collect rest (put call.id r found) broke
collect ((call, raised cancelled) ∷ rest) found broke = stopped cancelled
collect ((call, raised paused) ∷ rest) found broke = stopped paused
collect ((call, raised (error text)) ∷ rest) found broke = collect rest found true

abbrev pub skipped : Result
skipped = record { status = "failed"; success = none; text = "execution skipped" }

unfoldable pub result_of : Dict Result → ToolCall → Result
unfolding get
result_of found call = elim (get call.id found) [ none ↦ skipped | some r ↦ r ]

module _ (services : Services) where
  -- The dependent tasks, one after the other.
  unfoldable pub run_dependent : Planned → Dict Result → Bool → Log → Log × Gathered
  unfolding execute_one put
  run_dependent [] found broke log = (log, results found broke)
  run_dependent (p ∷ planned) found broke log =
      let (log', outcome) = execute_one services (p.1) log in
      elim outcome [
        | raised why ↦ (log', stopped why)
        | returned r ↦ run_dependent planned (put (p.0.id) r found) broke log'
      ]

  -- The independent tasks, and then the dependent ones.
  unfoldable pub run_planned : Planned → Log → Log × Gathered
  unfolding partition gather collect run_dependent
  run_planned planned log =
      let (independent, dependent) = partition services planned in
      let (log', outcomes) = gather services independent log in
      if non_empty independent && services.is_set log
      then (log, stopped cancelled)
      else elim (collect outcomes [] false) [
        | stopped why ↦ (log', stopped why)
        | results found broke ↦ run_dependent dependent found broke log'
      ]

  -- Every sub-agent call is run, and then answered; no two calls of a turn have one id.
  unfoldable pub run_subagents : List ToolCall → Log → Log × (List Message × Option Failure)
  run_subagents [] log = (log, ([], none))
  run_subagents (call ∷ calls) log =
      let started = log ++ delegated call ∷ [] in
      elim (services.execute_subagents started call) [
        | raised why ↦ (started, ([], some why))
        | returned r ↦
            let rest = run_subagents calls started in
            (rest.0, (tool call.id (services.compact r) ∷ rest.1.0, rest.1.1))
      ]

  unfoldable pub answers : Dict Result → Planned → List Message
  unfolding result_of
  answers found planned =
      map (λ p. tool (p.0.id) (services.compact (result_of found (p.0)))) planned

  -- `_expand_tool_disclosure`.
  unfoldable pub expand_disclosure : Bool → ℕ → ℕ
  expand_disclosure failure current =
      if failure && ltb current max_disclosure_expansion then current + 1 else current

  -- The calls that are neither: validated, run and answered.
  unfoldable pub use_regular : ℕ → List ToolCall → State → State × Progress
  unfolding plan_calls run_planned answers expand_disclosure is_expandable_failure result_of
  use_regular step regular st =
      let (refusals, planned) = plan_calls services step regular in
      let (log', gathered) = run_planned planned st.log in
      elim gathered [
        | stopped why ↦
            (record st { messages = st.messages ++ refusals; log = log' }, ends (failed why))
        | results found broke ↦
            let failure =
              broke
              || (ltb (length planned) (length regular)
                  || any (λ p. is_expandable_failure (result_of found (p.0))) planned) in
            (
              record st {
                messages = (st.messages ++ refusals) ++ answers found planned;
                expansion = expand_disclosure failure st.expansion;
                log = log';
              },
              goes_on,
            )
      ]

  unfoldable pub use_tools : ℕ → Turn → State → State × Progress
  unfolding run_subagents use_regular
  use_tools step turn st =
      let said = st.messages ++ assistant turn.content turn.tool_calls ∷ [] in
      let executable = filter (λ c. not (is_handoff c)) turn.tool_calls in
      let subagents = filter is_subagent executable in
      let regular = filter (λ c. not (is_subagent c)) executable in
      elim (find? is_handoff turn.tool_calls) [
        | some call ↦ (record st { messages = said }, ends (awaiting_input call step))
        | none ↦
            let (log', (found, failure)) = run_subagents subagents st.log in
            elim failure [
              | some why ↦ (record st { messages = said; log = log' }, ends (failed why))
              | none ↦
                  let told = record st { messages = said ++ found; log = log' } in
                  if non_empty subagents && not (non_empty regular)
                  then (told, goes_on)
                  else use_regular step regular told
            ]
      ]

  -- What the loop makes of a reply to the messages.
  unfoldable pub take_reply : ℕ → Reply → State → State × Progress
  unfolding use_tools
  take_reply step llm_error st = (st, ends (llm_failed step))
  take_reply step (broken why) st = (st, ends (failed why))
  take_reply step (turned turn) st =
      let counted = record st { usages = st.usages ++ turn.usage ∷ [] } in
      if non_empty turn.tool_calls
      then use_tools step turn counted
      else if not (turn.content == "")
      then (
        record counted { messages = st.messages ++ assistant turn.content [] ∷ [] },
        ends (completed turn.content step),
      )
      else (counted, ends (failed (error "Agent returned neither text nor tool call")))

  -- `_complete_llm_turn`, on fuel for its requests: the reply, and whether the model was escalated. A
  -- request is repeated after an escalation, once in a run, and with focused tools, once in a step.
  unfoldable pub complete_turn :
      ℕ → Bool → Bool → List Message → ℕ → Log → Option (Log × (Bool × Reply))
  complete_turn zero escalated focused messages expansion log = none
  complete_turn (suc fuel) escalated focused messages expansion log =
      let sent = log ++ asked messages ∷ [] in
      elim (services.complete sent messages expansion escalated focused) [
        | turned turn ↦ some (sent, (escalated, turned turn))
        | broken why ↦ some (sent, (escalated, broken why))
        | llm_error ↦
            if not escalated && services.escalates sent
            then complete_turn fuel true focused messages expansion sent
            else if not focused && services.is_failed_generation sent
            then complete_turn fuel escalated true messages expansion sent
            else some (sent, (escalated, llm_error))
      ]

  -- A step makes at most three requests.
  unfoldable pub take_step : ℕ → State → Option (State × Progress)
  unfolding take_reply complete_turn
  take_step step st = elim (complete_turn 3 st.escalated false st.messages st.expansion st.log) [
    | none ↦ none
    | some r ↦ some (take_reply step (r.1.1) (record st { escalated = r.1.0; log = r.0 }))
  ]

  -- The loop, with the number of steps that are left.
  unfoldable pub loop : ℕ → ℕ → State → Option (State × Ended)
  unfolding take_step
  loop zero step st = some (st, failed (error "Agentic loop reached max_steps"))
  loop (suc left) step st =
      if services.is_set st.log
      then some (st, failed cancelled)
      else if services.over_budget st.usages
      then some (st, budget_exceeded (step - 1))
      else elim (take_step step st) [
        | none ↦ none
        | some (st', ends e) ↦ some (st', e)
        | some (st', goes_on) ↦ loop left (step + 1) st'
      ]

  -- The messages of the session or, where there are none, the prompt and the user's text.
  unfoldable pub first_messages : List Message → String → String → List Message
  first_messages session prompt text =
      if non_empty session then session else system prompt ∷ user text ∷ []

  -- The messages, the step and the expansion are those of the session. `none` is no result of the source:
  -- the fuel of a step is enough.
  unfoldable pub run : ℕ → List Message → ℕ → ℕ → Bool → String → String → Option (State × Ended)
  unfolding loop first_messages
  run max_steps session start_step expansion escalated prompt text =
      loop max_steps (start_step + 1) (record {
        messages = first_messages session prompt text;
        usages = [];
        expansion = expansion;
        escalated = escalated;
        log = [];
      })
