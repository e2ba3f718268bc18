-- ===== src/Examples/Loops.antt =====
-- A run that calls a sub-agent and two tools, one of them not valid, and that then waits for the user.
use phylum.Common.{
  List, ◌≡◌, ◌↔◌, refl, arith, true, false, none, some, [], ◌∷◌, ◌++◌, length, leb, ◌==◌,
  if◌then◌else◌,
}
use phylum.AgenticLoop.{
  State, Ended, Message, llm_error, awaiting_input, ToolCall, system, user, assistant, tool, Task,
  Result, Services, returned, turned, Planned, partition, run, run_planned, results, executed,
  asked, delegated,
}
use phylum.AgenticLoop.Conversation.{Answered, silent, says}
use phylum.AgenticLoop.Runs.{Finished, run-Finished}
use phylum.AgenticLoop.Partition.{IsSplit, partition-IsSplit}
use phylum.AgenticLoop.Order.{run_planned_runs, runs}
use phylum.AgenticLoop.Protocol.{Waits}
use phylum.AgenticLoop.Resume.{apply_handoff_response, resume-Answered_iff}

abbrev agent : ToolCall
agent = record { id = "1"; name = "subagent"; arguments = [] }

abbrev reading : ToolCall
reading = record { id = "2"; name = "read"; arguments = [] }

abbrev wrong : ToolCall
wrong = record { id = "3"; name = "wrong"; arguments = [] }

abbrev asking : ToolCall
asking = record { id = "4"; name = "request_user_input"; arguments = [] }

abbrev ok_result : Result
ok_result = record { status = "completed"; success = some true; text = "ok" }

abbrev task_of : ToolCall → Task
task_of call = record { id = call.id; action = call.name; params = [] }

abbrev services : Services
services = record {
  is_set = λ log. leb 9 (length log);
  complete = λ log messages expansion escalated focused.
      if leb (length log) 1
      then llm_error
      else turned (record {
        content = "";
        tool_calls = if leb (length log) 2 then agent ∷ reading ∷ wrong ∷ [] else asking ∷ [];
        usage = record { prompt_tokens = 1; completion_tokens = 1 };
      });
  escalates = λ log. true;
  is_failed_generation = λ log. false;
  prevalidate = λ step call. if call.name == "wrong" then some "no such tool" else none;
  task_factory = λ call step. task_of call;
  execute_task = λ log t. returned ok_result;
  execute_subagents = λ log call. returned ok_result;
  over_budget = λ usages. false;
  compact = λ r. r.text;
  lower = λ text. text;
  contains = λ part text. part == text;
  join = λ by texts. "";
}

run-Finished_example :
    (r : State × Ended) × (run services 5 [] 0 0 false "be useful" "do it" ≡ some r)
    × Finished services 0 5 r
run-Finished_example = run-Finished services 5 [] 0 0 false "be useful" "do it" silent

abbrev asked_first : List Message
asked_first = system "be useful" ∷ user "do it" ∷ []

abbrev answered_first : List Message
answered_first =
    asked_first
    ++ assistant "" (agent ∷ reading ∷ wrong ∷ [])
      ∷ tool "1" "ok"
      ∷ tool "3" "no such tool"
      ∷ tool "2" "ok"
      ∷ []

-- The first request fails and is repeated with another model.
run_logs :
    run services 5 [] 0 0 false "be useful" "do it"
    ≡ some (
      record {
        messages = answered_first ++ assistant "" (asking ∷ []) ∷ [];
        usages =
            record { prompt_tokens = 1; completion_tokens = 1 }
            ∷ record { prompt_tokens = 1; completion_tokens = 1 }
            ∷ [];
        expansion = 1;
        escalated = true;
        log =
            asked asked_first
            ∷ asked asked_first
            ∷ delegated agent
            ∷ executed (task_of reading)
            ∷ asked answered_first
            ∷ [];
      },
      awaiting_input asking 2,
    )
unfolding run
run_logs = refl

abbrev planned : Planned
planned = (reading, task_of reading) ∷ (agent, task_of agent) ∷ []

partition-IsSplit_example : IsSplit services [] planned (partition services planned)
partition-IsSplit_example = partition-IsSplit services planned (omega arith)

gives_results :
    (run_planned services planned []).1 ≡ results (("2", ok_result) ∷ ("1", ok_result) ∷ []) false
unfolding run_planned
gives_results = refl

run_planned_runs_example : (run_planned services planned []).0 ≡ [] ++ runs planned
run_planned_runs_example =
    run_planned_runs services planned [] (("2", ok_result) ∷ ("1", ok_result) ∷ []) false
      gives_results

waiting : Waits (user "do it" ∷ assistant "" (asking ∷ []) ∷ []) asking
waiting = record {
  before = user "do it" ∷ [];
  content = "";
  calls = asking ∷ [];
  answered = says (user "do it") silent refl;
  whole = refl;
  chosen = refl;
}

resume-Answered_iff_example :
    Answered
      (apply_handoff_response (some "4") "yes" (user "do it" ∷ assistant "" (asking ∷ []) ∷ []))
    ↔ (length waiting.calls ≡ 1)
resume-Answered_iff_example = resume-Answered_iff "yes" waiting refl
