-- ===== src/Examples/Executions.antt =====
-- A task of the desktop that the user approves, and whose tool fails once.
use phylum.Common.{
  true, suc, ◌-◌, none, some, false, [], ◌∷◌, ◌++◌, ◌≡◌, ◌==◌, refl, leb, length, if◌then◌else◌,
}
use phylum.RecoveryEngine as Recovery
use phylum.RecoveryEngine.{Issue, ActionResult}
use phylum.ActionExecutor.{
  Services, Setting, State, Ended, returned, judged, asked, answered, reused, attempted, ran,
  handed_off, Verdict, reported, crashed, over, paused, passes, guard, attempt_once, execute,
}
use phylum.ActionExecutor.Ends.{Done, execute-Done}
use phylum.ActionExecutor.Pauses.{ambiguous, desktop_task, handoff_twice}

abbrev verdict : Verdict
verdict = record { status = "require_approval"; has_grant = false; reason = "" }

abbrev no_issue : Issue
no_issue = record { kind = ""; message = ""; user_action = ""; has_candidates = false }

abbrev done : ActionResult
done = record (ambiguous "" "") { status = "succeeded"; issue = no_issue }

abbrev services : Services
services = record {
  is_set = λ log. false;
  evaluate = λ log. verdict;
  answer = λ log. "approved";
  restore_context = λ log. none;
  bind_scope = λ log. none;
  execute_tool = λ log. if leb (length log) 5 then crashed "timeout" else reported done;
  execute_script = λ log script. crashed "";
  verify_goal = λ log. some true;
  reflection_error = λ log. none;
  reflection_summary = λ r. r.summary;
  recovery = record {
    lower = λ text. text;
    contains = λ part text. part == text;
    detect_missing_modules = λ text. [];
    script_for_failure = λ t err. none;
  };
}

abbrev task : Setting
task = desktop_task "t" "find_element" 2 false []

execute-Done_example :
    (r : State × Ended) × (execute services task
        (suc (2 - 0))
        (record { attempt = 0; issue = no_issue; log = [] })
      ≡ some r)
    × Done services task 0 0 r
execute-Done_example = execute-Done services task 0 no_issue

second_attempt :
    execute services task 3 (record { attempt = 0; issue = no_issue; log = [] })
    ≡ some (
      record {
        attempt = 2;
        issue = no_issue;
        log =
            judged verdict
            ∷ asked
            ∷ answered "approved"
            ∷ attempted
            ∷ ran
            ∷ judged verdict
            ∷ reused "approved"
            ∷ attempted
            ∷ ran
            ∷ [];
      },
      returned "completed",
    )
unfolding execute Recovery.classify
second_attempt = refl

abbrev unsure : Services
unsure = record services {
  execute_tool = λ log. reported (ambiguous "more than one" "matched");
  verify_goal = λ log. some false;
}

abbrev begun : State
begun = record { attempt = 0; issue = no_issue; log = [] }

abbrev passed : State
passed = record begun { log = judged verdict ∷ asked ∷ answered "approved" ∷ [] }

lets_pass : guard unsure task begun ≡ (passed, passes)
unfolding guard
lets_pass = refl

handoff_twice_example : attempt_once unsure task begun ≡ (
  record {
    attempt = 1;
    issue = (ambiguous "more than one" "matched").issue;
    log = (((passed.log ++ attempted ∷ []) ++ ran ∷ []) ++ handed_off ∷ []) ++ handed_off ∷ [];
  },
  over paused,
)
handoff_twice_example =
    handoff_twice unsure "t" "find_element" 2 false [] "more than one" "matched" begun passed
      lets_pass (λ log. refl) (λ log. refl) refl refl refl (λ log. refl) refl (λ part h. h)
