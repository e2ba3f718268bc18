-- ===== src/Examples/Approvals.antt =====
-- A task that is approved for its run, and a second one that reuses the grant.
use phylum.Common.{String, none, some, false, List, [], ◌∷◌, ◌≡◌, refl, true, get_elem?, length}
use phylum.Common.Dict.{get}
use phylum.RuntimeManager.{
  Run, Task, Futures, create_runtime_approval, resolve_approval, register, wait_for_approval,
  answer_waiter,
}
use phylum.RiskClassifier.{high, Risk}
use phylum.Policy.{Grant, Metadata, matching_grant, single}
use phylum.Policy as Policy
use phylum.RuntimeManager.Families.{IsBounded}
use phylum.RuntimeManager.Grants.{
  Reach, starts, creates, resolves, Reach-IsBounded, Reach-refuses_high,
}
use phylum.AgenticLoop.Resume.{apply_handoff_response}
use phylum.RuntimeManager.Lifecycle.{Life, Handoff, started, reply_to_run, resume_run}
use phylum.RuntimeManager.Lifecycle.Resumption.{reply_to_run-revives}
use phylum.RuntimeManager.Waiters.{resolve_lost}

abbrev task_of : String → Task
task_of id = record {
  id = id;
  tool = "windows_ui";
  status = "pending";
  approval_id = none;
  approval_granted = none;
  approval_scope = none;
  approval_grant_id = none;
}

abbrev family_of : String → String
family_of tool = "interactive_desktop"

abbrev uuid : List Grant → String
uuid grants = "g1"

abbrev begun : Run
begun = record { approvals = []; tasks = task_of "t1" ∷ task_of "t2" ∷ []; grants = [] }

abbrev asked_once : Run
asked_once = create_runtime_approval "a1" "t1" true begun

abbrev approved_once : Run
approved_once = resolve_approval family_of uuid "a1" "approved" "run_scope" true asked_once

abbrev approved_twice : Run
approved_twice =
    resolve_approval family_of uuid "a2" "approved" "run_scope" true
      (create_runtime_approval "a2" "t2" true approved_once)

reached : Reach family_of uuid approved_twice
reached = resolves "a2" "approved" "run_scope" true (
    creates "a2" "t2" true (
      resolves "a1" "approved" "run_scope" true
        (creates "a1" "t1" true (starts [] (task_of "t1" ∷ task_of "t2" ∷ [])))))

one_grant : length approved_twice.grants ≡ 1
unfolding resolve_approval create_runtime_approval
one_grant = refl

Reach-IsBounded_example : IsBounded approved_twice.grants
Reach-IsBounded_example = Reach-IsBounded family_of uuid reached

abbrev waiting : Futures
waiting = record { heap = none ∷ []; waiters = ("a1", 0) ∷ [] }

found : get "a1" waiting.waiters ≡ some 0
unfolding get
found = refl

resolve_lost_example :
    get_elem?
      (wait_for_approval "a1" (answer_waiter "a1" "approved" (register "a1" waiting))).0.heap
      (wait_for_approval "a1" (answer_waiter "a1" "approved" (register "a1" waiting))).1
    ≡ some none
resolve_lost_example = resolve_lost "a1" "approved" waiting

abbrev click : Policy.Task
click = record {
  tool = "windows_ui";
  action = "click";
  params = record { fields = []; require_admin = false };
}

abbrev acting : Metadata
acting = record {
  mutates_state = true;
  double_confirm = false;
  approval_mode = single;
  target_fields = [];
  effect_kind = none;
  reversibility = none;
}

abbrev risky : Risk
risky = record { level = high; tags = [] }

Reach-refuses_high_example : matching_grant approved_twice.grants click acting risky ≡ none
Reach-refuses_high_example = Reach-refuses_high family_of uuid click acting risky reached refl

abbrev question : Handoff
question = record { tool_call_id = none; response = none; status = "pending" }

abbrev failed_run : Life
failed_run = record {
  status = "failed";
  tasks = [];
  current_task_id = none;
  pending_handoff = some question;
  approvals = [];
  messages = [];
  is_running = false;
  stops = false;
  is_cancelled = false;
}

reply_to_run-revives_example :
    (l' : Life) × (reply_to_run "yes" failed_run ≡ some l')
    × ((resume_run l').0 ≡ started)
    × ((resume_run l').1.is_running ≡ true)
    × ((resume_run l').1.is_cancelled ≡ false)
    × ((resume_run l').1.pending_handoff ≡ none)
    × ((resume_run l').1.messages ≡ apply_handoff_response none "yes" [])
reply_to_run-revives_example =
    reply_to_run-revives failed_run question "yes" refl refl refl refl refl
