-- ===== src/Examples/Recoveries.antt =====
-- A failure of a tool, its classification, and the node that it leads to.
use phylum.Common.{String, ◌≡◌, true, false, none, some, [], ◌∷◌, ◌==◌, ltb}
use phylum.Common.Dict.{has_key}
use phylum.Pipelines.Local.{local}
use phylum.RecoveryEngine.{
  Task, Issue, Output, ActionResult, Services, classify_action_result, classify,
  resolve_graph_target,
}
use phylum.RecoveryEngine.Plans.{IsSound, classify_action_result-IsSound, classify-IsSound}
use phylum.RecoveryEngine.Targets.{resolve_graph_target-local}

abbrev services : Services
services = record {
  lower = λ text. text;
  contains = λ part text. part == text;
  detect_missing_modules = λ text. "requests" ∷ [];
  script_for_failure = λ t err. none;
}

abbrev fetch : Task
fetch = record { tool = "web"; action = "fetch" }

abbrev lost_window : Issue
lost_window = record {
  kind = "stale_handle";
  message = "window closed";
  user_action = "";
  has_candidates = false;
}

abbrev no_output : Output
no_output = record { missing_modules = []; stderr = "" }

abbrev failed_result : ActionResult
failed_result = record {
  issue = lost_window;
  summary = "window closed";
  status = "failed";
  goal_satisfied = none;
  result_data = no_output;
  details = no_output;
}

classify_action_result-IsSound_example :
    IsSound (ltb 1 2) (classify_action_result services fetch failed_result 1 2)
classify_action_result-IsSound_example =
    classify_action_result-IsSound services fetch 1 2 failed_result

classify-IsSound_example : IsSound (ltb 2 2) (classify services fetch "timeout" lost_window 2 2)
classify-IsSound_example = classify-IsSound services fetch 2 2 "timeout" lost_window

resolve_graph_target-local_example :
    (n : String) × (resolve_graph_target
        (some local)
        []
        []
        (classify services fetch "timeout" lost_window 2 2)
      ≡ some n)
    × (has_key n local.nodes ≡ true)
resolve_graph_target-local_example =
    resolve_graph_target-local (ltb 2 2) (classify services fetch "timeout" lost_window 2 2) [] []
      (classify-IsSound services fetch 2 2 "timeout" lost_window)
