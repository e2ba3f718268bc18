-- ===== src/RecoveryEngine.antt =====
-- safety/recovery_engine.py: `RecoveryEngine`, and `suggest_script_recovery` of
-- execution/execution_strategy.py. The texts for the user (`reason`, `recommended_followups`) are
-- left out of a classification; a key that is missing is the empty text, as the code reads it.
pub mod Plans
pub mod Targets
pub mod Retries
use phylum.Common.{
  ℕ, String, Bool, true, false, not, Option, none, some, List, [], ◌∷◌, ◌&&◌, ◌||◌, ◌==◌,
  if◌then◌else◌, ltb, one_of, truthy, any, non_empty, is_some,
}
use phylum.Common.Dict.{Dict, get}
use phylum.StateGraph.{StateGraph, Visit}
use phylum.StateGraph.Recovery.{Hint, find_recovery_target}

pub record Task : Type 0 where
  pub tool : String
  pub action : String

-- `has_candidates` is the truth of the issue's `candidates`; `kind` and `user_action` are lowered.
pub record Issue : Type 0 where
  pub kind : String
  pub message : String
  pub user_action : String
  pub has_candidates : Bool

-- `data` (here `result_data`) or `details` of an action's result.
pub record Output : Type 0 where
  pub missing_modules : List String
  pub stderr : String

-- `goal_satisfied` is `none` where there is no goal; a goal without the key is satisfied.
pub record ActionResult : Type 0 where
  pub issue : Issue
  pub summary : String
  pub status : String
  pub goal_satisfied : Option Bool
  pub result_data : Output
  pub details : Output

pub record Plan : Type 0 where
  pub classification : String
  pub retryable : Bool
  pub needs_user : Bool
  pub suggested_action : String
  pub target_node : Option String
  pub missing_modules : List String
  pub script : Option String

-- What the engine calls: `lower` and `contains part text` (`part in text`) of `str`,
-- `SandboxExecutor.detect_missing_modules`, and the generator of the scripts.
pub record Services : Type 0 where
  pub lower : String → String
  pub contains : String → String → Bool
  pub detect_missing_modules : String → List String
  pub script_for_failure : Task → String → Option String

unfoldable pub suggested_action_to_target_node : Dict String
suggested_action_to_target_node =
    ("retry", "executor")
    ∷ ("execute_script", "script_recovery")
    ∷ ("rediscover_target", "planner")
    ∷ ("replan", "planner")
    ∷ ("switch_tooling", "planner")
    ∷ ("verify_outcome", "reflection")
    ∷ ("ask_user", "handoff")
    ∷ ("narrow_selector", "executor")
    ∷ ("dependency_install", "executor")
    ∷ ("stop", "fail")
    ∷ []

-- A classification with `_attach_target_node` applied to it.
unfoldable pub plan : String → Bool → Bool → String → Plan
unfolding get suggested_action_to_target_node
plan classification retryable needs_user suggested = record {
  classification = classification;
  retryable = retryable;
  needs_user = needs_user;
  suggested_action = suggested;
  target_node = get suggested suggested_action_to_target_node;
  missing_modules = [];
  script = none;
}

unfoldable pub install_plan : List String → Plan
unfolding plan
install_plan missing = record (plan "dependency_install" true false "dependency_install") {
  missing_modules = missing;
}

-- The executor's answer where it is a node, else the target of the classification.
unfoldable pub resolve_graph_target :
    {S R : Type 0} → Option (StateGraph S R) → List Visit → List Visit → Plan → Option String
unfolding find_recovery_target
resolve_graph_target none log entries p = p.target_node
resolve_graph_target (some g) log entries p =
    let target = find_recovery_target g log entries (record {
      suggested_action = p.suggested_action;
      target_node = p.target_node;
      classification = p.classification;
    }) in
    if truthy target then target else p.target_node

module _ (services : Services) where
  -- `any(marker in message for marker in […])`.
  unfoldable pub mentions : List String → String → Bool
  mentions markers message = any (λ marker. services.contains marker message) markers

  unfoldable pub extract_missing_modules : ActionResult → List String
  extract_missing_modules r =
      let stderr =
        if not (r.result_data.stderr == "") then r.result_data.stderr else r.details.stderr in
      if non_empty r.result_data.missing_modules
      then r.result_data.missing_modules
      else if non_empty r.details.missing_modules
      then r.details.missing_modules
      else if not (stderr == "")
          && (services.contains "ModuleNotFoundError" stderr
              || services.contains "No module named" stderr)
      then services.detect_missing_modules stderr
      else []

  unfoldable pub extract_missing_modules_from_error : String → List String
  extract_missing_modules_from_error err =
      if err == "" then [] else services.detect_missing_modules err

  unfoldable pub suggest_script_recovery : Task → String → Option Plan
  unfolding plan
  suggest_script_recovery t err =
      if services.contains "approval rejected" (services.lower err)
      then none
      else if services.contains "blocked by policy" (services.lower err)
      then none
      else elim (services.script_for_failure t err) [
        | none ↦ none
        | some script ↦
            if script == ""
            then none
            else some (record (plan "script_recovery" false false "execute_script") {
              script = some script;
            })
      ]

  -- The last steps of both classifications: a retry, a script, or the end.
  unfoldable pub retry_script_or_stop : Bool → Task → String → Plan
  unfolding plan suggest_script_recovery
  retry_script_or_stop retryable t err =
      if retryable
      then plan "retryable" true false "retry"
      else elim (suggest_script_recovery t err) [
        | some p ↦ p
        | none ↦ plan "terminal" false false "stop"
      ]

  unfoldable pub classify_action_result : Task → ActionResult → ℕ → ℕ → Plan
  unfolding plan install_plan extract_missing_modules retry_script_or_stop
  classify_action_result t r attempt max_attempts =
      let kind = r.issue.kind in
      let again = ltb attempt max_attempts in
      let missing = extract_missing_modules r in
      if r.status == "partial"
        && (elim r.goal_satisfied [ none ↦ false | some satisfied ↦ not satisfied ])
      then plan "replan_required" false false "verify_outcome"
      else if one_of kind ("ambiguous_match" ∷ "multiple_candidates" ∷ [])
      then if r.issue.has_candidates
        then plan "needs_user" false true "ask_user"
        else plan "replan_required" false false "narrow_selector"
      else if one_of kind ("stale_handle" ∷ "element_not_found" ∷ "window_not_found" ∷ [])
      then if again
        then plan "retryable" true false "retry"
        else plan "replan_required" false false "rediscover_target"
      else if one_of kind ("locked_file" ∷ "inaccessible_share" ∷ "access_denied" ∷ [])
      then if again
        then plan "retryable" true false "retry"
        else plan "needs_user" false true "ask_user"
      else if kind == "missing_input"
      then plan "needs_user" false true "ask_user"
      else if one_of kind ("office_com_unavailable" ∷ "browser_native_bridge_required" ∷ [])
      then plan "replan_required" false false "switch_tooling"
      else if kind == "missing_dependency" && non_empty missing
      then install_plan missing
      else if non_empty missing
      then install_plan missing
      else if one_of r.status ("blocked" ∷ "needs_input" ∷ [])
      then plan "needs_user" false true "ask_user"
      else retry_script_or_stop
          ((one_of kind ("timeout" ∷ "network" ∷ "tool_internal" ∷ [])
              || one_of t.tool ("shell" ∷ "browser" ∷ "web" ∷ "windows_ui" ∷ []))
            && again)
          t r.summary

  unfoldable pub classify : Task → String → Issue → ℕ → ℕ → Plan
  unfolding plan install_plan mentions extract_missing_modules_from_error retry_script_or_stop
  classify t err issue attempt max_attempts =
      let message = services.lower err in
      let kind = issue.kind in
      let again = ltb attempt max_attempts in
      let missing = extract_missing_modules_from_error err in
      let by_kind =
        one_of kind (
          "stale_handle" ∷ "element_not_found" ∷ "window_not_found" ∷ "locked_file"
          ∷ "inaccessible_share" ∷ "timeout" ∷ "network" ∷ "tool_internal" ∷ [])
        && again in
      if services.contains "approval rejected" message
      then plan "blocked_by_policy" false false "stop"
      else if mentions
          ("timeout" ∷ "temporarily" ∷ "connection reset" ∷ "network" ∷ "dns" ∷ "503" ∷ "502" ∷ [])
          message
      then plan "retryable" again false (if again then "retry" else "stop")
      else if one_of kind ("ambiguous_match" ∷ "missing_input" ∷ "approval_rejected" ∷ [])
          || one_of issue.user_action
              ("provide_input" ∷ "select_candidate" ∷ "choose_alternative" ∷ [])
      then plan "needs_user" false true "ask_user"
      else if one_of kind ("permission" ∷ "requires_confirmation" ∷ "blocked" ∷ [])
      then plan "blocked_by_policy" false false "stop"
      else if one_of kind ("office_com_unavailable" ∷ "browser_native_bridge_required" ∷ [])
      then plan "replan_required" false false "switch_tooling"
      else if mentions ("modulenotfounderror" ∷ "no module named" ∷ []) message && non_empty missing
      then install_plan missing
      else retry_script_or_stop
          (by_kind
            || (kind == ""
                && (one_of t.tool
                      ("shell" ∷ "browser" ∷ "package_manager" ∷ "web" ∷ "windows_ui" ∷ [])
                    && again)))
          t err
