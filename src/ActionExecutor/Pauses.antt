-- ===== src/ActionExecutor/Pauses.antt =====
-- A handoff to the user inside the `try` of `execute` is caught by its own `except`.
use phylum.Common.{
  ℕ, ◌+◌, String, Bool, true, false, none, some, List, [], ◌∷◌, ◌++◌, ◌≡◌, ◌==◌, refl, ap, ◌∙◌,
}
use phylum.RecoveryEngine as Recovery
use phylum.RecoveryEngine.{ActionResult}
use phylum.ActionExecutor.{
  Services, Setting, Approval, State, attempted, ran, handed_off, Log, over, paused, throws, passes,
  take_result, recover, check_result, try_tool, guard, attempt_once, after_guard, after_try,
  with_goal, reported,
}

-- The result of the search for an element that found more than one (tools/tool_windows_ui.py).
abbrev pub ambiguous : String → String → ActionResult
ambiguous summary message = record {
  issue = record {
    kind = "ambiguous_match";
    message = message;
    user_action = "select_candidate";
    has_candidates = true;
  };
  summary = summary;
  status = "needs_input";
  goal_satisfied = none;
  result_data = record { missing_modules = []; stderr = "" };
  details = record { missing_modules = []; stderr = "" };
}

-- A desktop task of the agentic loop.
abbrev pub desktop_task : String → String → ℕ → Bool → List Approval → Setting
desktop_task id action max_attempts force_approval approvals = record {
  task_id = id;
  tool = record { tool = "windows_ui"; action = action };
  max_attempts = max_attempts;
  is_agentic = true;
  force_approval = force_approval;
  approvals = approvals;
}

module _ (services : Services) (id action : String) (max_attempts : ℕ) (force_approval : Bool)
    (approvals : List Approval) where
  abbrev task : Setting
  task = desktop_task id action max_attempts force_approval approvals

  ambiguous_throws :
      (summary message : String) (st : State)
      → take_result services task (with_goal false (ambiguous summary message)) st
        ≡ (record st { log = st.log ++ handed_off ∷ [] }, throws "")
  unfolding take_result with_goal Recovery.classify_action_result Recovery.plan
  ambiguous_throws summary message st = refl

  -- The failure without a text, after such a result, asks the user.
  ambiguous_asks :
      (summary message : String) (attempt : ℕ)
      → services.recovery.lower "" ≡ ""
      → ((part : String) → part == "" ≡ false → services.recovery.contains part "" ≡ false)
      → Recovery.classify services.recovery task.tool ""
          (ambiguous summary message).issue
          attempt
          max_attempts
        ≡ Recovery.plan "needs_user" false true "ask_user"
  unfolding Recovery.classify Recovery.mentions
  ambiguous_asks summary message attempt low apart =
      rw
        (
          low,
          apart "approval rejected" refl,
          apart "timeout" refl,
          apart "temporarily" refl,
          apart "connection reset" refl,
          apart "network" refl,
          apart "dns" refl,
          apart "503" refl,
          apart "502" refl,
          Recovery.classify,
        )
        refl

  ambiguous_pauses :
      (st : State)
      → services.reflection_error st.log ≡ none
      → Recovery.classify services.recovery task.tool "" st.issue st.attempt max_attempts
        ≡ Recovery.plan "needs_user" false true "ask_user"
      → recover services task "" st ≡ (record st { log = st.log ++ handed_off ∷ [] }, over paused)
  unfolding recover Recovery.plan
  ambiguous_pauses st works asks = rw (works, asks, recover) refl

  -- The `try` of the attempt.
  ambiguous_tries :
      (summary message : String) (st : State)
      → ((l : Log) → services.restore_context l ≡ none)
      → ((l : Log) → services.bind_scope l ≡ none)
      → services.is_set (st.log ++ attempted ∷ []) ≡ false
      → services.execute_tool ((st.log ++ attempted ∷ []) ++ ran ∷ [])
        ≡ reported (ambiguous summary message)
      → services.verify_goal ((st.log ++ attempted ∷ []) ++ ran ∷ []) ≡ some false
      → ((l : Log) → services.reflection_error l ≡ none)
      → try_tool services task st ≡ (
        record {
          attempt = st.attempt + 1;
          issue = (ambiguous summary message).issue;
          log = ((st.log ++ attempted ∷ []) ++ ran ∷ []) ++ handed_off ∷ [];
        },
        throws "",
      )
  unfolding try_tool check_result
  ambiguous_tries summary message st restored bound free result goal works =
      let started = st.log ++ attempted ∷ [] in
      let running : State = record st { attempt = st.attempt + 1; log = started ++ ran ∷ [] } in
      let kept : State = record running { issue = (ambiguous summary message).issue } in
      let checked : check_result services task (reported (ambiguous summary message)) running
          ≡ (record kept { log = kept.log ++ handed_off ∷ [] }, throws "") =
        rw (goal, works running.log, check_result) (ambiguous_throws summary message kept) in
      rw (restored started, free, bound started, result, try_tool) checked

  -- Where the guard lets a desktop task of the agentic loop pass, the attempt is not cancelled before the
  -- tool is run, and the tool finds more than one element: the user is asked twice, and the run pauses.
  -- The context is restored and bound, the goal counts as not satisfied, the reflection works, and the
  -- empty text is lowered to itself and contains no other text.
  pub handoff_twice :
      (summary message : String) (st passed : State)
      → guard services task st ≡ (passed, passes)
      → ((l : Log) → services.restore_context l ≡ none)
      → ((l : Log) → services.bind_scope l ≡ none)
      → services.is_set (passed.log ++ attempted ∷ []) ≡ false
      → services.execute_tool ((passed.log ++ attempted ∷ []) ++ ran ∷ [])
        ≡ reported (ambiguous summary message)
      → services.verify_goal ((passed.log ++ attempted ∷ []) ++ ran ∷ []) ≡ some false
      → ((l : Log) → services.reflection_error l ≡ none)
      → services.recovery.lower "" ≡ ""
      → ((part : String) → part == "" ≡ false → services.recovery.contains part "" ≡ false)
      → attempt_once services task st ≡ (
        record {
          attempt = passed.attempt + 1;
          issue = (ambiguous summary message).issue;
          log =
              (((passed.log ++ attempted ∷ []) ++ ran ∷ []) ++ handed_off ∷ []) ++ handed_off ∷ [];
        },
        over paused,
      )
  unfolding attempt_once
  handoff_twice summary message st passed guarded restored bound free result goal works low apart =
      let tried = ambiguous_tries summary message passed restored bound free result goal works in
      let told : State = record {
        attempt = passed.attempt + 1;
        issue = (ambiguous summary message).issue;
        log = ((passed.log ++ attempted ∷ []) ++ ran ∷ []) ++ handed_off ∷ [];
      } in
      let asks = ambiguous_asks summary message told.attempt low apart in
      ap (after_guard services task) guarded
      ∙ ap (after_try services task) tried
      ∙ ambiguous_pauses told (works told.log) asks
