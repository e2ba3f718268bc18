-- ===== src/RecoveryEngine/Plans.antt =====
-- What every classification of a failure keeps to.
use phylum.Common.{
  ℕ, String, Bool, true, false, not, none, some, List, [], ◌∷◌, ◌&&◌, ◌||◌, ◌==◌, if◌then◌else◌,
  ltb, one_of, non_empty, ◌≡◌, refl, Bool-cases, Option-cases, inl, inr, arith, is_some,
}
use phylum.Common.Dict.{get}
use phylum.RecoveryEngine.{
  Task, Issue, ActionResult, Plan, Services, plan, install_plan, retry_script_or_stop,
  suggest_script_recovery, classify_action_result, classify, extract_missing_modules,
  extract_missing_modules_from_error, mentions, suggested_action_to_target_node,
}

-- The flags of a plan say what its suggested action is, the action has a target in the graph, and a
-- retry is suggested only where one is left.
pub record IsSound (again : Bool) (p : Plan) : Type 0 where
  pub retries : p.retryable ≡ one_of p.suggested_action ("retry" ∷ "dependency_install" ∷ [])
  pub asks : p.needs_user ≡ (p.suggested_action == "ask_user")
  pub target : p.target_node ≡ get p.suggested_action suggested_action_to_target_node
  pub known : is_some p.target_node ≡ true
  pub left : ((p.suggested_action == "retry") && not again) ≡ false

-- Under a test, what holds where the test holds is enough.
if-IsSound :
    {again : Bool} {x y : Plan} (b : Bool)
    → ((b ≡ true) → IsSound again x)
    → IsSound again y
    → IsSound again (if b then x else y)
if-IsSound true hx hy = hx refl
if-IsSound false hx hy = hy

&&-right : (a b : Bool) → (a && b) ≡ true → b ≡ true
&&-right a b h = ground arith

ends_right : (a b c d : Bool) → ((a && d) || (b && (c && d))) ≡ true → d ≡ true
ends_right a b c d h = ground arith

-- A plan of the table that is no retry.
fixed-IsSound :
    (again retryable needs_user : Bool) (c a : String)
    → retryable ≡ one_of a ("retry" ∷ "dependency_install" ∷ [])
    → needs_user ≡ (a == "ask_user")
    → is_some (get a suggested_action_to_target_node) ≡ true
    → (a == "retry") ≡ false
    → IsSound again (plan c retryable needs_user a)
unfolding plan
fixed-IsSound again retryable needs_user c a r u k n = record {
  retries = r;
  asks = u;
  target = refl;
  known = k;
  left = rw n refl;
}

retry-IsSound :
    (c : String) (again : Bool) → again ≡ true → IsSound again (plan c true false "retry")
unfolding plan get suggested_action_to_target_node
retry-IsSound c again h = record {
  retries = refl;
  asks = refl;
  target = refl;
  known = refl;
  left = rw h refl;
}

module _ (again : Bool) where
  stop-IsSound : (c : String) → IsSound again (plan c false false "stop")
  unfolding get suggested_action_to_target_node
  stop-IsSound c = fixed-IsSound again false false c "stop" refl refl refl refl

  ask_user-IsSound : (c : String) → IsSound again (plan c false true "ask_user")
  unfolding get suggested_action_to_target_node
  ask_user-IsSound c = fixed-IsSound again false true c "ask_user" refl refl refl refl

  transient-IsSound :
      IsSound again (plan "retryable" again false (if again then "retry" else "stop"))
  unfolding plan get suggested_action_to_target_node
  transient-IsSound = elim (Bool-cases again) [
    | inl e ↦ rw e (retry-IsSound "retryable" true refl)
    | inr e ↦ rw e (fixed-IsSound false false false "retryable" "stop" refl refl refl refl)
  ]

  install_plan-IsSound : (missing : List String) → IsSound again (install_plan missing)
  unfolding install_plan plan get suggested_action_to_target_node
  install_plan-IsSound missing = record {
    retries = refl;
    asks = refl;
    target = refl;
    known = refl;
    left = refl;
  }

  script-IsSound :
      (services : Services) (t : Task) (err : String)
      → IsSound again (elim (suggest_script_recovery services t err) [
        | some p ↦ p
        | none ↦ plan "terminal" false false "stop"
      ])
  unfolding suggest_script_recovery plan get suggested_action_to_target_node
  script-IsSound services t err =
      elim (Bool-cases (services.contains "approval rejected" (services.lower err))) [
        | inl e ↦ rw e (stop-IsSound "terminal")
        | inr e ↦ elim (Bool-cases (services.contains "blocked by policy" (services.lower err))) [
          | inl f ↦ rw (e, f) (stop-IsSound "terminal")
          | inr f ↦ elim (Option-cases (services.script_for_failure t err)) [
            | inl g ↦ rw (e, f, g) (stop-IsSound "terminal")
            | inr (script, g) ↦ elim (Bool-cases (script == "")) [
              | inl h ↦ rw (e, f, g, h) (stop-IsSound "terminal")
              | inr h ↦
                  rw (e, f, g, h)
                    (record {
                      retries = refl;
                      asks = refl;
                      target = refl;
                      known = refl;
                      left = refl;
                    })
            ]
          ]
        ]
      ]

  retry_script_or_stop-IsSound :
      (services : Services) (retryable : Bool) (t : Task) (err : String)
      → ((retryable ≡ true) → again ≡ true)
      → IsSound again (retry_script_or_stop services retryable t err)
  unfolding retry_script_or_stop
  retry_script_or_stop-IsSound services retryable t err h =
      if-IsSound retryable (λ e. retry-IsSound "retryable" again (h e))
        (script-IsSound services t err)

module _ (services : Services) (t : Task) (attempt max_attempts : ℕ) where
  -- Every classification of an action's result is sound: it suggests a retry or the installation of
  -- packages exactly where it is marked retryable and asks the user exactly where it is marked so,
  -- its target is the node of its action in the table and is there, and it suggests a retry only
  -- where the attempt is below the limit.
  pub classify_action_result-IsSound :
      (r : ActionResult)
      → IsSound
          (ltb attempt max_attempts)
          (classify_action_result services t r attempt max_attempts)
  unfolding classify_action_result get suggested_action_to_target_node
  classify_action_result-IsSound r =
      let again = ltb attempt max_attempts in
      let kind = r.issue.kind in
      let missing = extract_missing_modules services r in
      if-IsSound
        (r.status == "partial"
          && (elim r.goal_satisfied [ none ↦ false | some satisfied ↦ not satisfied ]))
        (λ _.
          fixed-IsSound again false false "replan_required" "verify_outcome" refl refl refl refl)
        (if-IsSound (one_of kind ("ambiguous_match" ∷ "multiple_candidates" ∷ []))
          (λ _.
            if-IsSound r.issue.has_candidates (λ _. ask_user-IsSound again "needs_user")
              (fixed-IsSound again false false "replan_required" "narrow_selector" refl refl refl
                refl))
          (if-IsSound (one_of kind ("stale_handle" ∷ "element_not_found" ∷ "window_not_found" ∷ []))
            (λ _. if-IsSound again (retry-IsSound "retryable" again) (
              fixed-IsSound again false false "replan_required" "rediscover_target" refl refl refl
                refl))
            (if-IsSound (one_of kind ("locked_file" ∷ "inaccessible_share" ∷ "access_denied" ∷ []))
              (λ _.
                if-IsSound again (retry-IsSound "retryable" again)
                  (ask_user-IsSound again "needs_user"))
              (if-IsSound (kind == "missing_input") (λ _. ask_user-IsSound again "needs_user")
                (if-IsSound
                  (one_of kind ("office_com_unavailable" ∷ "browser_native_bridge_required" ∷ []))
                  (λ _.
                    fixed-IsSound again false false "replan_required" "switch_tooling" refl refl
                      refl refl)
                  (if-IsSound (kind == "missing_dependency" && non_empty missing)
                    (λ _. install_plan-IsSound again missing)
                    (if-IsSound (non_empty missing) (λ _. install_plan-IsSound again missing)
                      (if-IsSound (one_of r.status ("blocked" ∷ "needs_input" ∷ []))
                        (λ _. ask_user-IsSound again "needs_user")
                        (retry_script_or_stop-IsSound again services
                          ((one_of kind ("timeout" ∷ "network" ∷ "tool_internal" ∷ [])
                              || one_of t.tool ("shell" ∷ "browser" ∷ "web" ∷ "windows_ui" ∷ []))
                            && again)
                          t r.summary (λ e. &&-right _ again e))))))))))

  -- Every classification of an error is sound: it suggests a retry or the installation of packages
  -- exactly where it is marked retryable and asks the user exactly where it is marked so, its target
  -- is the node of its action in the table and is there, and it suggests a retry only where the
  -- attempt is below the limit.
  pub classify-IsSound :
      (err : String) (issue : Issue)
      → IsSound (ltb attempt max_attempts) (classify services t err issue attempt max_attempts)
  unfolding classify get suggested_action_to_target_node
  classify-IsSound err issue =
      let again = ltb attempt max_attempts in
      let message = services.lower err in
      let kind = issue.kind in
      let missing = extract_missing_modules_from_error services err in
      let by_kind =
        one_of kind (
          "stale_handle" ∷ "element_not_found" ∷ "window_not_found" ∷ "locked_file"
          ∷ "inaccessible_share" ∷ "timeout" ∷ "network" ∷ "tool_internal" ∷ [])
        && again in
      if-IsSound (services.contains "approval rejected" message)
        (λ _. stop-IsSound again "blocked_by_policy")
        (if-IsSound
          (mentions services
            ("timeout" ∷ "temporarily" ∷ "connection reset" ∷ "network" ∷ "dns" ∷ "503" ∷ "502"
              ∷ [])
            message)
          (λ _. transient-IsSound again)
          (if-IsSound
            (one_of kind ("ambiguous_match" ∷ "missing_input" ∷ "approval_rejected" ∷ [])
              || one_of issue.user_action
                  ("provide_input" ∷ "select_candidate" ∷ "choose_alternative" ∷ []))
            (λ _. ask_user-IsSound again "needs_user")
            (if-IsSound (one_of kind ("permission" ∷ "requires_confirmation" ∷ "blocked" ∷ []))
              (λ _. stop-IsSound again "blocked_by_policy")
              (if-IsSound
                (one_of kind ("office_com_unavailable" ∷ "browser_native_bridge_required" ∷ []))
                (λ _.
                  fixed-IsSound again false false "replan_required" "switch_tooling" refl refl refl
                    refl)
                (if-IsSound
                  (mentions services ("modulenotfounderror" ∷ "no module named" ∷ []) message
                    && non_empty missing)
                  (λ _. install_plan-IsSound again missing)
                  (retry_script_or_stop-IsSound again services
                    (by_kind
                      || (kind == ""
                          && (one_of t.tool (
                                "shell" ∷ "browser" ∷ "package_manager" ∷ "web" ∷ "windows_ui" ∷ [])
                              && again)))
                    t err (λ e. ends_right _ _ _ again e)))))))
