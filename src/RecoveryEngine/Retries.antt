-- ===== src/RecoveryEngine/Retries.antt =====
-- Which classifications of an error lead to another attempt.
use phylum.Common.{
  ℕ, String, Bool, true, false, not, [], ◌∷◌, ◌&&◌, ◌||◌, ◌==◌, if◌then◌else◌, ltb, one_of,
  non_empty, ◌≡◌, refl, Bool-cases, Option-cases, inl, inr, arith,
}
use phylum.RecoveryEngine.{
  Task, Issue, Plan, Services, plan, install_plan, retry_script_or_stop, suggest_script_recovery,
  classify, extract_missing_modules_from_error, mentions,
}

-- Whether the executor makes another attempt after it.
abbrev pub retries : Plan → Bool
retries p = p.retryable && not (p.classification == "dependency_install")

-- Another attempt is made only where one is left.
pub record IsLeft (again : Bool) (p : Plan) : Type 0 where
  pub kept : (retries p && not again) ≡ false

if-IsLeft :
    {again : Bool} {x y : Plan} (b : Bool)
    → ((b ≡ true) → IsLeft again x)
    → IsLeft again y
    → IsLeft again (if b then x else y)
if-IsLeft true hx hy = hx refl
if-IsLeft false hx hy = hy

retry_script_or_stop-IsLeft :
    (services : Services) (retryable again : Bool) (t : Task) (err : String)
    → ((retryable ≡ true) → again ≡ true)
    → IsLeft again (retry_script_or_stop services retryable t err)
unfolding retry_script_or_stop suggest_script_recovery plan
retry_script_or_stop-IsLeft services true again t err h = rw (h refl) (record { kept = refl })
retry_script_or_stop-IsLeft services false again t err h =
    elim (Bool-cases (services.contains "approval rejected" (services.lower err))) [
      | inl e ↦ rw e (record { kept = refl })
      | inr e ↦ elim (Bool-cases (services.contains "blocked by policy" (services.lower err))) [
        | inl f ↦ rw (e, f) (record { kept = refl })
        | inr f ↦ elim (Option-cases (services.script_for_failure t err)) [
          | inl g ↦ rw (e, f, g) (record { kept = refl })
          | inr (script, g) ↦ elim (Bool-cases (script == "")) [
            | inl k ↦ rw (e, f, g, k) (record { kept = refl })
            | inr k ↦ rw (e, f, g, k) (record { kept = refl })
          ]
        ]
      ]
    ]

transient : (a : Bool) → ((a && true) && not a) ≡ false
transient true = refl
transient false = refl

ends_right : (a b c d : Bool) → ((a && d) || (b && (c && d))) ≡ true → d ≡ true
ends_right a b c d h = ground arith

-- The classification of an error lets the executor try again only where the attempt is below the limit.
pub classify-IsLeft :
    (services : Services) (t : Task) (attempt max_attempts : ℕ) (err : String) (issue : Issue)
    → IsLeft (ltb attempt max_attempts) (classify services t err issue attempt max_attempts)
unfolding classify plan install_plan
classify-IsLeft services t attempt max_attempts err issue =
    let again = ltb attempt max_attempts in
    let message = services.lower err in
    let kind = issue.kind in
    let missing = extract_missing_modules_from_error services err in
    let by_kind =
      one_of kind (
        "stale_handle" ∷ "element_not_found" ∷ "window_not_found" ∷ "locked_file"
        ∷ "inaccessible_share" ∷ "timeout" ∷ "network" ∷ "tool_internal" ∷ [])
      && again in
    if-IsLeft (services.contains "approval rejected" message) (λ _. record { kept = refl })
      (if-IsLeft
        (mentions services
          ("timeout" ∷ "temporarily" ∷ "connection reset" ∷ "network" ∷ "dns" ∷ "503" ∷ "502" ∷ [])
          message)
        (λ _. record { kept = transient again })
        (if-IsLeft
          (one_of kind ("ambiguous_match" ∷ "missing_input" ∷ "approval_rejected" ∷ [])
            || one_of issue.user_action
                ("provide_input" ∷ "select_candidate" ∷ "choose_alternative" ∷ []))
          (λ _. record { kept = refl })
          (if-IsLeft (one_of kind ("permission" ∷ "requires_confirmation" ∷ "blocked" ∷ []))
            (λ _. record { kept = refl })
            (if-IsLeft
              (one_of kind ("office_com_unavailable" ∷ "browser_native_bridge_required" ∷ []))
              (λ _. record { kept = refl })
              (if-IsLeft
                (mentions services ("modulenotfounderror" ∷ "no module named" ∷ []) message
                  && non_empty missing)
                (λ _. record { kept = refl })
                (retry_script_or_stop-IsLeft services
                  (by_kind
                    || (kind == ""
                        && (one_of t.tool
                              ("shell" ∷ "browser" ∷ "package_manager" ∷ "web" ∷ "windows_ui" ∷ [])
                            && again)))
                  again t err (λ e. ends_right _ _ _ again e)))))))
