-- ===== src/ActionExecutor/Attempts.antt =====
-- An attempt and its recovery keep the log guarded and try again only below the limit.
use phylum.Common.{
  ℕ, suc, ◌+◌, ◌<◌, String, Bool, true, false, not, Option, none, some, [], ◌∷◌, ◌++◌, ◌&&◌, ◌==◌,
  ◌≡◌, ◌⊎◌, if◌then◌else◌, refl, inl, inr, arith, Bool-cases, Option-cases, one_of, non_empty,
  truthy,
}
use phylum.RecoveryEngine as Recovery
use phylum.RecoveryEngine.{Issue, ActionResult, Plan}
use phylum.RecoveryEngine.Retries.{classify-IsLeft}
use phylum.ActionExecutor.{
  Ran, reported, crashed, stopped, Services, Setting, State, Tried, scripted, attempted, Next,
  again, over, with_goal, take_result, check_result, try_tool, fail, run_script, recover,
}
use phylum.ActionExecutor.Guards.{Phase, allowed, begun, IsGuarded, Tracked}

Ran-cases :
    (r : Ran)
    → (r ≡ stopped) ⊎ (((text : String) × r ≡ crashed text) ⊎ ((a : ActionResult) × r ≡ reported a))
Ran-cases stopped = inl refl
Ran-cases (crashed text) = inr (inl (text, refl))
Ran-cases (reported a) = inr (inr (a, refl))

module _ (services : Services) (task : Setting) where
  if-Tracked :
      {k n : ℕ} {x y : State × Tried} (b : Bool)
      → Tracked services task k n x
      → Tracked services task k n y
      → Tracked services task k n (if b then x else y)
  if-Tracked true hx hy = hx
  if-Tracked false hx hy = hy

  take_result-Tracked :
      {k : ℕ} {phase : Phase} (r : ActionResult) (st : State)
      → IsGuarded services task k phase st.log
      → Tracked services task k st.attempt (take_result services task r st)
  unfolding take_result
  take_result-Tracked {phase = phase} r st h =
      let plan =
        Recovery.classify_action_result services.recovery task.tool r st.attempt
          task.max_attempts in
      if-Tracked task.is_agentic
        (if-Tracked
          (one_of r.status ("blocked" ∷ "needs_input" ∷ "partial" ∷ "failed" ∷ [])
            && plan.needs_user)
          (record { same = refl; phase = phase; guarded = IsGuarded.hands_off h })
          (record { same = refl; phase = phase; guarded = h }))
        (if-Tracked (one_of r.status ("partial" ∷ "needs_input" ∷ "blocked" ∷ []))
          (record { same = refl; phase = phase; guarded = h })
          (if-Tracked (r.status == "succeeded") (record { same = refl; phase = phase; guarded = h })
            (record { same = refl; phase = phase; guarded = h })))

  check_result-Tracked :
      {k : ℕ} {phase : Phase} (r : Ran) (st : State)
      → IsGuarded services task k phase st.log
      → Tracked services task k st.attempt (check_result services task r st)
  unfolding check_result
  check_result-Tracked {phase = phase} stopped st h = record {
    same = refl;
    phase = phase;
    guarded = h;
  }
  check_result-Tracked {phase = phase} (crashed text) st h = record {
    same = refl;
    phase = phase;
    guarded = h;
  }
  check_result-Tracked {phase = phase} (reported r) st h =
      elim (Option-cases (services.verify_goal st.log)) [
        | inl e ↦ rw (e, check_result) (record { same = refl; phase = phase; guarded = h })
        | inr (goal, e) ↦ elim (Option-cases (services.reflection_error st.log)) [
          | inl f ↦ rw (e, f, check_result) (take_result-Tracked (with_goal goal r) _ h)
          | inr (text, f) ↦
              rw (e, f, check_result) (record { same = refl; phase = phase; guarded = h })
        ]
      ]

  pub try_tool-Tracked :
      {k : ℕ} (st : State)
      → IsGuarded services task k allowed st.log
      → Tracked services task (suc k) (st.attempt + 1) (try_tool services task st)
  unfolding try_tool
  try_tool-Tracked st h =
      let started = IsGuarded.begins h in
      elim (Option-cases (services.restore_context (st.log ++ attempted ∷ []))) [
        | inr (text, e) ↦
            rw (e, try_tool) (record { same = refl; phase = begun; guarded = started })
        | inl e ↦ elim (Bool-cases (services.is_set (st.log ++ attempted ∷ []))) [
          | inl f ↦ rw (e, f, try_tool) (record { same = refl; phase = begun; guarded = started })
          | inr f ↦ elim (Option-cases (services.bind_scope (st.log ++ attempted ∷ []))) [
            | inr (text, g) ↦
                rw (e, f, g, try_tool) (record { same = refl; phase = begun; guarded = started })
            | inl g ↦ rw (e, f, g, try_tool) (check_result-Tracked _ _ (IsGuarded.runs started f))
          ]
        ]
      ]

  -- After an attempt: another one is made only where this one is below the limit.
  abbrev pub Fits : ℕ → Next → Type 0
  Fits n again = n < task.max_attempts
  Fits n (over e) = Unit

  pub record Stepped (k n : ℕ) (r : State × Next) : Type 0 where
    pub same : r.0.attempt ≡ n
    pub fits : Fits n r.1
    pub phase : Phase
    pub guarded : IsGuarded services task k phase r.0.log

  fail-Stepped :
      {k n : ℕ} {phase : Phase} (text : String) (st : State)
      → st.attempt ≡ n
      → IsGuarded services task k phase st.log
      → Stepped k n (fail services task text st)
  unfolding fail
  fail-Stepped {n = n} {phase = phase} text st same h = record {
    same = same;
    fits = tt;
    phase = phase;
    guarded = IsGuarded.fails text h;
  }

  run_script-Stepped :
      {k n : ℕ} {phase : Phase} (text script : String) (st : State)
      → st.attempt ≡ n
      → IsGuarded services task k phase st.log
      → Stepped k n (run_script services task text script st)
  unfolding run_script
  run_script-Stepped {n = n} {phase = phase} text script st same h =
      let told = IsGuarded.scripts script h in
      elim (Ran-cases (services.execute_script (st.log ++ scripted script ∷ []) script)) [
        | inl e ↦
            rw (e, run_script) (record { same = same; fits = tt; phase = phase; guarded = told })
        | inr (inl (text', e)) ↦ rw (e, run_script) (fail-Stepped text _ same told)
        | inr (inr (r, e)) ↦ elim (Bool-cases (r.status == "succeeded")) [
          | inl f ↦
              rw (e, f, run_script)
                (record { same = same; fits = tt; phase = phase; guarded = told })
          | inr f ↦ rw (e, f, run_script) (fail-Stepped text _ same told)
        ]
      ]

  script_or_fail-Stepped :
      {k n : ℕ} {phase : Phase} (text : String) (script : Option String) (st : State)
      → st.attempt ≡ n
      → IsGuarded services task k phase st.log
      → Stepped k n (elim script [
        | none ↦ fail services task text st
        | some s ↦ run_script services task text s st
      ])
  script_or_fail-Stepped text none st same h = fail-Stepped text st same h
  script_or_fail-Stepped text (some s) st same h = run_script-Stepped text s st same h

  if-Stepped :
      {k n : ℕ} {x y : State × Next} (b : Bool)
      → ((b ≡ true) → Stepped k n x)
      → Stepped k n y
      → Stepped k n (if b then x else y)
  if-Stepped true hx hy = hx refl
  if-Stepped false hx hy = hy

  pub recover-Stepped :
      {k n : ℕ} {phase : Phase} (text : String) (st : State)
      → st.attempt ≡ n
      → IsGuarded services task k phase st.log
      → Stepped k n (recover services task text st)
  unfolding recover
  recover-Stepped {n = n} {phase = phase} text st same h =
      let plan =
        Recovery.classify services.recovery task.tool text st.issue st.attempt task.max_attempts in
      let installs = plan.classification == "dependency_install" in
      let left =
        classify-IsLeft services.recovery task.tool st.attempt task.max_attempts text st.issue in
      elim (Option-cases (services.reflection_error st.log)) [
        | inr (text', e) ↦
            rw (e, recover) (record { same = same; fits = tt; phase = phase; guarded = h })
        | inl e ↦
            rw (e, recover)
              (if-Stepped plan.needs_user
                (λ _. record {
                  same = same;
                  fits = tt;
                  phase = phase;
                  guarded = IsGuarded.hands_off h;
                })
                (if-Stepped (installs && non_empty plan.missing_modules)
                  (λ _. record { same = same; fits = tt; phase = phase; guarded = h })
                  (if-Stepped (plan.retryable && not installs)
                    (λ f. record {
                      same = same;
                      fits = ground (arith, left.kept, f, same);
                      phase = phase;
                      guarded = h;
                    })
                    (if-Stepped (plan.classification == "script_recovery" && truthy plan.script)
                      (λ _. script_or_fail-Stepped text plan.script st same h)
                      (fail-Stepped text st same h)))))
      ]
