-- ===== src/ActionExecutor/Guards.antt =====
-- What may stand in the log of a task: no run of its tool without a verdict or an approval.
use phylum.Common.{
  ℕ, suc, none, String, Bool, true, false, some, [], ◌∷◌, ◌++◌, ◌==◌, ◌≡◌, if◌then◌else◌, refl, inl,
  inr, Bool-cases, Option-cases,
}
use phylum.ActionExecutor.{
  judged, asked, attempted, handed_off, answered, reused, ran, scripted, run_failed, Log, Services,
  Setting, State, Gate, passes, halts, Tried, answered_approvals, resolved_approval_status,
  effective_status, follow_answer, take_approval, guard,
}

-- Where the executor stands: nothing lets it begin an attempt, an approval is wanted, it may begin an
-- attempt, and it has begun one.
pub data Phase : Type 0 where
  closed waiting allowed begun : Phase

abbrev pub after_verdict : String → Phase
after_verdict status =
    if status == "deny" then closed else if status == "require_approval" then waiting else allowed

abbrev pub after_answer : String → Phase
after_answer s = if s == "approved" then allowed else closed

-- The log of a task, with the number of attempts in it. A verdict is made while the task is not
-- cancelled, and what was allowed before it no longer counts; where it wants an approval, one that was
-- resolved before is used or the user is asked; an attempt begins when the verdict, or the approval that
-- it wants, allows it; and the tool is run once in an attempt, while the task is not cancelled.
pub data IsGuarded (services : Services) (task : Setting) : ℕ → Phase → Log → Type 0 where
  starts : IsGuarded services task 0 closed []
  judges :
      {n : ℕ} {p : Phase} {l : Log}
      → IsGuarded services task n p l
      → services.is_set l ≡ false
      → IsGuarded services task n
          (after_verdict (effective_status services task (services.evaluate l)))
          (l ++ judged (services.evaluate l) ∷ [])
  asks :
      {n : ℕ} {l : Log}
      → IsGuarded services task n waiting l
      → resolved_approval_status (task.approvals ++ answered_approvals task.task_id l) task.task_id
        ≡ none
      → IsGuarded services task n
          (after_answer (services.answer (l ++ asked ∷ [])))
          ((l ++ asked ∷ []) ++ answered (services.answer (l ++ asked ∷ [])) ∷ [])
  reuses :
      {n : ℕ} {l : Log} (s : String)
      → IsGuarded services task n waiting l
      → resolved_approval_status (task.approvals ++ answered_approvals task.task_id l) task.task_id
        ≡ some s
      → IsGuarded services task n (after_answer s) (l ++ reused s ∷ [])
  begins :
      {n : ℕ} {l : Log}
      → IsGuarded services task n allowed l
      → IsGuarded services task (suc n) begun (l ++ attempted ∷ [])
  runs :
      {n : ℕ} {l : Log}
      → IsGuarded services task n begun l
      → services.is_set l ≡ false
      → IsGuarded services task n closed (l ++ ran ∷ [])
  hands_off :
      {n : ℕ} {p : Phase} {l : Log}
      → IsGuarded services task n p l
      → IsGuarded services task n p (l ++ handed_off ∷ [])
  fails :
      {n : ℕ} {p : Phase} {l : Log} (text : String)
      → IsGuarded services task n p l
      → IsGuarded services task n p (l ++ run_failed text ∷ [])
  scripts :
      {n : ℕ} {p : Phase} {l : Log} (script : String)
      → IsGuarded services task n p l
      → IsGuarded services task n p (l ++ scripted script ∷ [])

module _ (services : Services) (task : Setting) where
  abbrev pub Opens : ℕ → Log → Gate → Type 0
  Opens k l passes = IsGuarded services task k allowed l
  Opens k l (halts e) = (phase : Phase) × IsGuarded services task k phase l

  -- After the guard, and after the attempt itself, with the number of attempts.
  pub record Gated (k n : ℕ) (r : State × Gate) : Type 0 where
    pub same : r.0.attempt ≡ n
    pub opens : Opens k r.0.log r.1

  pub record Tracked (k n : ℕ) (r : State × Tried) : Type 0 where
    pub same : r.0.attempt ≡ n
    pub phase : Phase
    pub guarded : IsGuarded services task k phase r.0.log

  if-Gated :
      {k n : ℕ} {x y : State × Gate} (b : Bool)
      → Gated k n x
      → Gated k n y
      → Gated k n (if b then x else y)
  if-Gated true hx hy = hx
  if-Gated false hx hy = hy

  follow_answer-Gated :
      {k : ℕ} (s : String) (st : State)
      → IsGuarded services task k (after_answer s) st.log
      → Gated k st.attempt (follow_answer services task s st)
  unfolding follow_answer
  follow_answer-Gated s st h = elim (Bool-cases (s == "cancelled")) [
    | inl e ↦ rw (e, follow_answer) (record { same = refl; opens = (_, h) })
    | inr e ↦ elim (Bool-cases (s == "approved")) [
      | inl f ↦ rw (e, f, follow_answer) (record { same = refl; opens = rw f at h })
      | inr f ↦
          rw (e, f, follow_answer)
            (if-Gated task.is_agentic (record { same = refl; opens = (_, h) })
              (record { same = refl; opens = (_, IsGuarded.fails "approval rejected" h) }))
    ]
  ]

  take_approval-Gated :
      {k : ℕ} (st : State)
      → IsGuarded services task k waiting st.log
      → Gated k st.attempt (take_approval services task st)
  unfolding take_approval
  take_approval-Gated st h =
      elim (Option-cases (
        resolved_approval_status (task.approvals ++ answered_approvals task.task_id st.log)
          task.task_id)) [
            | inl e ↦ rw (e, take_approval) (follow_answer-Gated _ _ (IsGuarded.asks h e))
            | inr (s, e) ↦ rw (e, take_approval) (follow_answer-Gated s _ (IsGuarded.reuses s h e))
          ]

  pub guard-Gated :
      {k : ℕ} {phase : Phase} (st : State)
      → IsGuarded services task k phase st.log
      → Gated k st.attempt (guard services task st)
  unfolding guard
  guard-Gated st h =
      let v = services.evaluate st.log in
      elim (Bool-cases (services.is_set st.log)) [
        | inl e ↦ rw (e, guard) (record { same = refl; opens = (_, h) })
        | inr e ↦
            let judgement = IsGuarded.judges h e in
            elim (Bool-cases (effective_status services task v == "deny")) [
              | inl f ↦
                  rw (e, f, guard)
                    (record { same = refl; opens = (_, IsGuarded.fails v.reason judgement) })
              | inr f ↦ elim (Bool-cases (effective_status services task v == "require_approval")) [
                | inl g ↦ rw (e, f, g, guard) (take_approval-Gated _ (rw (f, g) at judgement))
                | inr g ↦
                    rw (e, f, g, guard) (record { same = refl; opens = rw (f, g) at judgement })
              ]
            ]
      ]
