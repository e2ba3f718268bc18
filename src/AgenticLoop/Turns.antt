-- ===== src/AgenticLoop/Turns.antt =====
-- How the calls of one turn are sorted and answered.
use mathlib.Core.List.{Perm, perm_middle}
use mathlib.Core.List.Perm
use phylum.Common.{
  ℕ, String, Bool, not, none, some, List, [], ◌∷◌, ◌++◌, ◌≡◌, ◌⊎◌, refl, ap, inl, inr, arith, map,
  filter, All, Bool-cases, Option-cases, find?,
}
use phylum.Common.Dict.{Dict}
use phylum.AgenticLoop.{
  ToolCall, tool, Task, Result, Services, Planned, plan_calls, answers, run_subagents, result_of,
  Log, Outcome, returned, raised, Failure, delegated,
}
use phylum.AgenticLoop.Conversation.{reply, call_ids, replied_ids}

abbrev pub planned_ids : Planned → List String
planned_ids planned = map (λ (p : ToolCall × Task). p.0.id) planned

-- A task that may be run: it was made of a call that is valid.
pub record IsPlanned (services : Services) (step : ℕ) (p : ToolCall × Task) : Type 0 where
  pub valid : services.prevalidate step (p.0) ≡ none
  pub made : p.1 ≡ services.task_factory (p.0) step

pub Outcome-cases :
    (o : Outcome) → ((r : Result) × o ≡ returned r) ⊎ ((why : Failure) × o ≡ raised why)
Outcome-cases (returned r) = inl (r, refl)
Outcome-cases (raised why) = inr (why, refl)

module _ (services : Services) where
  -- Every call is refused with an answer or planned.
  pub plan_calls_lem :
      (step : ℕ) (calls : List ToolCall)
      → (rs : List (String × String)) × ((plan_calls services step calls).0 ≡ map reply rs)
        × Perm (replied_ids rs ++ planned_ids (plan_calls services step calls).1) (call_ids calls)
        × All (IsPlanned services step) (plan_calls services step calls).1
  unfolding plan_calls
  plan_calls_lem step [] = ([], refl, Perm.refl _, tt)
  plan_calls_lem step (call ∷ calls) =
      let (rs, same, all, fit) = plan_calls_lem step calls in
      elim (Option-cases (services.prevalidate step call)) [
        | inl e ↦
            rw (e, plan_calls)
              (
                rs,
                same,
                Perm.trans (perm_middle (replied_ids rs) _) (Perm.cons call.id all),
                (record { valid = e; made = refl }, fit),
              )
        | inr (refusal, e) ↦
            rw (e, plan_calls)
              (
                (call.id, refusal) ∷ rs,
                ap (λ ms. tool call.id refusal ∷ ms) same,
                Perm.cons call.id all,
                fit,
              )
      ]

  pub answers_lem :
      (found : Dict Result) (planned : Planned)
      → (rs : List (String × String)) × (answers services found planned ≡ map reply rs)
        × (replied_ids rs ≡ planned_ids planned)
  unfolding answers
  answers_lem found [] = ([], refl, refl)
  answers_lem found (p ∷ planned) =
      let (rs, same, named) = answers_lem found planned in
      (
        (p.0.id, services.compact (result_of found (p.0))) ∷ rs,
        ap (λ ms. tool (p.0.id) (services.compact (result_of found (p.0))) ∷ ms) same,
        ap (λ xs. p.0.id ∷ xs) named,
      )

  raised_stops :
      (call : ToolCall) (calls : List ToolCall) (log : Log) (why : Failure)
      → services.execute_subagents (log ++ delegated call ∷ []) call ≡ raised why
      → ¬ (run_subagents services (call ∷ calls) log).1.1 ≡ none
  unfolding run_subagents
  raised_stops call calls log why e h =
      let here : (run_subagents services (call ∷ calls) log).1.1 ≡ some why =
        rw (e, run_subagents) refl in
      absurd (ground (arith, here, h))

  pub run_subagents_lem :
      (calls : List ToolCall) (log : Log)
      → (run_subagents services calls log).1.1 ≡ none
      → (rs : List (String × String)) × ((run_subagents services calls log).1.0 ≡ map reply rs)
        × (replied_ids rs ≡ call_ids calls)
  unfolding run_subagents
  run_subagents_lem [] log h = ([], refl, refl)
  run_subagents_lem (call ∷ calls) log h =
      elim (Outcome-cases (services.execute_subagents (log ++ delegated call ∷ []) call)) [
        | inr (why, e) ↦ absurd (raised_stops call calls log why e h)
        | inl (r, e) ↦
            let (rs, same, named) =
              run_subagents_lem calls (log ++ delegated call ∷ []) (rw (e, run_subagents) at h) in
            rw (e, run_subagents)
              (
                (call.id, services.compact r) ∷ rs,
                ap (λ ms. tool call.id (services.compact r) ∷ ms) same,
                ap (λ xs. call.id ∷ xs) named,
              )
      ]

  pub filter_perm :
      (test : ToolCall → Bool) (calls : List ToolCall)
      → Perm
          (call_ids (filter test calls) ++ call_ids (filter (λ c. not (test c)) calls))
          (call_ids calls)
  filter_perm test [] = Perm.refl _
  filter_perm test (c ∷ calls) =
      let rest = filter_perm test calls in
      elim (Bool-cases (test c)) [
        | inl e ↦ rw e (Perm.cons c.id rest)
        | inr e ↦
            rw e (Perm.trans (perm_middle (call_ids (filter test calls)) _) (Perm.cons c.id rest))
      ]

pub filter-find?_absent :
    (test : ToolCall → Bool) (calls : List ToolCall)
    → find? test calls ≡ none
    → filter (λ c. not (test c)) calls ≡ calls
filter-find?_absent test [] h = refl
filter-find?_absent test (c ∷ calls) h = elim (Bool-cases (test c)) [
  | inl e ↦
      let here : find? test (c ∷ calls) ≡ some c = rw e refl in absurd (ground (arith, here, h))
  | inr e ↦
      let later : find? test calls ≡ none = rw e at h in
      rw e (ap (λ cs. c ∷ cs) (filter-find?_absent test calls later))
]
