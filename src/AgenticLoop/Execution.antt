-- ===== src/AgenticLoop/Execution.antt =====
-- Running the tasks of a turn keeps the log sound.
use mathlib.Core.Path.{subst}
use phylum.Common.{
  ℕ, ◌+◌, Bool, true, false, List, [], ◌∷◌, ◌++◌, ◌≡◌, ◌⊎◌, refl, sym, inl, inr, All,
  All-append_inv, Bool-cases, ◌&&◌, non_empty,
}
use phylum.Common.Dict.{Dict, put}
use phylum.AgenticLoop.{
  ToolCall, Task, Result, Failure, Services, Planned, Log, delegated, execute_one, gather,
  run_dependent, run_planned, run_subagents, is_subagent, partition, Gathered, results, stopped,
  collect,
}
use phylum.AgenticLoop.Journal.{IsSound}
use phylum.AgenticLoop.Turns.{IsPlanned, Outcome-cases}
use phylum.AgenticLoop.Partition.{partition_whole}

pub Gathered-cases :
    (g : Gathered)
    → ((why : Failure) × g ≡ stopped why)
      ⊎ ((found : Dict Result) × (broke : Bool) × g ≡ results found broke)
Gathered-cases (stopped why) = inl (why, refl)
Gathered-cases (results found broke) = inr (found, broke, refl)

module _ (services : Services) (start n k : ℕ) where
  execute_one-IsSound :
      (p : ToolCall × Task) (log : Log)
      → IsPlanned services (start + n) p
      → IsSound services start n k log
      → IsSound services start n k (execute_one services (p.1) log).0
  unfolding execute_one
  execute_one-IsSound p log fit h = elim (Bool-cases (services.is_set log)) [
    | inl e ↦ rw (e, execute_one) h
    | inr e ↦ rw (e, execute_one) (IsSound.executes p h e fit)
  ]

  gather-IsSound :
      (planned : Planned) (log : Log)
      → All (IsPlanned services (start + n)) planned
      → IsSound services start n k log
      → IsSound services start n k (gather services planned log).0
  unfolding gather
  gather-IsSound [] log fit h = h
  gather-IsSound (p ∷ planned) log (fit, fits) h =
      gather-IsSound planned (execute_one services (p.1) log).0 fits
        (execute_one-IsSound p log fit h)

  run_dependent-IsSound :
      (planned : Planned) (found : Dict Result) (broke : Bool) (log : Log)
      → All (IsPlanned services (start + n)) planned
      → IsSound services start n k log
      → IsSound services start n k (run_dependent services planned found broke log).0
  unfolding run_dependent
  run_dependent-IsSound [] found broke log fit h = h
  run_dependent-IsSound (p ∷ planned) found broke log (fit, fits) h =
      let first = execute_one-IsSound p log fit h in
      let rest : (r : Result)
          → IsSound services start n k
              (run_dependent services planned (put (p.0.id) r found) broke
                (execute_one services (p.1) log).0).0 =
        λ r.
          run_dependent-IsSound planned (put (p.0.id) r found) broke
            (execute_one services (p.1) log).0 fits first in
      elim (Outcome-cases (execute_one services (p.1) log).1) [
        | inl (r, e) ↦ rw (e, run_dependent) (rest r)
        | inr (why, e) ↦ rw (e, run_dependent) first
      ]

  pub run_planned-IsSound :
      (planned : Planned) (log : Log)
      → All (IsPlanned services (start + n)) planned
      → IsSound services start n k log
      → IsSound services start n k (run_planned services planned log).0
  unfolding run_planned
  run_planned-IsSound planned log fit h =
      let both =
        All-append_inv (IsPlanned services (start + n)) (partition services planned).0
          (partition services planned).1
          (subst (All (IsPlanned services (start + n))) (sym (partition_whole services planned))
            fit) in
      let first = gather-IsSound (partition services planned).0 log both.0 h in
      elim (Bool-cases (non_empty (partition services planned).0 && services.is_set log)) [
        | inl e ↦ rw (e, run_planned) h
        | inr e ↦
            elim (Gathered-cases
              (collect (gather services (partition services planned).0 log).1 [] false)) [
                | inl (why, e') ↦ rw (e, e', run_planned) first
                | inr (found, broke, e') ↦
                    rw (e, e', run_planned)
                      (run_dependent-IsSound (partition services planned).1 found broke
                        (gather services (partition services planned).0 log).0 both.1 first)
              ]
      ]

  pub run_subagents-IsSound :
      (calls : List ToolCall) (log : Log)
      → All (λ c. is_subagent c ≡ true) calls
      → IsSound services start n k log
      → IsSound services start n k (run_subagents services calls log).0
  unfolding run_subagents
  run_subagents-IsSound [] log fit h = h
  run_subagents-IsSound (call ∷ calls) log (fit, fits) h =
      let started = IsSound.delegates call h fit in
      let rest = run_subagents-IsSound calls (log ++ delegated call ∷ []) fits started in
      elim (Outcome-cases (services.execute_subagents (log ++ delegated call ∷ []) call)) [
        | inl (r, e) ↦ rw (e, run_subagents) rest
        | inr (why, e) ↦ rw (e, run_subagents) started
      ]
