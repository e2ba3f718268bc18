-- ===== src/AgenticLoop/Order.antt =====
-- The tasks of a turn are started once each, in their order.
use mathlib.Core.List.{append_assoc, append-nil}
use phylum.Common.{
  Bool, true, false, List, [], ◌∷◌, ◌++◌, ◌&&◌, ◌≡◌, refl, sym, ap, ◌∙◌, inl, inr, arith,
  Bool-cases, non_empty, map,
}
use phylum.Common.Dict.{Dict, put}
use phylum.AgenticLoop.{
  ToolCall, Task, Result, Outcome, returned, raised, cancelled, paused, error, Services, Planned,
  Log, executed, execute_one, gather, results, stopped, collect, run_dependent, run_planned,
  partition,
}
use phylum.AgenticLoop.Execution.{Gathered-cases}
use phylum.AgenticLoop.Turns.{Outcome-cases}
use phylum.AgenticLoop.Partition.{partition_whole}
use phylum.AgenticLoop.Conversation.{map-append}

abbrev pub runs : Planned → Log
runs planned = map (λ (p : ToolCall × Task). executed (p.1)) planned

-- The outcome is none that goes through `gather`.
abbrev IsKept : Outcome → Type 0
IsKept (returned r) = Unit
IsKept (raised cancelled) = ⊥
IsKept (raised paused) = ⊥
IsKept (raised (error text)) = Unit

-- The collected results go on with those of the rest.
collect_rest :
    (call : ToolCall) (o : Outcome) (rest : List (ToolCall × Outcome)) (found f : Dict Result)
    (broke b : Bool)
    → collect ((call, o) ∷ rest) found broke ≡ results f b
    → IsKept o
      × ((found' : Dict Result) × (broke' : Bool) × (collect rest found' broke' ≡ results f b))
unfolding collect
collect_rest call (returned r) rest found f broke b h = (tt, (put call.id r found, broke, h))
collect_rest call (raised cancelled) rest found f broke b h = absurd (ground (arith, h))
collect_rest call (raised paused) rest found f broke b h = absurd (ground (arith, h))
collect_rest call (raised (error text)) rest found f broke b h = (tt, (found, true, h))

module _ (services : Services) where
  execute_one_runs :
      (t : Task) (log : Log)
      → IsKept (execute_one services t log).1
      → (execute_one services t log).0 ≡ log ++ executed t ∷ []
  unfolding execute_one
  execute_one_runs t log h = elim (Bool-cases (services.is_set log)) [
    | inl e ↦ absurd (rw (e, execute_one) at h)
    | inr e ↦ rw (e, execute_one) refl
  ]

  gather_runs :
      (planned : Planned) (log : Log) (found f : Dict Result) (broke b : Bool)
      → collect (gather services planned log).1 found broke ≡ results f b
      → (gather services planned log).0 ≡ log ++ runs planned
  unfolding gather
  gather_runs [] log found f broke b h = sym (append-nil log)
  gather_runs (p ∷ planned) log found f broke b h =
      let first = execute_one services (p.1) log in
      let (kept, (found', broke', h')) =
        collect_rest (p.0) first.1 (gather services planned first.0).1 found f broke b h in
      gather_runs planned first.0 found' f broke' b h'
      ∙ ap (λ l. l ++ runs planned) (execute_one_runs (p.1) log kept)
      ∙ append_assoc log (executed (p.1) ∷ []) (runs planned)

  run_dependent_runs :
      (planned : Planned) (log : Log) (found f : Dict Result) (broke b : Bool)
      → (run_dependent services planned found broke log).1 ≡ results f b
      → (run_dependent services planned found broke log).0 ≡ log ++ runs planned
  unfolding run_dependent
  run_dependent_runs [] log found f broke b h = sym (append-nil log)
  run_dependent_runs (p ∷ planned) log found f broke b h =
      let first = execute_one services (p.1) log in
      elim (Outcome-cases first.1) [
        | inr (why, e) ↦
            let here : stopped why ≡ results f b = rw (e, run_dependent) at h in
            absurd (ground (arith, here))
        | inl (r, e) ↦
            let kept : IsKept first.1 = rw e tt in
            let rest =
              run_dependent_runs planned first.0 (put (p.0.id) r found) f broke b
                (rw (e, run_dependent) at h) in
            rw (e, run_dependent)
              (rest
                ∙ ap (λ l. l ++ runs planned) (execute_one_runs (p.1) log kept)
                ∙ append_assoc log (executed (p.1) ∷ []) (runs planned))
      ]

  -- When the tasks of a turn give results, one by one or in parallel, each of them has been started
  -- once, in the order of the calls, and nothing else has been started.
  pub run_planned_runs :
      (planned : Planned) (log : Log) (f : Dict Result) (b : Bool)
      → (run_planned services planned log).1 ≡ results f b
      → (run_planned services planned log).0 ≡ log ++ runs planned
  unfolding run_planned
  run_planned_runs planned log f b h =
      let groups = partition services planned in
      let first = gather services groups.0 log in
      elim (Bool-cases (non_empty groups.0 && services.is_set log)) [
        | inl e ↦
            let here : stopped cancelled ≡ results f b = rw (e, run_planned) at h in
            absurd (ground (arith, here))
        | inr e ↦ elim (Gathered-cases (collect first.1 [] false)) [
          | inl (why, e') ↦
              let here : stopped why ≡ results f b = rw (e, e', run_planned) at h in
              absurd (ground (arith, here))
          | inr (found, broke, e') ↦
              let rest =
                run_dependent_runs groups.1 first.0 found f broke b
                  (rw (e, e', run_planned) at h) in
              rw (e, e', run_planned)
                (rest
                  ∙ ap (λ l. l ++ runs groups.1) (gather_runs groups.0 log [] found false broke e')
                  ∙ append_assoc log (runs groups.0) (runs groups.1)
                  ∙ ap (λ l. log ++ l)
                      (sym (map-append (λ (p : ToolCall × Task). executed (p.1)) groups.0 groups.1))
                  ∙ ap (λ ps. log ++ runs ps) (partition_whole services planned))
        ]
      ]
