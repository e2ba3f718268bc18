-- ===== src/AgenticLoop/Requests.antt =====
-- `_complete_llm_turn`: its requests and why they come to an end.
use phylum.Common.{
  ℕ, zero, suc, ◌+◌, ◌≤◌, ◌<◌, Bool, true, not, some, List, [], ◌∷◌, ◌++◌, ◌&&◌, ◌≡◌, ◌⊎◌, refl,
  arith, inl, inr, Bool-cases, if◌then◌else◌,
}
use phylum.AgenticLoop.{
  Message, asked, Log, Services, Turn, Failure, Reply, turned, llm_error, broken, complete_turn,
}
use phylum.AgenticLoop.Conversation.{Answered}
use phylum.AgenticLoop.Journal.{IsSound}

Reply-cases :
    (r : Reply)
    → ((r ≡ llm_error) ⊎ (((t : Turn) × r ≡ turned t) ⊎ ((why : Failure) × r ≡ broken why)))
Reply-cases llm_error = inl refl
Reply-cases (turned t) = inr (inl (t, refl))
Reply-cases (broken why) = inr (inr (why, refl))

-- The repetitions that a step has left.
abbrev pub unused : Bool → Bool → ℕ
unused escalated focused = (if escalated then 0 else 1) + (if focused then 0 else 1)

module _ (services : Services) (start n : ℕ) (ms : List Message) (expansion : ℕ) where
  abbrev pub Completes : ℕ → Bool → Bool → Log → Type 0
  Completes fuel escalated focused log =
      (r : Log × (Bool × Reply)) × (complete_turn services fuel escalated focused ms expansion log
        ≡ some r)
      × (k : ℕ) × IsSound services start n k r.0

  pub complete_turn_lem :
      (fuel k : ℕ) (escalated focused : Bool) (log : Log)
      → unused escalated focused < fuel
      → k + unused escalated focused ≤ 2
      → Answered ms
      → IsSound services start n k (log ++ asked ms ∷ [])
      → Completes fuel escalated focused log
  unfolding complete_turn
  complete_turn_lem zero k escalated focused log enough room h good = absurd (omega (arith, enough))
  complete_turn_lem (suc fuel) k escalated focused log enough room h good =
      let sent = log ++ asked ms ∷ [] in
      elim (Reply-cases (services.complete sent ms expansion escalated focused)) [
        | inr (inl (t, e)) ↦ rw (e, complete_turn) ((sent, (escalated, turned t)), refl, k, good)
        | inr (inr (why, e)) ↦
            rw (e, complete_turn) ((sent, (escalated, broken why)), refl, k, good)
        | inl e ↦ elim (Bool-cases (not escalated && services.escalates sent)) [
          | inl f ↦
              let fewer : (unused true focused < fuel)
                  × (suc k + unused true focused ≤ 2)
                  × (k < 2) =
                ground (arith, f, enough, room) in
              rw (e, f, complete_turn)
                (complete_turn_lem fuel (suc k) true focused sent (fewer.0) (fewer.1) h
                  (IsSound.repeats good (fewer.2) h))
          | inr f ↦ elim (Bool-cases (not focused && services.is_failed_generation sent)) [
            | inl g ↦
                let fewer : (unused escalated true < fuel)
                    × (suc k + unused escalated true ≤ 2)
                    × (k < 2) =
                  ground (arith, g, enough, room) in
                rw (e, f, g, complete_turn)
                  (complete_turn_lem fuel (suc k) escalated true sent (fewer.0) (fewer.1) h
                    (IsSound.repeats good (fewer.2) h))
            | inr g ↦ rw (e, f, g, complete_turn) ((sent, (escalated, llm_error)), refl, k, good)
          ]
        ]
      ]
