-- ===== src/AgenticLoop/Runs.antt =====
-- A whole run of the loop: what it starts, how many steps it makes and what it leaves.
use mathlib.Core.Path.{subst}
use phylum.Common.{
  Bool, true, Option, some, ◌<◌, ap, ◌∙◌, ℕ, zero, suc, ◌+◌, ◌≤◌, String, false, List, [], ◌∷◌, ◌≡◌,
  ◌⊎◌, refl, arith, inl, inr, Bool-cases, non_empty, if◌then◌else◌,
}
use phylum.AgenticLoop.{
  take_reply, Message, system, user, Services, State, Ended, Progress, goes_on, ends, take_step,
  loop, run, first_messages,
}
use phylum.AgenticLoop.Conversation.{Answered, silent, says}
use phylum.AgenticLoop.Journal.{IsSound}
use phylum.AgenticLoop.Requests.{unused, complete_turn_lem}
use phylum.AgenticLoop.Protocol.{Left, Leaves, Kept, take_reply-Kept}

-- At most this number of steps were made, and what is left is in order, as far as it was answered.
pub record Finished (services : Services) (start most : ℕ) (r : State × Ended) : Type 0 where
  pub steps : ℕ
  pub repeated : ℕ
  pub few : steps ≤ most
  pub sound : IsSound services start steps repeated r.0.log
  pub left : Left (start + steps) r.0.messages r.1

pub Progress-cases : (p : Progress) → (p ≡ goes_on) ⊎ ((e : Ended) × p ≡ ends e)
Progress-cases goes_on = inl refl
Progress-cases (ends e) = inr (e, refl)

enough : (escalated : Bool) → unused escalated false < 3
enough true = omega (arith)
enough false = omega (arith)

room : (escalated : Bool) → 0 + unused escalated false ≤ 2
room true = omega (arith)
room false = omega (arith)

module _ (services : Services) (start : ℕ) where
  abbrev Steps : ℕ → Option (State × Progress) → Type 0
  Steps n o = (r : State × Progress) × (o ≡ some r) × (k : ℕ) × Kept services start n k r

  take_step-Kept :
      (n k : ℕ) (st : State)
      → services.is_set st.log ≡ false
      → Answered st.messages
      → IsSound services start n k st.log
      → Steps (suc n) (take_step services (start + suc n) st)
  unfolding take_step
  take_step-Kept n k st free h good =
      let (r, e, k', sound) =
        complete_turn_lem services start (suc n) st.messages st.expansion 3 0 st.escalated false
          st.log (enough st.escalated) (room st.escalated) h (IsSound.asks good free h) in
      let told : State = record st { escalated = r.1.0; log = r.0 } in
      rw (e, take_step)
        (
          take_reply services (start + suc n) (r.1.1) told,
          refl,
          k',
          take_reply-Kept services start (suc n) k' (r.1.1) told h sound,
        )

  abbrev Finishes : ℕ → Option (State × Ended) → Type 0
  Finishes most o = (r : State × Ended) × (o ≡ some r) × Finished services start most r

  next_step :
      (left n : ℕ) (st : State)
      → Finishes (suc n + left) (loop services left (start + suc (suc n)) st)
      → Finishes (n + suc left) (loop services left ((start + suc n) + 1) st)
  next_step left n st (r, e, h) =
      let same : start + suc (suc n) ≡ (start + suc n) + 1 = omega (arith) in
      subst (λ step. Finishes (n + suc left) (loop services left step st)) same
        (
          r,
          e,
          record {
            steps = h.steps;
            repeated = h.repeated;
            few = omega (arith, h.few);
            sound = h.sound;
            left = h.left;
          },
        )

  loop_lem :
      (left n k : ℕ) (st : State)
      → Answered st.messages
      → IsSound services start n k st.log
      → Finishes (n + left) (loop services left (start + suc n) st)
  unfolding loop
  loop_lem zero n k st h good =
      (_, refl, record { steps = n; repeated = k; few = omega (arith); sound = good; left = inl h })
  loop_lem (suc left) n k st h good = elim (Bool-cases (services.is_set st.log)) [
    | inl e ↦
        rw (e, loop)
          (
            _,
            refl,
            record { steps = n; repeated = k; few = omega (arith); sound = good; left = inl h },
          )
    | inr e ↦ elim (Bool-cases (services.over_budget st.usages)) [
      | inl e' ↦
          rw (e, e', loop)
            (
              _,
              refl,
              record {
                steps = n;
                repeated = k;
                few = omega (arith);
                sound = good;
                left = (h, omega (arith));
              },
            )
      | inr e' ↦
          let (r, made, k', kept) = take_step-Kept n k st e h good in
          elim (Progress-cases (r.1)) [
            | inl f ↦
                let same : take_step services (start + suc n) st ≡ some (r.0, goes_on) =
                  made ∙ ap (λ p. some (r.0, p)) f in
                rw (e, e', same, loop)
                  (next_step left n (r.0) (
                    loop_lem left (suc n) k' (r.0)
                      (subst (Leaves (start + suc n) r.0.messages) f kept.leaves) kept.sound))
            | inr (end, f) ↦
                let same : take_step services (start + suc n) st ≡ some (r.0, ends end) =
                  made ∙ ap (λ p. some (r.0, p)) f in
                rw (e, e', same, loop)
                  (
                    (r.0, end),
                    refl,
                    record {
                      steps = suc n;
                      repeated = k';
                      few = omega (arith);
                      sound = kept.sound;
                      left = subst (Leaves (start + suc n) r.0.messages) f kept.leaves;
                    },
                  )
          ]
    ]
  ]

-- A run whose session is new, or a conversation in order, comes to an end, after at most `max_steps`
-- steps. In a step it asks the model once and, after errors, at most two more times. Every such request
-- has a conversation, before its compression, in which every tool call has one answer right after it; each
-- task that it starts comes from a call that was valid, in that step; and it begins no step and starts no
-- task once it is cancelled. The step that it reports is the first one and its steps. The conversation that
-- it leaves is in order where it completes. Where it stops for the user, the last message has the call to
-- the user and no call of it is answered. Where it fails, is cancelled or is paused by a task, it is in
-- order or some calls of its last assistant's message have one answer and the others none.
pub run-Finished :
    (services : Services) (max_steps : ℕ) (session : List Message) (start expansion : ℕ)
    (escalated : Bool) (prompt text : String)
    → Answered session
    → (r : State × Ended) × (run services max_steps session start expansion escalated prompt text
        ≡ some r)
      × Finished services start max_steps r
unfolding run first_messages
run-Finished services max_steps session start expansion escalated prompt text h =
    let fresh : Answered (system prompt ∷ user text ∷ []) =
      says (user text) (says (system prompt) silent refl) refl in
    let first : Answered (if non_empty session then session else system prompt ∷ user text ∷ []) =
      elim (Bool-cases (non_empty session)) [ inl e ↦ rw e h | inr e ↦ rw e fresh ] in
    let begun : State = record {
      messages = if non_empty session then session else system prompt ∷ user text ∷ [];
      usages = [];
      expansion = expansion;
      escalated = escalated;
      log = [];
    } in
    subst (λ most. Finishes services start most (loop services max_steps (start + 1) begun))
      (omega (arith)) (loop_lem services start max_steps 0 0 begun first IsSound.starts)
