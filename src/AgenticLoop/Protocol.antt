-- ===== src/AgenticLoop/Protocol.antt =====
-- The loop keeps the conversation in order and its log sound.
use mathlib.Core.List.{Perm, append_assoc, append-nil}
use mathlib.Core.List.Perm
use mathlib.Core.Path.{subst}
use phylum.Common.{
  ℕ, ◌+◌, String, false, not, none, some, List, [], ◌∷◌, ◌++◌, ◌&&◌, ◌==◌, ◌≡◌, refl, sym, ap, ◌∙◌,
  inl, inr, ◌⊎◌, map, arith, Bool-cases, Option-cases, non_empty, if◌then◌else◌, filter, find?,
  filter-All,
}
use phylum.Common.Dict.{Dict}
use phylum.AgenticLoop.{
  ToolCall, Message, assistant, Turn, Services, Reply, turned, llm_error, broken, Result, State,
  Ended, completed, budget_exceeded, llm_failed, awaiting_input, failed, Progress, goes_on, ends,
  plan_calls, run_planned, answers, run_subagents, is_handoff, is_subagent, use_regular, use_tools,
  take_reply,
}
use phylum.AgenticLoop.Conversation.{
  reply, Answered, says, call_ids, replied_ids, Replied, Replied-start, Replied-more,
  Replied-Answered,
}
use phylum.AgenticLoop.Journal.{IsSound}
use phylum.AgenticLoop.Turns.{
  planned_ids, plan_calls_lem, answers_lem, run_subagents_lem, filter_perm, filter-find?_absent,
}
use phylum.AgenticLoop.Execution.{Gathered-cases, run_planned-IsSound, run_subagents-IsSound}

-- A conversation in order up to a last message that calls for the user's input.
pub record Waits (ms : List Message) (call : ToolCall) : Type 0 where
  pub before : List Message
  pub content : String
  pub calls : List ToolCall
  pub answered : Answered before
  pub whole : ms ≡ before ++ assistant content calls ∷ []
  pub chosen : find? is_handoff calls ≡ some call

-- A conversation in order up to the calls of the last assistant's message, of which only some have been
-- answered.
pub record Partly (ms : List Message) : Type 0 where
  pub before : List Message
  pub content : String
  pub calls : List ToolCall
  pub replies : List (String × String)
  pub unanswered : List String
  pub answered : Answered before
  pub whole : ms ≡ before ++ assistant content calls ∷ map reply replies
  pub all_calls : Perm (replied_ids replies ++ unanswered) (call_ids calls)

-- What is left unanswered when the run stops.
Replied-Partly :
    {before ms : List Message} {content : String} {cs : List ToolCall} {ids : List String}
    (unanswered : List String)
    → Replied before content cs ids ms
    → Perm (ids ++ unanswered) (call_ids cs)
    → Partly ms
Replied-Partly {before} {ms} {content} {cs} {ids} unanswered h all = record {
  before = before;
  content = content;
  calls = cs;
  replies = h.replies;
  unanswered = unanswered;
  answered = h.answered;
  whole = h.whole;
  all_calls = subst (λ xs. Perm (xs ++ unanswered) (call_ids cs)) (sym h.named) all;
}

-- The messages that a run leaves in its session, at this step.
abbrev pub Left : ℕ → List Message → Ended → Type 0
Left at ms (completed text step) = Answered ms × (step ≡ at) × (text == "" ≡ false)
Left at ms (budget_exceeded step) = Answered ms × (step ≡ at)
Left at ms (llm_failed step) = Answered ms × (step ≡ at)
Left at ms (awaiting_input call step) = Waits ms call × (step ≡ at)
Left at ms (failed why) = Answered ms ⊎ Partly ms

abbrev pub Leaves : ℕ → List Message → Progress → Type 0
Leaves at ms goes_on = Answered ms
Leaves at ms (ends e) = Left at ms e

pub record Kept (services : Services) (start n k : ℕ) (r : State × Progress) : Type 0 where
  pub sound : IsSound services start n k r.0.log
  pub leaves : Leaves (start + n) r.0.messages r.1

empty-eq : (cs : List ToolCall) → non_empty cs ≡ false → cs ≡ []
empty-eq [] h = refl
empty-eq (c ∷ cs) h = absurd (ground (arith, h))

abbrev executable_calls : Turn → List ToolCall
executable_calls turn = filter (λ c. not (is_handoff c)) turn.tool_calls

abbrev subagent_calls : Turn → List ToolCall
subagent_calls turn = filter is_subagent (executable_calls turn)

abbrev regular_calls : Turn → List ToolCall
regular_calls turn = filter (λ c. not (is_subagent c)) (executable_calls turn)

module _ (services : Services) (start n k : ℕ) where
  regular_answered :
      {before ms : List Message} {content : String} {cs : List ToolCall} {ids : List String}
      (regular : List ToolCall) (found : Dict Result)
      → Replied before content cs ids ms
      → Perm (ids ++ call_ids regular) (call_ids cs)
      → Answered (
          (ms ++ (plan_calls services (start + n) regular).0)
          ++ answers services found (plan_calls services (start + n) regular).1)
  regular_answered {before} {ms} {content} {cs} {ids} regular found h whole =
      let (rs, same, all, fit) = plan_calls_lem services (start + n) regular in
      let (rs', same', named') =
        answers_lem services found (plan_calls services (start + n) regular).1 in
      let both : Perm ((ids ++ replied_ids rs) ++ replied_ids rs') (call_ids cs) =
        rw (append_assoc ids (replied_ids rs) (replied_ids rs'), named')
          (Perm.trans (Perm.append_left ids all) whole) in
      rw (same, same') (Replied-Answered (Replied-more rs' (Replied-more rs h)) both)

  -- When a task stops the run, the calls that were not valid have been answered.
  regular_refused :
      {before ms : List Message} {content : String} {cs : List ToolCall} {ids : List String}
      (regular : List ToolCall)
      → Replied before content cs ids ms
      → Perm (ids ++ call_ids regular) (call_ids cs)
      → Partly (ms ++ (plan_calls services (start + n) regular).0)
  regular_refused {before} {ms} {content} {cs} {ids} regular h whole =
      let (rs, same, all, fit) = plan_calls_lem services (start + n) regular in
      let planned = planned_ids (plan_calls services (start + n) regular).1 in
      let both : Perm ((ids ++ replied_ids rs) ++ planned) (call_ids cs) =
        rw (append_assoc ids (replied_ids rs) planned)
          (Perm.trans (Perm.append_left ids all) whole) in
      rw same (Replied-Partly planned (Replied-more rs h) both)

  use_regular-Kept :
      {before : List Message} {content : String} {cs : List ToolCall} {ids : List String}
      (regular : List ToolCall) (st : State)
      → Replied before content cs ids st.messages
      → Perm (ids ++ call_ids regular) (call_ids cs)
      → IsSound services start n k st.log
      → Kept services start n k (use_regular services (start + n) regular st)
  unfolding use_regular
  use_regular-Kept regular st h whole good =
      let planned = (plan_calls services (start + n) regular).1 in
      let (_, _, _, fit) = plan_calls_lem services (start + n) regular in
      let sound = run_planned-IsSound services start n k planned st.log fit good in
      elim (Gathered-cases (run_planned services planned st.log).1) [
        | inl (why, e) ↦
            rw (e, use_regular)
              (record { sound = sound; leaves = inr (regular_refused regular h whole) })
        | inr (found, broke, e) ↦
            rw (e, use_regular)
              (record { sound = sound; leaves = regular_answered regular found h whole })
      ]

  -- The answers of the sub-agents, and what is left to answer.
  subagents_answered :
      (turn : Turn) (st : State)
      → Answered st.messages
      → find? is_handoff turn.tool_calls ≡ none
      → (run_subagents services (subagent_calls turn) st.log).1.1 ≡ none
      → Replied st.messages turn.content turn.tool_calls (call_ids (subagent_calls turn)) (
          (st.messages ++ assistant turn.content turn.tool_calls ∷ [])
          ++ (run_subagents services (subagent_calls turn) st.log).1.0)
  subagents_answered turn st h e e' =
      let (rs, same, named) = run_subagents_lem services (subagent_calls turn) st.log e' in
      rw (same, sym named) (Replied-more rs (Replied-start turn.content turn.tool_calls h))

  turn_perm :
      (turn : Turn)
      → find? is_handoff turn.tool_calls ≡ none
      → Perm
          (call_ids (subagent_calls turn) ++ call_ids (regular_calls turn))
          (call_ids turn.tool_calls)
  turn_perm turn e =
      subst
        (λ cs. Perm (call_ids (subagent_calls turn) ++ call_ids (regular_calls turn)) (call_ids cs))
        (filter-find?_absent is_handoff turn.tool_calls e)
        (filter_perm services is_subagent (executable_calls turn))

  agents_done :
      (turn : Turn) (st : State) {before : List Message}
      → Replied before turn.content turn.tool_calls (call_ids (subagent_calls turn)) st.messages
      → Perm
          (call_ids (subagent_calls turn) ++ call_ids (regular_calls turn))
          (call_ids turn.tool_calls)
      → IsSound services start n k st.log
      → Kept services start n k (
          if non_empty (subagent_calls turn) && not (non_empty (regular_calls turn))
          then (st, goes_on)
          else use_regular services (start + n) (regular_calls turn) st)
  agents_done turn st h whole good =
      elim (Bool-cases (non_empty (subagent_calls turn) && not (non_empty (regular_calls turn)))) [
        | inl e ↦
            let none_left : regular_calls turn ≡ [] =
              empty-eq (regular_calls turn) (ground (arith, e)) in
            let all : Perm (call_ids (subagent_calls turn)) (call_ids turn.tool_calls) =
              subst (λ ids. Perm ids (call_ids turn.tool_calls))
                (ap (λ cs. call_ids (subagent_calls turn) ++ call_ids cs) none_left ∙ append-nil _)
                whole in
            rw e (record { sound = good; leaves = Replied-Answered h all })
        | inr e ↦ rw e (use_regular-Kept (regular_calls turn) st h whole good)
      ]

  use_tools-Kept :
      (turn : Turn) (st : State)
      → Answered st.messages
      → IsSound services start n k st.log
      → Kept services start n k (use_tools services (start + n) turn st)
  unfolding use_tools
  use_tools-Kept turn st h good =
      let agents = filter-All is_subagent (executable_calls turn) in
      let sound =
        run_subagents-IsSound services start n k (subagent_calls turn) st.log agents good in
      elim (Option-cases (find? is_handoff turn.tool_calls)) [
        | inr (call, e) ↦
            rw (e, use_tools)
              (record {
                sound = good;
                leaves = (
                  record {
                    before = st.messages;
                    content = turn.content;
                    calls = turn.tool_calls;
                    answered = h;
                    whole = refl;
                    chosen = e;
                  },
                  refl,
                );
              })
        | inl e ↦ elim (Option-cases (run_subagents services (subagent_calls turn) st.log).1.1) [
          | inr (why, e') ↦
              rw (e, e', use_tools)
                (record {
                  sound = sound;
                  leaves = inr (
                      Replied-Partly (call_ids turn.tool_calls)
                        (Replied-start turn.content turn.tool_calls h) (Perm.refl _));
                })
          | inl e' ↦
              rw (e, e', use_tools)
                (agents_done turn _ (subagents_answered turn st h e e') (turn_perm turn e) sound)
        ]
      ]

  pub take_reply-Kept :
      (reply : Reply) (st : State)
      → Answered st.messages
      → IsSound services start n k st.log
      → Kept services start n k (take_reply services (start + n) reply st)
  unfolding take_reply
  take_reply-Kept llm_error st h good = record { sound = good; leaves = (h, refl) }
  take_reply-Kept (broken why) st h good = record { sound = good; leaves = inl h }
  take_reply-Kept (turned turn) st h good = elim (Bool-cases (non_empty turn.tool_calls)) [
    | inl e ↦ rw (e, take_reply) (use_tools-Kept turn _ h good)
    | inr e ↦ elim (Bool-cases (turn.content == "")) [
      | inl e' ↦ rw (e, e', take_reply) (record { sound = good; leaves = inl h })
      | inr e' ↦
          rw (e, e', take_reply)
            (record { sound = good; leaves = (says (assistant turn.content []) h refl, refl, e') })
    ]
  ]
