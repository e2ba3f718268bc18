-- ===== src/AgenticLoop/Resume.antt =====
-- core/runtime_manager.py: how a run goes on when the user has answered, with the session that the loop left.
use mathlib.Core.List.{Perm}
use mathlib.Core.List.Perm
use mathlib.Core.List
use mathlib.Core.Nat
use mathlib.Core.Path.{subst}
use mathlib.Core.Option.{some-injective}
use phylum.Common.{
  ℕ, suc, ◌+◌, String, true, false, Option, none, some, List, [], ◌∷◌, ◌++◌, ◌≡◌, ◌↔◌, ◌==◌,
  if◌then◌else◌, refl, sym, ap, ◌∙◌, inl, inr, Bool-cases, arith, map, length, find?,
}
use phylum.AgenticLoop.{ToolCall, Message, system, user, assistant, tool, is_handoff}
use phylum.AgenticLoop.Conversation.{
  Replied, Replied-start, Replied-more, Replied-Answered, Answered, silent, says, calls, reply,
  call_ids, replied_ids, is_plain,
}
use phylum.AgenticLoop.Protocol.{Waits}

-- `_apply_handoff_response`: the messages of the session, with the text of the response.
unfoldable pub apply_handoff_response : Option String → String → List Message → List Message
apply_handoff_response none response messages = messages
apply_handoff_response (some tool_call_id) response messages =
    if tool_call_id == "" then messages else messages ++ tool tool_call_id response ∷ []

abbrev called : Message → ℕ
called (assistant content cs) = length cs
called (system text) = 0
called (user text) = 0
called (tool id content) = 0

abbrev replied : Message → ℕ
replied (tool id content) = 1
replied (assistant content cs) = 0
replied (system text) = 0
replied (user text) = 0

abbrev total : (Message → ℕ) → List Message → ℕ
total count [] = 0
total count (m ∷ ms) = count m + total count ms

total-append :
    (count : Message → ℕ) (xs ys : List Message)
    → total count (xs ++ ys) ≡ total count xs + total count ys
total-append count [] ys = omega (arith)
total-append count (x ∷ xs) ys = omega (arith, total-append count xs ys)

-- The number of a list's elements, counted in the library's numbers.
to_native : Nat.ℕ → ℕ
to_native Nat.zero = 0
to_native (Nat.suc n) = suc (to_native n)

length-to_native : (xs : List String) → to_native (List.length xs) ≡ length xs
unfolding to_native
length-to_native [] = refl
length-to_native (x ∷ xs) = ap suc (length-to_native xs)

Perm-length : {xs ys : List String} → Perm xs ys → length xs ≡ length ys
Perm-length {xs} {ys} h =
    sym (length-to_native xs) ∙ ap to_native (Perm.length-eq h) ∙ length-to_native ys

length-call_ids : (cs : List ToolCall) → length (call_ids cs) ≡ length cs
length-call_ids [] = refl
length-call_ids (c ∷ cs) = ap suc (length-call_ids cs)

total-replies :
    (rs : List (String × String))
    → (total replied (map reply rs) ≡ length (replied_ids rs)) × (total called (map reply rs) ≡ 0)
total-replies [] = (refl, refl)
total-replies (r ∷ rs) =
    let rest = total-replies rs in (omega (arith, rest.0), omega (arith, rest.1))

plain_counts : (m : Message) → is_plain m ≡ true → called m ≡ replied m
plain_counts (system text) h = refl
plain_counts (user text) h = refl
plain_counts (assistant content []) h = refl
plain_counts (assistant content (c ∷ cs)) h = absurd (ground (arith, h))
plain_counts (tool id content) h = absurd (ground (arith, h))

Answered_counts : {ms : List Message} → Answered ms → total called ms ≡ total replied ms
Answered_counts silent = refl
Answered_counts (says {ms} m h e) = omega (
  arith,
  Answered_counts h,
  plain_counts m e,
  total-append called ms (m ∷ []),
  total-append replied ms (m ∷ []),
)
Answered_counts (calls {ms} content cs rs h all) =
    let rest = total-replies rs in
    omega (
      arith,
      Answered_counts h,
      Perm-length all,
      length-call_ids cs,
      rest.0,
      rest.1,
      total-append called ms (assistant content cs ∷ map reply rs),
      total-append replied ms (assistant content cs ∷ map reply rs),
    )

only_call :
    (cs : List ToolCall) (call : ToolCall)
    → find? is_handoff cs ≡ some call
    → length cs ≡ 1
    → cs ≡ call ∷ []
only_call [] call h one = absurd (omega (arith, one))
only_call (c ∷ []) call h one = elim (Bool-cases (is_handoff c)) [
  | inl e ↦
      let same : some c ≡ some call = rw e at h in ap (λ d. d ∷ []) (some-injective c call same)
  | inr e ↦ let same : none ≡ some call = rw e at h in absurd (ground (arith, same))
]
only_call (c ∷ d ∷ cs) call h one = absurd (omega (arith, one))

-- A session that waits for the user's answer to a call is again in order, once the answer is in it,
-- exactly when no other tool was called together with this one.
pub resume-Answered_iff :
    {ms : List Message} {call : ToolCall} (response : String) (h : Waits ms call)
    → call.id == "" ≡ false
    → Answered (apply_handoff_response (some call.id) response ms) ↔ (length h.calls ≡ 1)
unfolding apply_handoff_response
resume-Answered_iff {ms} {call} response h named =
    let last = assistant h.content h.calls in
    let into : Answered (ms ++ tool call.id response ∷ []) → length h.calls ≡ 1 = λ good.
      let counts : total called ((h.before ++ last ∷ []) ++ tool call.id response ∷ [])
          ≡ total replied ((h.before ++ last ∷ []) ++ tool call.id response ∷ []) =
        subst
          (λ l.
            total called (l ++ tool call.id response ∷ [])
            ≡ total replied (l ++ tool call.id response ∷ []))
          h.whole (Answered_counts good) in
      omega (
        arith,
        Answered_counts h.answered,
        counts,
        total-append called (h.before ++ last ∷ []) (tool call.id response ∷ []),
        total-append replied (h.before ++ last ∷ []) (tool call.id response ∷ []),
        total-append called h.before (last ∷ []),
        total-append replied h.before (last ∷ []),
      ) in
    let back : length h.calls ≡ 1 → Answered (ms ++ tool call.id response ∷ []) = λ one.
      let only = only_call h.calls call h.chosen one in
      let start : Replied h.before h.content h.calls [] ms =
        subst (Replied h.before h.content h.calls []) (sym h.whole)
          (Replied-start h.content h.calls h.answered) in
      let all : Perm (call.id ∷ []) (call_ids h.calls) =
        subst (λ cs. Perm (call.id ∷ []) (call_ids cs)) (sym only) (Perm.refl _) in
      Replied-Answered (Replied-more ((call.id, response) ∷ []) start) all in
    rw (named, apply_handoff_response) (into, back)
