-- ===== src/AgenticLoop/Conversation.antt =====
-- The order of a conversation: the calls of an assistant's message are answered right after it.
use mathlib.Core.List.{Perm, append_assoc}
use mathlib.Core.Path.{subst}
use phylum.Common.{String, Bool, true, false, List, [], ◌∷◌, ◌++◌, ◌≡◌, refl, sym, ap, ◌∙◌, map}
use phylum.AgenticLoop.{ToolCall, Message, system, user, assistant, tool}

abbrev pub reply : String × String → Message
reply r = tool r.0 r.1

abbrev pub call_ids : List ToolCall → List String
call_ids calls = map (λ (c : ToolCall). c.id) calls

abbrev pub replied_ids : List (String × String) → List String
replied_ids rs = map (λ (r : String × String). r.0) rs

-- Whether the message can stand by itself: it is no answer and calls no tool.
abbrev pub is_plain : Message → Bool
is_plain (system text) = true
is_plain (user text) = true
is_plain (assistant content []) = true
is_plain (assistant content (c ∷ cs)) = false
is_plain (tool id content) = false

-- A conversation in which every tool call has one answer, in the block that follows its message, and
-- no answer stands anywhere else.
pub data Answered : List Message → Type 0 where
  silent : Answered []
  says :
      {ms : List Message} (m : Message) → Answered ms → is_plain m ≡ true → Answered (ms ++ m ∷ [])
  calls :
      {ms : List Message} (content : String) (cs : List ToolCall) (rs : List (String × String))
      → Answered ms
      → Perm (replied_ids rs) (call_ids cs)
      → Answered (ms ++ assistant content cs ∷ map reply rs)

-- After an assistant's message, the calls with these ids have been answered, in this order.
pub record Replied (before : List Message) (content : String) (cs : List ToolCall)
    (ids : List String) (ms : List Message) : Type 0 where
  pub answered : Answered before
  pub replies : List (String × String)
  pub named : replied_ids replies ≡ ids
  pub whole : ms ≡ before ++ assistant content cs ∷ map reply replies

pub map-append :
    {A B : Type 0} (f : A → B) (xs ys : List A) → map f (xs ++ ys) ≡ map f xs ++ map f ys
map-append f [] ys = refl
map-append f (x ∷ xs) ys = ap (λ zs. f x ∷ zs) (map-append f xs ys)

pub Replied-start :
    {before : List Message} (content : String) (cs : List ToolCall)
    → Answered before
    → Replied before content cs [] (before ++ assistant content cs ∷ [])
Replied-start content cs h = record { answered = h; replies = []; named = refl; whole = refl }

pub Replied-more :
    {before ms : List Message} {content : String} {cs : List ToolCall} {ids : List String}
    (rs : List (String × String))
    → Replied before content cs ids ms
    → Replied before content cs (ids ++ replied_ids rs) (ms ++ map reply rs)
Replied-more {before} {ms} {content} {cs} {ids} rs h = record {
  answered = h.answered;
  replies = h.replies ++ rs;
  named =
      map-append (λ (r : String × String). r.0) h.replies rs
      ∙ ap (λ xs. xs ++ replied_ids rs) h.named;
  whole =
      ap (λ xs. xs ++ map reply rs) h.whole
      ∙ append_assoc before (assistant content cs ∷ map reply h.replies) (map reply rs)
      ∙ ap (λ xs. before ++ assistant content cs ∷ xs) (sym (map-append reply h.replies rs));
}

-- When all calls are answered, the conversation is in order again.
pub Replied-Answered :
    {before ms : List Message} {content : String} {cs : List ToolCall} {ids : List String}
    → Replied before content cs ids ms
    → Perm ids (call_ids cs)
    → Answered ms
Replied-Answered {before} {ms} {content} {cs} {ids} h all =
    subst Answered (sym h.whole) (
      calls content cs h.replies h.answered (subst (λ xs. Perm xs (call_ids cs)) (sym h.named) all))
