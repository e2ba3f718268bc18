-- ===== src/ContextWindow/Indices.antt =====
-- The indices that the manager may compress: those of the results of tools, but for the most recent.
use mathlib.Core.Path.{subst}
use phylum.Common.{
  ℕ, zero, suc, ◌+◌, ◌-◌, ◌≤◌, ◌≡◌, ◌↔◌, inl, inr, refl, sym, ap, ◌∙◌, true, some, List, [], ◌∷◌,
  if◌then◌else◌, leb, length, take, drop, get_elem?, Bool-cases, arith, In,
}
use phylum.ContextWindow.{Message, Manager, is_tool, tool_indices, compressible_tool_indices}

-- How many messages are results of tools, and how many of those after index `i` are.
abbrev pub tools : List Message → ℕ
tools [] = 0
tools (m ∷ ms) = if is_tool m then tools ms + 1 else tools ms

abbrev pub tools_after : ℕ → List Message → ℕ
tools_after i ms = tools (drop (suc i) ms)

-- The message at index `i` may be compressed: it is the result of a tool, and so are at least
-- `recent` later ones.
pub record IsOld (recent : ℕ) (ms : List Message) (i : ℕ) : Type 0 where
  pub message : Message
  pub there : get_elem? ms i ≡ some message
  pub of_tool : is_tool message ≡ true
  pub followed : recent ≤ tools_after i ms

length-tool_indices : (n : ℕ) (ms : List Message) → length (tool_indices n ms) ≡ tools ms
unfolding tool_indices
length-tool_indices n [] = refl
length-tool_indices n (m ∷ ms) = let rest = length-tool_indices (n + 1) ms in ground arith

-- What `compressible_tool_indices` makes of the messages from index `n` on.
old_from : ℕ → ℕ → List Message → List ℕ
old_from recent n [] = []
old_from recent n (m ∷ ms) =
    let rest = old_from recent (n + 1) ms in
    if is_tool m then (if leb recent (tools ms) then n ∷ rest else rest) else rest

take-nil : {A : Type 0} (n : ℕ) → take {A = A} n [] ≡ []
take-nil zero = refl
take-nil (suc n) = refl

take_beyond : {A : Type 0} (n : ℕ) (xs : List A) → n ≡ 0 → take n xs ≡ []
take_beyond n xs h = rw h refl

old_from-none : (recent n : ℕ) (ms : List Message) → tools ms ≤ recent → old_from recent n ms ≡ []
unfolding old_from
old_from-none recent n [] h = refl
old_from-none recent n (m ∷ ms) h = let rest = old_from-none recent (n + 1) ms in ground arith

take-tool_indices :
    (recent n : ℕ) (ms : List Message)
    → take (tools ms - recent) (tool_indices n ms) ≡ old_from recent n ms
unfolding tool_indices old_from
take-tool_indices recent n [] = take-nil (0 - recent)
take-tool_indices recent n (m ∷ ms) = elim (Bool-cases (is_tool m)) [
  | inr e ↦ rw e (take-tool_indices recent (n + 1) ms)
  | inl e ↦ elim (Bool-cases (leb recent (tools ms))) [
    | inl f ↦
        rw (e, f)
          (let room : tools ms + 1 - recent ≡ suc (tools ms - recent) = ground arith in
            rw room (ap (λ is. n ∷ is) (take-tool_indices recent (n + 1) ms)))
    | inr f ↦
        rw (e, f)
          (let few : tools ms ≤ recent = ground arith in
            let no_room : tools ms + 1 - recent ≡ 0 = ground arith in
            take_beyond _ _ no_room ∙ sym (old_from-none recent (n + 1) ms few))
  ]
]

compressible-old_from :
    (g : Manager) (ms : List Message)
    → compressible_tool_indices g ms ≡ old_from g.recency_window 0 ms
unfolding compressible_tool_indices
compressible-old_from g ms = elim (Bool-cases (leb (length (tool_indices 0 ms)) g.recency_window)) [
  | inl e ↦
      let few : tools ms ≤ g.recency_window = ground (arith, length-tool_indices 0 ms) in
      rw e (sym (old_from-none g.recency_window 0 ms few))
  | inr e ↦ rw e (
      ap (λ k. take (k - g.recency_window) (tool_indices 0 ms)) (length-tool_indices 0 ms)
      ∙ take-tool_indices g.recency_window 0 ms)
]

IsOld-cons :
    (recent i : ℕ) (m : Message) (ms : List Message)
    → IsOld recent ms i
    → IsOld recent (m ∷ ms) (suc i)
IsOld-cons recent i m ms o = record {
  message = o.message;
  there = o.there;
  of_tool = o.of_tool;
  followed = o.followed;
}

later_IsOld :
    (recent n i : ℕ) (m : Message) (ms : List Message)
    → (n + 1 ≤ i) × IsOld recent ms (i - (n + 1))
    → (n ≤ i) × IsOld recent (m ∷ ms) (i - n)
later_IsOld recent n i m ms (after, o) =
    let shift : i - n ≡ suc (i - (n + 1)) = omega arith in
    (omega arith, rw shift (IsOld-cons recent (i - (n + 1)) m ms o))

here_IsOld :
    (recent n i : ℕ) (m : Message) (ms : List Message)
    → is_tool m ≡ true
    → recent ≤ tools ms
    → n ≡ i
    → (n ≤ i) × IsOld recent (m ∷ ms) (i - n)
here_IsOld recent n i m ms e f same =
    let start : i - n ≡ 0 = omega arith in
    (omega arith, rw start (record { message = m; there = refl; of_tool = e; followed = f }))

old_from-IsOld :
    (recent n i : ℕ) (ms : List Message)
    → In i (old_from recent n ms)
    → (n ≤ i) × IsOld recent ms (i - n)
unfolding old_from
old_from-IsOld recent n i [] h = absurd h
old_from-IsOld recent n i (m ∷ ms) h = elim (Bool-cases (is_tool m)) [
  | inr e ↦ later_IsOld recent n i m ms (old_from-IsOld recent (n + 1) i ms (rw e at h))
  | inl e ↦ elim (Bool-cases (leb recent (tools ms))) [
    | inr f ↦ later_IsOld recent n i m ms (old_from-IsOld recent (n + 1) i ms (rw (e, f) at h))
    | inl f ↦
        let h' : In i (n ∷ old_from recent (n + 1) ms) = rw (e, f) at h in
        elim h' [
          | inl same ↦ here_IsOld recent n i m ms e (ground arith) same
          | inr rest ↦ later_IsOld recent n i m ms (old_from-IsOld recent (n + 1) i ms rest)
        ]
  ]
]

In-later :
    (recent n i : ℕ) (m : Message) (ms : List Message)
    → In (n + 1 + i) (old_from recent (n + 1) ms)
    → In (n + suc i) (old_from recent n (m ∷ ms))
unfolding old_from
In-later recent n i m ms h =
    let shift : n + suc i ≡ n + 1 + i = omega arith in
    rw shift (elim (Bool-cases (is_tool m)) [
      | inr e ↦ rw e h
      | inl e ↦ elim (Bool-cases (leb recent (tools ms))) [
        | inr f ↦ rw (e, f) h
        | inl f ↦ rw (e, f) (inr h)
      ]
    ])

IsOld-old_from :
    (recent n i : ℕ) (ms : List Message) → IsOld recent ms i → In (n + i) (old_from recent n ms)
unfolding old_from
IsOld-old_from recent n i [] o = absurd (ground (arith, o.there))
IsOld-old_from recent n zero (m ∷ ms) o =
    let e : is_tool m ≡ true = ground (arith, o.there, o.of_tool) in
    let f : leb recent (tools ms) ≡ true = ground (arith, o.followed) in
    rw (e, f) (inl (omega arith))
IsOld-old_from recent n (suc i) (m ∷ ms) o = In-later recent n i m ms (
    IsOld-old_from recent (n + 1) i ms
      (record { message = o.message; there = o.there; of_tool = o.of_tool; followed = o.followed }))

-- The indices of the manager are those of the old results of tools.
pub compressible-IsOld :
    (g : Manager) (i : ℕ) (ms : List Message)
    → In i (compressible_tool_indices g ms) ↔ IsOld g.recency_window ms i
compressible-IsOld g i ms = (
  λ h.
      let at_zero : i - 0 ≡ i = omega arith in
      subst (IsOld g.recency_window ms) at_zero
        (old_from-IsOld g.recency_window 0 i ms (rw (compressible-old_from g ms) at h)).1,
  λ o.
      let at_zero : 0 + i ≡ i = omega arith in
      rw (compressible-old_from g ms) (
        subst (λ k. In k (old_from g.recency_window 0 ms)) at_zero
          (IsOld-old_from g.recency_window 0 i ms o)),
)
