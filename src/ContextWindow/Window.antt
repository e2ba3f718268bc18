-- ===== src/ContextWindow/Window.antt =====
-- What `compress_if_needed` changes, and when what it returns fits the budget.
use mathlib.Core.Path.{subst}
use phylum.Common.{
  ℕ, zero, suc, ◌+◌, ◌-◌, ◌≤◌, ◌≡◌, ◌⊎◌, inl, inr, refl, sym, ap, ◌∙◌, some, List, [], ◌∷◌,
  if◌then◌else◌, leb, ltb, length, get_elem?, Bool-cases, arith, In, nat_eq, nat_eq_iff, take,
  modify, length-modify, get_elem?-modify_other, get_elem?-modify_same,
}
use phylum.ContextWindow.{
  Message, Manager, Texts, placeholder, tool_indices, compressible_tool_indices, change_until_fit,
  total_tokens, token_budget, compress_tool_message, drop_oldest_tool_results, compress_if_needed,
}
use phylum.ContextWindow.Indices.{IsOld, compressible-IsOld}

tool_indices-modify :
    (change : Message → Message) (same : (m : Message) → (change m).role ≡ m.role) (n i : ℕ)
    (ms : List Message)
    → tool_indices n (modify i change ms) ≡ tool_indices n ms
unfolding tool_indices
tool_indices-modify change same n i [] = refl
tool_indices-modify change same n zero (m ∷ ms) = rw (same m) refl
tool_indices-modify change same n (suc i) (m ∷ ms) =
    rw (tool_indices-modify change same (n + 1) i ms) refl

module _ (texts : Texts) (g : Manager) (change : Message → Message) where
  loop : List ℕ → List Message → List Message
  loop = change_until_fit texts g change

  -- A round of the loop stops, or goes on with the changed message.
  loop_round :
      (P : List Message → Type 0) (i : ℕ) (is : List ℕ) (ms : List Message)
      → P ms
      → P (loop is (modify i change ms))
      → P (loop (i ∷ is) ms)
  unfolding loop change_until_fit
  loop_round P i is ms stop go = elim (Bool-cases (leb (total_tokens texts ms) (token_budget g))) [
    | inl e ↦ rw e stop
    | inr e ↦ rw e go
  ]

  length-loop : (is : List ℕ) (ms : List Message) → length (loop is ms) ≡ length ms
  unfolding loop change_until_fit
  length-loop [] ms = refl
  length-loop (i ∷ is) ms =
      loop_round (λ out. length out ≡ length ms) i is ms refl
        (length-loop is (modify i change ms) ∙ length-modify i change ms)

  loop_other :
      (is : List ℕ) (ms : List Message) (j : ℕ)
      → ¬ (In j is)
      → get_elem? (loop is ms) j ≡ get_elem? ms j
  unfolding loop change_until_fit
  loop_other [] ms j h = refl
  loop_other (i ∷ is) ms j h =
      loop_round (λ out. get_elem? out j ≡ get_elem? ms j) i is ms refl
        (loop_other is (modify i change ms) j (λ m. h (inr m))
          ∙ get_elem?-modify_other i j change ms (λ e. h (inl e)))

  -- What the change keeps of a message is kept by the loop.
  loop_keeps :
      (P : Message → Type 0) (keeps : (m : Message) → P m → P (change m)) (is : List ℕ)
      (ms : List Message) (j : ℕ) (m : Message)
      → get_elem? ms j ≡ some m
      → P m
      → (m' : Message) × (get_elem? (loop is ms) j ≡ some m') × P m'
  unfolding loop change_until_fit
  loop_keeps P keeps [] ms j m h p = (m, h, p)
  loop_keeps P keeps (i ∷ is) ms j m h p =
      loop_round (λ out. (m' : Message) × (get_elem? out j ≡ some m') × P m') i is ms (m, h, p)
        (elim (Bool-cases (nat_eq i j)) [
          | inl e ↦
              let same : i ≡ j = (nat_eq_iff i j).0 e in
              loop_keeps P keeps is (modify i change ms) j (change m)
                (subst (λ k. get_elem? (modify k change ms) j ≡ some (change m)) (sym same)
                  (get_elem?-modify_same j change ms m h))
                (keeps m p)
          | inr e ↦
              loop_keeps P keeps is (modify i change ms) j m
                (get_elem?-modify_other i j change ms (λ same. ground (arith, nat_eq_iff i j)) ∙ h)
                p
        ])

  -- A change that leaves the roles leaves the indices of the results of tools.
  tool_indices-loop :
      (same : (m : Message) → (change m).role ≡ m.role) (n : ℕ) (is : List ℕ) (ms : List Message)
      → tool_indices n (loop is ms) ≡ tool_indices n ms
  unfolding loop change_until_fit
  tool_indices-loop same n [] ms = refl
  tool_indices-loop same n (i ∷ is) ms =
      loop_round (λ out. tool_indices n out ≡ tool_indices n ms) i is ms refl
        (tool_indices-loop same n is (modify i change ms) ∙ tool_indices-modify change same n i ms)

module _ (texts : Texts) (g : Manager) where
  drops : List ℕ → List Message → List Message
  drops = change_until_fit texts g placeholder

  -- The loop that drops results stops where the messages fit, or drops all that it is given.
  drops_fit_or_all :
      (is : List ℕ) (ms : List Message)
      → (total_tokens texts (drops is ms) ≤ token_budget g)
        ⊎ ((j : ℕ) (m : Message)
            → In j is
            → get_elem? ms j ≡ some m
            → get_elem? (drops is ms) j ≡ some (placeholder m))
  unfolding drops loop change_until_fit
  drops_fit_or_all [] ms = inr (λ j m h. absurd h)
  drops_fit_or_all (i ∷ is) ms = elim (Bool-cases (leb (total_tokens texts ms) (token_budget g))) [
    | inl e ↦ inl (rw e (ground arith))
    | inr e ↦ rw e (elim (drops_fit_or_all is (modify i placeholder ms)) [
      | inl fits ↦ inl fits
      | inr all ↦ inr (λ j m h there. elim (Bool-cases (nat_eq i j)) [
        | inl same ↦ dropped_here is i j m ms (all j) ((nat_eq_iff i j).0 same) there
        | inr other ↦ elim h [
          | inl e' ↦ absurd (ground (arith, nat_eq_iff i j))
          | inr listed ↦ all j m listed (
              get_elem?-modify_other i j placeholder ms (λ same. ground (arith, nat_eq_iff i j))
              ∙ there)
        ]
      ])
    ])
  ]
    where
      dropped_here :
          (is : List ℕ) (i j : ℕ) (m : Message) (ms : List Message)
          → ((m' : Message)
              → In j is
              → get_elem? (modify i placeholder ms) j ≡ some m'
              → get_elem? (drops is (modify i placeholder ms)) j ≡ some (placeholder m'))
          → i ≡ j
          → get_elem? ms j ≡ some m
          → get_elem? (drops is (modify i placeholder ms)) j ≡ some (placeholder m)
      dropped_here is i j m ms all same there =
          let now : get_elem? (modify i placeholder ms) j ≡ some (placeholder m) =
            subst (λ k. get_elem? (modify k placeholder ms) j ≡ some (placeholder m)) (sym same)
              (get_elem?-modify_same j placeholder ms m there) in
          let (m', found, kept) =
            loop_keeps texts g placeholder (λ x. x ≡ placeholder m) (λ x e. ap placeholder e) is
              (modify i placeholder ms) j (placeholder m) now refl in
          found ∙ ap some kept

  squeezed : List Message → List Message
  squeezed ms =
      change_until_fit texts g (compress_tool_message texts) (compressible_tool_indices g ms) ms

  compressible-squeezed :
      (ms : List Message)
      → compressible_tool_indices g (squeezed ms) ≡ compressible_tool_indices g ms
  unfolding squeezed compressible_tool_indices loop compress_tool_message
  compressible-squeezed ms =
      ap
        (λ is.
          if leb (length is) g.recency_window then [] else take (length is - g.recency_window) is)
        (tool_indices-loop texts g (compress_tool_message texts) (λ m. refl) 0
          (compressible_tool_indices g ms) ms)

  -- The three ways in which `compress_if_needed` ends.
  compress_cases :
      (ms : List Message)
      → ((compress_if_needed texts g ms ≡ ms) × (total_tokens texts ms ≤ token_budget g))
        ⊎ ((compress_if_needed texts g ms ≡ squeezed ms)
            × (total_tokens texts (squeezed ms) ≤ token_budget g))
        ⊎ (compress_if_needed texts g ms ≡ drops (compressible_tool_indices g ms) (squeezed ms))
  unfolding compress_if_needed drop_oldest_tool_results drops squeezed
  compress_cases ms = elim (Bool-cases (leb (total_tokens texts ms) (token_budget g))) [
    | inl e ↦ inl (rw e refl, ground arith)
    | inr e ↦ elim (Bool-cases (ltb (token_budget g) (total_tokens texts (squeezed ms)))) [
      | inr f ↦ inr (inl (rw (e, f) refl, ground arith))
      | inl f ↦ inr (inr (rw (e, f) (ap (λ is. drops is (squeezed ms)) (compressible-squeezed ms))))
    ]
  ]

  -- `compress_if_needed` returns as many messages as it is given, and changes none but the results of
  -- tools that at least `recency_window` later results of tools follow.
  pub compress_if_needed-keeps :
      (ms : List Message)
      → (length (compress_if_needed texts g ms) ≡ length ms)
        × ((i : ℕ)
            → ¬ IsOld g.recency_window ms i
            → get_elem? (compress_if_needed texts g ms) i ≡ get_elem? ms i)
  unfolding drops squeezed loop
  compress_if_needed-keeps ms = elim (compress_cases ms) [
    | inl (e, _) ↦ rw e (refl, λ i h. refl)
    | inr (inl (e, _)) ↦ rw e (length-loop texts g squeeze old ms, λ i h. not_squeezed i h)
    | inr (inr e) ↦ rw e (
      length-loop texts g placeholder old (squeezed ms) ∙ length-loop texts g squeeze old ms,
      λ i h. loop_other texts g placeholder old (squeezed ms) i (untouched i h) ∙ not_squeezed i h,
    )
  ]
    where
      squeeze : Message → Message
      squeeze = compress_tool_message texts

      old : List ℕ
      old = compressible_tool_indices g ms

      untouched : (i : ℕ) → ¬ IsOld g.recency_window ms i → ¬ In i old
      untouched i h listed = h ((compressible-IsOld g i ms).0 listed)

      not_squeezed :
          (i : ℕ) → ¬ IsOld g.recency_window ms i → get_elem? (squeezed ms) i ≡ get_elem? ms i
      not_squeezed i h = loop_other texts g squeeze old ms i (untouched i h)

  squeezed_id :
      (ms : List Message) (i : ℕ) (m : Message)
      → get_elem? ms i ≡ some m
      → (m' : Message) × (get_elem? (squeezed ms) i ≡ some m') × (m'.tool_call_id ≡ m.tool_call_id)
  unfolding squeezed loop compress_tool_message
  squeezed_id ms i m there =
      loop_keeps texts g (compress_tool_message texts) (λ x. x.tool_call_id ≡ m.tool_call_id)
        (λ x e. e) (compressible_tool_indices g ms) ms i m there refl

  placeholder_id :
      (m m' : Message) → m.tool_call_id ≡ m'.tool_call_id → placeholder m ≡ placeholder m'
  placeholder_id m m' e = rw e refl

  -- What `compress_if_needed` returns is within the token budget, or else every result of a tool that
  -- at least `recency_window` later ones follow is replaced by the placeholder with its id.
  pub compress_if_needed-fits :
      (ms : List Message)
      → (total_tokens texts (compress_if_needed texts g ms) ≤ token_budget g)
        ⊎ ((i : ℕ) (m : Message)
            → IsOld g.recency_window ms i
            → get_elem? ms i ≡ some m
            → get_elem? (compress_if_needed texts g ms) i ≡ some (placeholder m))
  unfolding drops squeezed loop
  compress_if_needed-fits ms = elim (compress_cases ms) [
    | inl (e, fits) ↦ inl (rw e fits)
    | inr (inl (e, fits)) ↦ inl (rw e fits)
    | inr (inr e) ↦ rw e (elim (drops_fit_or_all (compressible_tool_indices g ms) (squeezed ms)) [
      | inl fits ↦ inl fits
      | inr all ↦ inr (λ i m o there.
          let (m', found, same) = squeezed_id ms i m there in
          all i m' ((compressible-IsOld g i ms).1 o) found ∙ ap some (placeholder_id m' m same))
    ])
  ]
