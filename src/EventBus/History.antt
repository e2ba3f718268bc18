-- ===== src/EventBus/History.antt =====
-- What the bus remembers of the events that were emitted.
use phylum.Common.{
  ℕ, zero, suc, ◌+◌, ◌-◌, ◌≤◌, String, Bool, Option, none, some, List, [], ◌∷◌, ◌++◌, ltb, length,
  drop, ◌≡◌, refl, ap, sym, ◌∙◌, Bool-cases, inl, inr, arith, length-append, length-drop,
}
use phylum.Common.Dict.{Dict, put}
use phylum.EventBus.{
  EventType, value, of_value, Event, EventBus, max_history, mem, handlers_at, subscribe,
  subscribe_all, add_at, unsubscribe, unsubscribe_all, last_n, record_event, emit, Emitted,
  emit_raw, custom,
}
use phylum.EventBus.Delivery.{
  Call, subscribes, subscribes_all, unsubscribes, unsubscribes_all, emits, emits_raw, clears,
  after_call, after_calls,
}

drop-append :
    {A : Type 0} (n : ℕ) (xs ys : List A) → n ≤ length xs → drop n (xs ++ ys) ≡ drop n xs ++ ys
drop-append zero xs ys h = refl
drop-append (suc n) [] ys h = absurd (omega arith)
drop-append (suc n) (x ∷ xs) ys h = drop-append n xs ys (omega arith)

suc_first : (m n : ℕ) → suc (m + n) ≡ suc m + n
suc_first m n = omega arith

drop-nil : {A : Type 0} (n : ℕ) → drop {A = A} n [] ≡ []
drop-nil zero = refl
drop-nil (suc n) = refl

drop-drop : {A : Type 0} (n m : ℕ) (xs : List A) → drop n (drop m xs) ≡ drop (m + n) xs
drop-drop n zero xs = ap (λ k. drop k xs) (omega arith)
drop-drop n (suc m) [] = drop-nil n ∙ ap (λ k. drop k []) (suc_first m n)
drop-drop n (suc m) (x ∷ xs) = drop-drop n m xs ∙ ap (λ k. drop k (x ∷ xs)) (suc_first m n)

last_n-short : {A : Type 0} (n : ℕ) (xs : List A) → length xs ≤ n → last_n n xs ≡ xs
unfolding last_n
last_n-short n xs h =
    let none_over : length xs - n ≡ 0 = omega arith in ap (λ k. drop k xs) none_over

-- One more element after the last `n`.
last_n-snoc :
    {A : Type 0} (n : ℕ) (xs : List A) (x : A)
    → last_n n (last_n n xs ++ x ∷ []) ≡ last_n n (xs ++ x ∷ [])
unfolding last_n
last_n-snoc n xs x =
    let over = length xs - n in
    let longer = xs ++ x ∷ [] in
    let same : drop over longer ≡ drop over xs ++ x ∷ [] =
      drop-append over xs (x ∷ []) (omega arith) in
    let number : over + (length (drop over longer) - n) ≡ length longer - n =
      omega (arith, length-drop over longer, length-append xs (x ∷ [])) in
    ap (λ ys. drop (length ys - n) ys) (sym same)
    ∙ drop-drop (length (drop over longer) - n) over longer
    ∙ ap (λ k. drop k longer) number

record_event-last_n :
    (e : Event) (b : EventBus)
    → (record_event e b).history ≡ last_n max_history (b.history ++ e ∷ [])
unfolding record_event
record_event-last_n e b = elim (Bool-cases (ltb max_history (length (b.history ++ e ∷ [])))) [
  | inl h ↦ rw h refl
  | inr h ↦ rw h (sym (last_n-short max_history (b.history ++ e ∷ []) (ground arith)))
]

-- The events since the last `clear`, the first one first. `emit_raw` emits a custom event, with the
-- text under `_original_type`, where the text is no event type.
abbrev pub event_of : EventType → Dict String → Option String → Event
event_of t payload source = record { type = t; payload = payload; source = source }

unfoldable pub emitted : List Call → List Event
emitted [] = []
emitted (clears ∷ cs) = []
emitted (emits raises t payload source ∷ cs) = emitted cs ++ event_of t payload source ∷ []
emitted (emits_raw raises text payload source ∷ cs) =
    emitted cs
    ++ (elim (of_value text) [
      | some t ↦ event_of t payload source
      | none ↦ event_of custom (put "_original_type" text payload) source
    ])
      ∷ []
emitted (subscribes t h ∷ cs) = emitted cs
emitted (subscribes_all h ∷ cs) = emitted cs
emitted (unsubscribes t h ∷ cs) = emitted cs
emitted (unsubscribes_all h ∷ cs) = emitted cs

unsubscribe-history :
    (t : EventType) (h : ℕ) (b : EventBus) → (unsubscribe t h b).history ≡ b.history
unfolding unsubscribe
unsubscribe-history t h b = elim (Bool-cases (mem h (handlers_at (value t) b))) [
  | inl e ↦ rw (e, unsubscribe) refl
  | inr e ↦ rw (e, unsubscribe) refl
]

emit_raw-history :
    (raises : ℕ → Event → Bool) (text : String) (payload : Dict String) (source : Option String)
    (b : EventBus)
    → (emit_raw raises text payload source b).bus.history
      ≡ last_n max_history (
          b.history
          ++ (elim (of_value text) [
            | some t ↦ event_of t payload source
            | none ↦ event_of custom (put "_original_type" text payload) source
          ])
            ∷ [])
unfolding emit_raw emit
emit_raw-history raises text payload source b = branches (of_value text)
  where
    branches :
        (o : Option EventType)
        → (elim o as (λ _. Emitted) [
          | some t ↦ emit raises t payload source b
          | none ↦ emit raises custom (put "_original_type" text payload) source b
        ]).bus.history
          ≡ last_n max_history (
              b.history
              ++ (elim o [
                | some t ↦ event_of t payload source
                | none ↦ event_of custom (put "_original_type" text payload) source
              ])
                ∷ [])
    branches none =
        record_event-last_n (event_of custom (put "_original_type" text payload) source) b
    branches (some t) = record_event-last_n (event_of t payload source) b

-- After any calls of the bus, its history is the last 500 of the events that were emitted since it
-- was last cleared, in their order.
pub history-last_n : (cs : List Call) → (after_calls cs).history ≡ last_n max_history (emitted cs)
unfolding after_calls after_call subscribe subscribe_all add_at unsubscribe_all emit emitted last_n
history-last_n [] = refl
history-last_n (clears ∷ cs) = refl
history-last_n (emits raises t payload source ∷ cs) =
    record_event-last_n (event_of t payload source) (after_calls cs)
    ∙ ap (λ es. last_n max_history (es ++ event_of t payload source ∷ [])) (history-last_n cs)
    ∙ last_n-snoc max_history (emitted cs) (event_of t payload source)
history-last_n (emits_raw raises text payload source ∷ cs) =
    let e : Event = elim (of_value text) [
      | some t ↦ event_of t payload source
      | none ↦ event_of custom (put "_original_type" text payload) source
    ] in
    emit_raw-history raises text payload source (after_calls cs)
    ∙ ap (λ es. last_n max_history (es ++ e ∷ [])) (history-last_n cs)
    ∙ last_n-snoc max_history (emitted cs) e
history-last_n (subscribes t h ∷ cs) = history-last_n cs
history-last_n (subscribes_all h ∷ cs) = history-last_n cs
history-last_n (unsubscribes t h ∷ cs) =
    unsubscribe-history t h (after_calls cs) ∙ history-last_n cs
history-last_n (unsubscribes_all h ∷ cs) = history-last_n cs
