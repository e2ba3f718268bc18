-- ===== src/EventBus/Delivery.antt =====
-- Whom the bus calls after any use of its operations: every handler once at most under a key.
use mathlib.Core.Path.{subst}
use phylum.Common.{
  ℕ, ◌+◌, ◌-◌, ◌≤◌, String, Bool, true, false, Option, none, some, List, [], ◌∷◌, ◌++◌, ◌==◌,
  if◌then◌else◌, nat_eq, map, ◌≡◌, refl, ap, sym, ◌∙◌, Bool-cases, inl, inr, nat_eq_iff, arith,
}
use phylum.Common.Dict.{Dict, get, put, get-put}
use phylum.EventBus.{
  EventType, value, of_value, Event, EventBus, new_bus, wildcard, mem, remove, handlers_at, add_at,
  subscribe, subscribe_all, unsubscribe, remove_if, unsubscribe_all, record_event, Emitted, emit,
  emit_raw, clear, custom,
}

count : ℕ → List ℕ → ℕ
count h [] = 0
count h (k ∷ ks) = if nat_eq k h then count h ks + 1 else count h ks

count-append : (h : ℕ) (xs ys : List ℕ) → count h (xs ++ ys) ≡ count h xs + count h ys
unfolding count
count-append h [] ys = omega arith
count-append h (x ∷ xs) ys = let ih = count-append h xs ys in ground arith

count-remove :
    (h k : ℕ) (xs : List ℕ)
    → count h (remove k xs) ≡ (if nat_eq h k then count h xs - 1 else count h xs)
unfolding count remove
count-remove h k [] = ground arith
count-remove h k (x ∷ xs) = let ih = count-remove h k xs in ground arith

count-mem : (h : ℕ) (xs : List ℕ) → mem h xs ≡ false → count h xs ≡ 0
unfolding count mem
count-mem h [] e = refl
count-mem h (x ∷ xs) e = let ih = count-mem h xs in ground arith

-- One call of the bus.
pub data Call : Type 0 where
  subscribes : EventType → ℕ → Call
  subscribes_all : ℕ → Call
  unsubscribes : EventType → ℕ → Call
  unsubscribes_all : ℕ → Call
  emits : (ℕ → Event → Bool) → EventType → Dict String → Option String → Call
  emits_raw : (ℕ → Event → Bool) → String → Dict String → Option String → Call
  clears : Call

unfoldable pub after_call : Call → EventBus → EventBus
unfolding subscribe subscribe_all unsubscribe unsubscribe_all emit emit_raw
after_call (subscribes t h) b = subscribe t h b
after_call (subscribes_all h) b = subscribe_all h b
after_call (unsubscribes t h) b = unsubscribe t h b
after_call (unsubscribes_all h) b = unsubscribe_all h b
after_call (emits raises t payload source) b = (emit raises t payload source b).bus
after_call (emits_raw raises text payload source) b = (emit_raw raises text payload source b).bus
after_call clears b = clear b

-- The bus after some calls, the last one first.
unfoldable pub after_calls : List Call → EventBus
unfolding after_call
after_calls [] = new_bus
after_calls (c ∷ cs) = after_call c (after_calls cs)

-- The handlers of every key are there once.
unfoldable IsOnce : EventBus → Type 0
IsOnce b = (key : String) (h : ℕ) → count h (handlers_at key b) ≤ 1

add-once :
    (h k : ℕ) (hs : List ℕ)
    → count h hs ≤ 1
    → (count k hs ≤ 1)
    → count h (if mem k hs then hs else hs ++ k ∷ []) ≤ 1
unfolding count
add-once h k hs p q = elim (Bool-cases (mem k hs)) [
  | inl e ↦ rw e p
  | inr e ↦ rw e (
      let none_yet = count-mem k hs e in
      let sum = count-append h hs (k ∷ []) in ground (arith, nat_eq_iff k h))
]

handlers_at-put :
    (key j : String) (hs : List ℕ) (b : EventBus)
    → handlers_at j (record b { handlers = put key hs b.handlers })
      ≡ (if key == j then hs else handlers_at j b)
unfolding handlers_at
handlers_at-put key j hs b =
    ap (λ o. elim o [ none ↦ [] | some xs ↦ xs ]) (get-put key j hs b.handlers)
    ∙ branches (key == j) hs (get j b.handlers)
  where
    branches :
        (c : Bool) (hs : List ℕ) (o : Option (List ℕ))
        → (elim (if c then some hs else o) [ none ↦ [] | some xs ↦ xs ])
          ≡ (if c then hs else (elim o [ none ↦ [] | some xs ↦ xs ]))
    branches true hs o = refl
    branches false hs o = refl

put-IsOnce :
    (key : String) (hs : List ℕ) (b : EventBus)
    → ((h : ℕ) → count h hs ≤ 1)
    → IsOnce b
    → IsOnce (record b { handlers = put key hs b.handlers })
unfolding IsOnce
put-IsOnce key hs b new once j k =
    subst (λ xs. count k xs ≤ 1) (sym (handlers_at-put key j hs b))
      (branches (key == j) hs (handlers_at j b) (new k) (once j k))
  where
    branches :
        (c : Bool) (xs ys : List ℕ)
        → count k xs ≤ 1
        → count k ys ≤ 1
        → count k (if c then xs else ys) ≤ 1
    branches true xs ys p q = p
    branches false xs ys p q = q

if-IsOnce : (c : Bool) (x y : EventBus) → IsOnce x → IsOnce y → IsOnce (if c then x else y)
if-IsOnce true x y p q = p
if-IsOnce false x y p q = q

add_at-IsOnce : (key : String) (h : ℕ) (b : EventBus) → IsOnce b → IsOnce (add_at key h b)
unfolding add_at IsOnce
add_at-IsOnce key h b once =
    put-IsOnce key
      (if mem h (handlers_at key b) then handlers_at key b else handlers_at key b ++ h ∷ []) b
      (λ k. add-once k h (handlers_at key b) (once key k) (once key h)) once

remove-once : (h k : ℕ) (hs : List ℕ) → count k hs ≤ 1 → count k (remove h hs) ≤ 1
remove-once h k hs p = let r = count-remove k h hs in ground arith

unsubscribe-IsOnce : (t : EventType) (h : ℕ) (b : EventBus) → IsOnce b → IsOnce (unsubscribe t h b)
unfolding unsubscribe IsOnce
unsubscribe-IsOnce t h b once =
    if-IsOnce (mem h (handlers_at (value t) b))
      (record b { handlers = put (value t) (remove h (handlers_at (value t) b)) b.handlers }) b
      (put-IsOnce (value t) (remove h (handlers_at (value t) b)) b
        (λ k. remove-once h k (handlers_at (value t) b) (once (value t) k)) once)
      once

get-map :
    (f : List ℕ → List ℕ) (key : String) (d : Dict (List ℕ))
    → get key (map (λ e. (e.0, f e.1)) d)
      ≡ (elim (get key d) [ none ↦ none | some hs ↦ some (f hs) ])
unfolding get
get-map f key [] = refl
get-map f key ((j, hs) ∷ d) = elim (Bool-cases (j == key)) [
  | inl e ↦ rw e refl
  | inr e ↦ rw e (get-map f key d)
]

remove_if-count :
    (h k : ℕ) (hs : List ℕ)
    → count k hs ≤ 1
    → (count h hs ≤ 1)
    → (count h (remove_if k hs) ≤ 1) × (count k (remove_if k hs) ≡ 0)
unfolding remove_if
remove_if-count h k hs p q = elim (Bool-cases (mem k hs)) [
  | inl e ↦ rw e (
      let r = count-remove h k hs in
      let u = count-remove k k hs in (ground arith, ground (arith, nat_eq_iff k k)))
  | inr e ↦ rw e (q, count-mem k hs e)
]

-- The handlers of a key, with one taken from every key.
handlers_at-unsubscribe_all :
    (h : ℕ) (b : EventBus) (key : String)
    → (handlers_at key (unsubscribe_all h b) ≡ remove_if h (handlers_at key b))
unfolding handlers_at unsubscribe_all remove_if mem
handlers_at-unsubscribe_all h b key =
    let found : Option (List ℕ) → List ℕ = λ o. elim o [ none ↦ [] | some xs ↦ xs ] in
    ap found (get-map (remove_if h) key b.handlers) ∙ branches (get key b.handlers)
  where
    branches :
        (o : Option (List ℕ))
        → (elim (elim o as (λ _. Option (List ℕ)) [
          | none ↦ none
          | some hs ↦ some (remove_if h hs)
        ]) [ none ↦ [] | some xs ↦ xs ])
          ≡ remove_if h (elim o [ none ↦ [] | some xs ↦ xs ])
    branches none = refl
    branches (some hs) = refl

unsubscribe_all-IsOnce : (h : ℕ) (b : EventBus) → IsOnce b → IsOnce (unsubscribe_all h b)
unfolding IsOnce
unsubscribe_all-IsOnce h b once key k =
    subst (λ xs. count k xs ≤ 1) (sym (handlers_at-unsubscribe_all h b key))
      (remove_if-count k h (handlers_at key b) (once key h) (once key k)).0

emit-handlers :
    (raises : ℕ → Event → Bool) (t : EventType) (payload : Dict String) (source : Option String)
    (b : EventBus)
    → (emit raises t payload source b).bus.handlers ≡ b.handlers
unfolding emit record_event
emit-handlers raises t payload source b = refl

emit_raw-handlers :
    (raises : ℕ → Event → Bool) (text : String) (payload : Dict String) (source : Option String)
    (b : EventBus)
    → (emit_raw raises text payload source b).bus.handlers ≡ b.handlers
unfolding emit_raw emit record_event
emit_raw-handlers raises text payload source b = branches (of_value text)
  where
    branches :
        (o : Option EventType)
        → (elim o as (λ _. Emitted) [
          | some t ↦ emit raises t payload source b
          | none ↦ emit raises custom (put "_original_type" text payload) source b
        ]).bus.handlers
          ≡ b.handlers
    branches none = refl
    branches (some t) = refl

same-IsOnce : (b c : EventBus) → c.handlers ≡ b.handlers → IsOnce b → IsOnce c
unfolding IsOnce handlers_at
same-IsOnce b c e once key h =
    subst (λ d. count h (elim (get key d) [ none ↦ [] | some hs ↦ hs ]) ≤ 1) (sym e) (once key h)

new_bus-IsOnce : IsOnce new_bus
unfolding IsOnce handlers_at get count
new_bus-IsOnce key h = omega arith

after_call-IsOnce : (c : Call) (b : EventBus) → IsOnce b → IsOnce (after_call c b)
unfolding after_call subscribe subscribe_all
after_call-IsOnce (subscribes t h) b once = add_at-IsOnce (value t) h b once
after_call-IsOnce (subscribes_all h) b once = add_at-IsOnce wildcard h b once
after_call-IsOnce (unsubscribes t h) b once = unsubscribe-IsOnce t h b once
after_call-IsOnce (unsubscribes_all h) b once = unsubscribe_all-IsOnce h b once
after_call-IsOnce (emits raises t payload source) b once =
    same-IsOnce b (emit raises t payload source b).bus (emit-handlers raises t payload source b)
      once
after_call-IsOnce (emits_raw raises text payload source) b once =
    same-IsOnce b (emit_raw raises text payload source b).bus
      (emit_raw-handlers raises text payload source b) once
after_call-IsOnce clears b once = new_bus-IsOnce

after_calls-IsOnce : (cs : List Call) → IsOnce (after_calls cs)
unfolding after_calls
after_calls-IsOnce [] = new_bus-IsOnce
after_calls-IsOnce (c ∷ cs) = after_call-IsOnce c (after_calls cs) (after_calls-IsOnce cs)

mem-append :
    (h : ℕ) (xs ys : List ℕ) → mem h xs ≡ false → mem h ys ≡ false → mem h (xs ++ ys) ≡ false
unfolding mem
mem-append h [] ys p q = q
mem-append h (x ∷ xs) ys p q = elim (Bool-cases (nat_eq x h)) [
  | inl e ↦ absurd (ground arith)
  | inr e ↦ rw e (mem-append h xs ys (ground arith) q)
]

count-none : (h : ℕ) (xs : List ℕ) → count h xs ≡ 0 → mem h xs ≡ false
unfolding count mem
count-none h [] e = refl
count-none h (x ∷ xs) e = let ih = count-none h xs in ground arith

gone :
    (cs : List Call) (h : ℕ) (key : String)
    → mem h (handlers_at key (unsubscribe_all h (after_calls cs))) ≡ false
unfolding IsOnce
gone cs h key =
    let hs = handlers_at key (after_calls cs) in
    let once = after_calls-IsOnce cs key h in
    subst (λ xs. mem h xs ≡ false) (sym (handlers_at-unsubscribe_all h (after_calls cs) key))
      (count-none h (remove_if h hs) (remove_if-count h h hs once once).1)

-- After any calls of the bus, a handler that `unsubscribe_all` then removes is not called for any
-- event.
pub unsubscribe_all-silent :
    (cs : List Call) (h : ℕ) (raises : ℕ → Event → Bool) (t : EventType) (payload : Dict String)
    (source : Option String)
    → mem h (emit raises t payload source (unsubscribe_all h (after_calls cs))).called ≡ false
unfolding emit
unsubscribe_all-silent cs h raises t payload source =
    mem-append h _ _ (gone cs h (value t)) (gone cs h wildcard)
