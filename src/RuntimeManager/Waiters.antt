-- ===== src/RuntimeManager/Waiters.antt =====
-- Who gets the answer to an approval.
use phylum.Common.{
  ℕ, String, Option, none, some, List, [], ◌∷◌, ◌++◌, ◌≡◌, ◌==◌, refl, ◌∙◌, inl, inr, length,
  get_elem?, modify, get_elem?-modify_same, Bool-cases, eq_refl,
}
use phylum.Common.Dict.{Dict, get, get-put}
use phylum.RuntimeManager.{Futures, set_result, register, wait_for_approval, pop, answer_waiter}

get_elem?-snoc :
    (xs : List (Option String)) (x : Option String) → get_elem? (xs ++ x ∷ []) (length xs) ≡ some x
get_elem?-snoc [] x = refl
get_elem?-snoc (y ∷ xs) x = get_elem?-snoc xs x

get-pop : (key : String) (entries : Dict ℕ) → get key (pop key entries) ≡ none
unfolding get pop
get-pop key [] = refl
get-pop key ((k, n) ∷ entries) = elim (Bool-cases (k == key)) [
  | inl e ↦ rw e (get-pop key entries)
  | inr e ↦ rw (e, get, e) (get-pop key entries)
]

-- A run whose approval has a future that is not done gets the status of the first resolution after
-- it began to wait.
pub wait-answered :
    (approval_id status : String) (f : Futures) (address : ℕ)
    → get approval_id f.waiters ≡ some address
    → get_elem? f.heap address ≡ some none
    → get_elem?
        (answer_waiter approval_id status (wait_for_approval approval_id f).0).heap
        (wait_for_approval approval_id f).1
      ≡ some (some status)
unfolding answer_waiter wait_for_approval set_result
wait-answered approval_id status f address here open_still =
    let waits : wait_for_approval approval_id f ≡ (f, address) =
      rw (here, wait_for_approval) refl in
    let answers : (answer_waiter approval_id status f).heap
        ≡ modify address (set_result status) f.heap =
      rw (here, answer_waiter) refl in
    rw (waits, answers) (get_elem?-modify_same address (set_result status) f.heap none open_still)

-- An approval that is resolved after it was created and before the run began to wait: the run waits on a
-- new future, which is not done.
pub resolve_lost :
    (approval_id status : String) (f : Futures)
    → get_elem?
        (wait_for_approval approval_id
          (answer_waiter approval_id status (register approval_id f))).0.heap
        (wait_for_approval approval_id
          (answer_waiter approval_id status (register approval_id f))).1
      ≡ some none
unfolding answer_waiter wait_for_approval register set_result
resolve_lost approval_id status f =
    let registered : get approval_id (register approval_id f).waiters ≡ some (length f.heap) =
      get-put approval_id approval_id (length f.heap) f.waiters ∙ rw (eq_refl approval_id) refl in
    let gone = get-pop approval_id (register approval_id f).waiters in
    let answered = answer_waiter approval_id status (register approval_id f) in
    let popped : answered.waiters ≡ pop approval_id (register approval_id f).waiters =
      rw (registered, answer_waiter) refl in
    let absent : get approval_id answered.waiters ≡ none = rw popped gone in
    let waits : wait_for_approval approval_id answered
        ≡ (register approval_id answered, length answered.heap) =
      rw (absent, wait_for_approval) refl in
    rw waits (get_elem?-snoc answered.heap none)
