-- ===== src/Queue/Attempts.antt =====
-- How often a goal is attempted: an invariant of the table under every operation of the queue.
use mathlib.Core.Path.{subst}
use phylum.Common.{
  &&-parts, ℕ, ◌-◌, String, ◌≡◌, ◌⊎◌, inl, inr, refl, Bool, true, false, Option, some, [], ◌∷◌,
  ◌++◌, arith, All, All-map, All-append, In, Bool-cases, Option-cases, filter, any, find?-In,
  eq_iff, filter-All_of, All-In_self,
}
use phylum.Queue.{
  Goal, Table, GoalStatus, Request, is_pending, is_waiting, is_held, has_id, update, enqueue,
  new_goal, dequeue, start_goal, mark_running, mark_completed, mark_failed, mark_cancelled,
  get_goal, fail_change, promote_deferred, is_promotable, recover_stale_running, is_stale,
  cleanup_old, seconds, may_dequeue,
}
use phylum.Queue.Dequeue.{dequeue_cases, next_goal-IsNext}
use phylum.Queue.Rows.{
  IsBounded, IsKeyed, IsSound, agree, all_of, update-IsSound, start-IsBounded, promote-IsBounded,
  plain-IsBounded, IsCurrent, fail-IsSound, recover-IsSound, agree-IsCurrent,
}

-- The operations of the queue that change the table.
pub data Step : Table → Table → Type 0 where
  enqueues :
      {rows rows' : Table} (goal_id : String) (now : ℕ) (r : Request) (g : Goal)
      → enqueue goal_id now r rows ≡ some (rows', g)
      → Step rows rows'
  dequeues :
      {rows rows' : Table} (workspace : Option String) (now : ℕ) (g : Goal)
      → dequeue workspace now rows ≡ (rows', some g)
      → Step rows rows'
  runs :
      {rows rows' : Table} (goal_id : String) (request_id : Option String) (now : ℕ)
      → rows' ≡ mark_running goal_id request_id now rows
      → Step rows rows'
  completes :
      {rows rows' : Table} (goal_id : String) (summary : Option String) (now : ℕ)
      → rows' ≡ mark_completed goal_id summary now rows
      → Step rows rows'
  fails :
      {rows rows' : Table} (goal_id error : String) (now later : ℕ)
      → rows' ≡ (mark_failed goal_id error now later rows).0
      → Step rows rows'
  cancels :
      {rows rows' : Table} (goal_id : String) (now : ℕ)
      → rows' ≡ mark_cancelled goal_id now rows
      → Step rows rows'
  promotes :
      {rows rows' : Table} (now : ℕ) → rows' ≡ (promote_deferred now rows).0 → Step rows rows'
  recovers :
      {rows rows' : Table} (stale_seconds now : ℕ) (clock : ℕ → ℕ)
      → rows' ≡ (recover_stale_running stale_seconds now clock rows).0
      → Step rows rows'
  cleans :
      {rows rows' : Table} (keep_days now : ℕ)
      → rows' ≡ (cleanup_old keep_days now rows).0
      → Step rows rows'

-- The tables that a sequence of operations makes of the empty table.
pub data Reach : Table → Type 0 where
  start : {rows : Table} → rows ≡ [] → Reach rows
  next : {rows rows' : Table} → Reach rows → Step rows rows' → Reach rows'

unmarked : (rows : Table) (test : Goal → Bool) → All (λ g. (test g ≡ false) ⊎ Unit {0}) rows
unmarked rows test = all_of _ rows (λ g. inr tt)

IsKeyed-filter : (test : Goal → Bool) (rows : Table) → IsKeyed rows → IsKeyed (filter test rows)
IsKeyed-filter test [] k = tt
IsKeyed-filter test (g ∷ rows) k = elim (Bool-cases (test g)) [
  | inl e ↦ rw e (
    All-map _ _ (filter test rows) (λ h p. p.0)
        (filter-All_of (λ h. has_id g.goal_id h ≡ false) test rows k.0),
    IsKeyed-filter test rows k.1,
  )
  | inr e ↦ rw e (IsKeyed-filter test rows k.1)
]

IsKeyed-snoc :
    (rows : Table) (g : Goal)
    → any (has_id g.goal_id) rows ≡ false
    → IsKeyed rows
    → IsKeyed (rows ++ g ∷ [])
IsKeyed-snoc [] g n k = (tt, tt)
IsKeyed-snoc (h ∷ rows) g n k = (
  All-append _ rows (g ∷ []) k.0
      (ground (arith, eq_iff h.goal_id g.goal_id, eq_iff g.goal_id h.goal_id), tt),
  IsKeyed-snoc rows g (ground arith) k.1,
)

held_pending : (st : GoalStatus) → is_held st ≡ true → is_pending st ≡ true
unfolding is_held is_pending
held_pending st h = ground arith

new-IsBounded : (goal_id : String) (now : ℕ) (r : Request) → IsBounded (new_goal goal_id now r)
unfolding new_goal
new-IsBounded goal_id now r = record { attempts = omega arith; room = inr (omega arith) }

allowed_waiting :
    (workspace : Option String) (now : ℕ) (g : Goal)
    → may_dequeue workspace now g ≡ true
    → is_waiting g.status ≡ true
unfolding may_dequeue
allowed_waiting workspace now g h = (&&-parts (is_waiting g.status) _ h).0

promotable_pending :
    (now : ℕ) (g : Goal) → (is_promotable now g ≡ false) ⊎ (is_pending g.status ≡ true)
unfolding is_promotable
promotable_pending now g = elim (Bool-cases (is_held g.status)) [
  | inl e ↦ inr (held_pending g.status e)
  | inr e ↦ inl (rw e)
]

enqueue-IsSound :
    (goal_id : String) (now : ℕ) (r : Request) (g : Goal) (rows rows' : Table)
    → enqueue goal_id now r rows ≡ some (rows', g)
    → IsSound rows
    → IsSound rows'
unfolding enqueue
enqueue-IsSound goal_id now r g rows rows' e s = elim (Bool-cases (any (has_id goal_id) rows)) [
  | inl taken ↦ absurd (ground arith)
  | inr free ↦
      let eq : rows' ≡ rows ++ new_goal goal_id now r ∷ [] = ground arith in
      rw eq (record {
        keyed = IsKeyed-snoc rows (new_goal goal_id now r) (unfold new_goal in free) s.keyed;
        bounded =
            All-append IsBounded rows (new_goal goal_id now r ∷ []) s.bounded
              (new-IsBounded goal_id now r, tt);
      })
]

get_goal-In :
    (goal_id : String) (rows : Table) (g : Goal)
    → get_goal goal_id rows ≡ some g
    → (has_id goal_id g ≡ true) × In g rows
unfolding get_goal
get_goal-In goal_id rows g e = find?-In (has_id goal_id) rows g e

mark_failed-IsSound :
    (goal_id error : String) (now later : ℕ) (rows : Table)
    → IsSound rows
    → IsSound (mark_failed goal_id error now later rows).0
unfolding mark_failed
mark_failed-IsSound goal_id error now later rows s = elim (Option-cases (get_goal goal_id rows)) [
  | inl e ↦ rw (e, mark_failed) s
  | inr (g, e) ↦
      let (named, listed) = get_goal-In goal_id rows g e in
      let same : g.goal_id ≡ goal_id = (eq_iff g.goal_id goal_id).0 named in
      rw (e, mark_failed)
        (subst (λ i. IsSound (update (has_id i) (fail_change error error now later g) rows)) same
          (fail-IsSound error error now later g rows (agree-IsCurrent rows g s.keyed listed) s))
]

currents :
    (reads rows : Table) → IsKeyed rows → All (λ g. In g rows) reads → All (IsCurrent rows) reads
currents reads rows k h = All-map _ _ reads (λ g m. agree-IsCurrent rows g k m) h

Step-IsSound : {rows rows' : Table} → Step rows rows' → IsSound rows → IsSound rows'
Step-IsSound {rows} {rows'} (enqueues goal_id now r g e) s =
    enqueue-IsSound goal_id now r g rows rows' e s
Step-IsSound {rows} {rows'} (dequeues workspace now g e) s =
    let (found, chosen, rows_eq, _) = dequeue_cases workspace now rows rows' g e in
    let at = next_goal-IsNext workspace now rows found chosen in
    rw rows_eq (
      update-IsSound (λ h. is_waiting h.status ≡ true) (has_id found.goal_id) (start_goal now) rows
        (λ h. unfold start_goal in refl) (start-IsBounded now) s
        (All-map _ _ rows (waits found at.allowed) (agree rows found s.keyed at.listed)))
  where
    waits :
        (found : Goal)
        → may_dequeue workspace now found ≡ true
        → (h : Goal) → (has_id found.goal_id h ≡ false) ⊎ (h ≡ found)
        → (has_id found.goal_id h ≡ false) ⊎ (is_waiting h.status ≡ true)
    waits found allowed h (inl e) = inl e
    waits found allowed h (inr e) = inr (rw e (allowed_waiting workspace now found allowed))
Step-IsSound {rows} (runs goal_id request_id now e) s = rw e (
    unfold mark_running is_pending in
    update-IsSound (λ _. Unit) (has_id goal_id) _ rows (λ g. refl)
      (λ g _ b. plain-IsBounded g _ refl refl refl b) s (unmarked rows _))
Step-IsSound {rows} (completes goal_id summary now e) s = rw e (
    unfold mark_completed is_pending in
    update-IsSound (λ _. Unit) (has_id goal_id) _ rows (λ g. refl)
      (λ g _ b. plain-IsBounded g _ refl refl refl b) s (unmarked rows _))
Step-IsSound {rows} (cancels goal_id now e) s = rw e (
    unfold mark_cancelled is_pending in
    update-IsSound (λ _. Unit) (has_id goal_id) _ rows (λ g. refl)
      (λ g _ b. plain-IsBounded g _ refl refl refl b) s (unmarked rows _))
Step-IsSound {rows} (fails goal_id error now later e) s =
    rw e (mark_failed-IsSound goal_id error now later rows s)
Step-IsSound {rows} (promotes now e) s = rw e (
    unfold promote_deferred in
    update-IsSound (λ g. is_pending g.status ≡ true) (is_promotable now) _ rows (λ g. refl)
      (λ g p b. promote-IsBounded now g p b) s (all_of _ rows (promotable_pending now)))
Step-IsSound {rows} (recovers stale_seconds now clock e) s = rw e (
    unfold recover_stale_running in
    recover-IsSound now clock _ 0 rows
      (currents _ rows s.keyed (
        All-map _ _ _ (λ g p. p.0)
          (filter-All_of (λ g. In g rows) (is_stale (now - seconds stale_seconds)) rows
            (All-In_self rows))))
      s)
Step-IsSound {rows} (cleans keep_days now e) s = rw e (
    unfold cleanup_old in
    record {
      keyed = IsKeyed-filter _ rows s.keyed;
      bounded = All-map _ _ _ (λ g p. p.0) (filter-All_of IsBounded _ rows s.bounded);
    })

-- In every table that the operations of the queue make, in any order and at any times, the ids are
-- distinct, no goal has been attempted more than `max(1, max_retries)` times, and a goal that is
-- queued, deferred or to be retried has an attempt left.
pub Reach-IsSound : {rows : Table} → Reach rows → IsSound rows
Reach-IsSound (start e) = rw e (record { keyed = tt; bounded = tt })
Reach-IsSound (next r st) = Step-IsSound st (Reach-IsSound r)
