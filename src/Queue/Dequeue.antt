-- ===== src/Queue/Dequeue.antt =====
-- Which goal `dequeue` takes, and what becomes of it.
use phylum.Common.{
  In-All, eq_iff, ap, ℕ, ◌+◌, String, ◌≡◌, ◌≢◌, ◌↔◌, ◌⊎◌, inl, inr, refl, Bool, true, false, Option,
  none, some, List, [], ◌∷◌, ◌&&◌, arith, All, In, Bool-cases, Option-cases, filter, head?,
}
use phylum.Common.Sort.{sort, sort-nil_iff}
use phylum.Common.Select.{head-IsFirst}
use phylum.Queue.{
  Goal, GoalStatus, Table, running, is_waiting, has_id, update, may_dequeue, queue_le, next_goal,
  start_goal, dequeue,
}

queue_le_total : (a b : Goal) → queue_le a b ≡ false → queue_le b a ≡ true
unfolding queue_le
queue_le_total a b h = ground arith

queue_le_trans : (a b c : Goal) → queue_le a b ≡ true → queue_le b c ≡ true → queue_le a c ≡ true
unfolding queue_le
queue_le_trans a b c h k = ground arith

-- `g` stands in the table and may be taken, and every row that may be taken comes after it in the
-- order of priority and age, or is level with it.
pub record IsNext (workspace : Option String) (now : ℕ) (rows : Table) (g : Goal) : Type 0 where
  pub listed : In g rows
  pub allowed : may_dequeue workspace now g ≡ true
  pub least : All (λ h. (may_dequeue workspace now h ≡ false) ⊎ (queue_le g h ≡ true)) rows

-- The goal that is taken next is the first in priority and age of those that may be taken.
pub next_goal-IsNext :
    (workspace : Option String) (now : ℕ) (rows : Table) (g : Goal)
    → next_goal workspace now rows ≡ some g
    → IsNext workspace now rows g
unfolding next_goal
next_goal-IsNext workspace now rows g h =
    let first =
      head-IsFirst queue_le queue_le_total queue_le_trans (may_dequeue workspace now) rows g h in
    record { listed = first.listed; allowed = first.allowed; least = first.least }

-- What holds of every changed and of every other row holds after an UPDATE.
pub update-All :
    (P : Goal → Type 0) (test : Goal → Bool) (change : Goal → Goal) (rows : Table)
    → ((g : Goal) → test g ≡ true → P (change g))
    → ((g : Goal) → test g ≡ false → P g)
    → All P (update test change rows)
unfolding update
update-All P test change [] yes_part no_part = tt
update-All P test change (g ∷ rows) yes_part no_part = elim (Bool-cases (test g)) [
  | inl e ↦ rw e (yes_part g e, update-All P test change rows yes_part no_part)
  | inr e ↦ rw e (no_part g e, update-All P test change rows yes_part no_part)
]

-- `dequeue` by its cases.
pub dequeue_cases :
    (workspace : Option String) (now : ℕ) (rows rows' : Table) (g : Goal)
    → dequeue workspace now rows ≡ (rows', some g)
    → (found : Goal) × (next_goal workspace now rows ≡ some found)
      × (rows' ≡ update (has_id found.goal_id) (start_goal now) rows)
      × (g ≡ record (start_goal now found) { updated_at = found.updated_at })
unfolding dequeue
dequeue_cases workspace now rows rows' g h = elim (Option-cases (next_goal workspace now rows)) [
  | inl e ↦ absurd (ground arith)
  | inr (found, e) ↦
      let pair : (
        update (has_id found.goal_id) (start_goal now) rows,
        some (record (start_goal now found) { updated_at = found.updated_at }),
      )
          ≡ (rows', some g) =
        rw (e, dequeue) at h in
      (found, e, ground arith, ground arith)
]

running_start : (now : ℕ) (g : Goal) → (start_goal now g).status ≡ running
unfolding start_goal
running_start now g = refl

goal_id_start :
    (now : ℕ) (g found : Goal)
    → g ≡ record (start_goal now found) { updated_at = found.updated_at }
    → g.goal_id ≡ found.goal_id
unfolding start_goal
goal_id_start now g found e = ap (λ (x : Goal). x.goal_id) e

running_not_waiting : (st : GoalStatus) → st ≡ running → is_waiting st ≡ false
unfolding is_waiting
running_not_waiting st e = ground arith

and_false : (a b : Bool) → a ≡ false → (a && b) ≢ true
and_false a b e h = ground arith

running_waits :
    (workspace : Option String) (now : ℕ) (g : Goal)
    → g.status ≡ running
    → may_dequeue workspace now g ≢ true
unfolding may_dequeue
running_waits workspace now g e h =
    and_false (is_waiting g.status) _ (running_not_waiting g.status e) h

-- A goal that `dequeue` has returned is not taken again from the table that it leaves, whatever the
-- workspace and the time of the next call.
pub dequeue_once :
    (workspace again : Option String) (now later : ℕ) (rows rows' : Table) (g h : Goal)
    → dequeue workspace now rows ≡ (rows', some g)
    → next_goal again later rows' ≡ some h
    → h.goal_id ≢ g.goal_id
dequeue_once workspace again now later rows rows' g h taken next same =
    let (found, _, rows_eq, g_eq) = dequeue_cases workspace now rows rows' g taken in
    let chosen = next_goal-IsNext again later rows' h next in
    let started : All (λ x. (has_id found.goal_id x ≡ false) ⊎ (x.status ≡ running)) rows' =
      rw rows_eq (
        update-All _ (has_id found.goal_id) (start_goal now) rows (λ x e. inr (running_start now x))
          (λ x e. inl e)) in
    let id_eq : g.goal_id ≡ found.goal_id = goal_id_start now g found g_eq in
    elim (In-All _ h rows' chosen.listed started) [
      | inl e ↦ absurd (ground (arith, eq_iff h.goal_id found.goal_id))
      | inr e ↦ absurd (running_waits again later h e chosen.allowed)
    ]

-- A goal that `dequeue` returns has the id of the row that is next in priority and age of those that
-- may be taken; it is running since now, with one more attempt than the row.
pub dequeue-IsNext :
    (workspace : Option String) (now : ℕ) (rows rows' : Table) (g : Goal)
    → dequeue workspace now rows ≡ (rows', some g)
    → (old : Goal) × IsNext workspace now rows old
      × (g.goal_id ≡ old.goal_id)
      × (g.attempt ≡ old.attempt + 1)
      × (g.status ≡ running)
      × (g.started_at ≡ some now)
unfolding start_goal
dequeue-IsNext workspace now rows rows' g h =
    let (found, chosen, _, g_eq) = dequeue_cases workspace now rows rows' g h in
    (
      found,
      next_goal-IsNext workspace now rows found chosen,
      ap (λ (x : Goal). x.goal_id) g_eq,
      ap (λ (x : Goal). x.attempt) g_eq,
      ap (λ (x : Goal). x.status) g_eq,
      ap (λ (x : Goal). x.started_at) g_eq,
    )

filter-nil-All : (p : Goal → Bool) (rows : Table) → filter p rows ≡ [] → All (λ g. p g ≡ false) rows
filter-nil-All p [] h = tt
filter-nil-All p (g ∷ rows) h = ground (arith, filter-nil-All p rows)

All-filter-nil : (p : Goal → Bool) (rows : Table) → All (λ g. p g ≡ false) rows → filter p rows ≡ []
All-filter-nil p [] h = refl
All-filter-nil p (g ∷ rows) h = rw h.0 (All-filter-nil p rows h.1)

head-none : (gs : List Goal) → head? gs ≡ none → gs ≡ []
head-none [] h = refl
head-none (g ∷ gs) h = absurd (ground arith)

next_goal-nil :
    (workspace : Option String) (now : ℕ) (rows : Table)
    → next_goal workspace now rows ≡ none
    → filter (may_dequeue workspace now) rows ≡ []
unfolding next_goal
next_goal-nil workspace now rows e =
    (sort-nil_iff queue_le (filter (may_dequeue workspace now) rows)).0 (head-none _ e)

next_none :
    (workspace : Option String) (now : ℕ) (rows : Table)
    → (dequeue workspace now rows).1 ≡ none
    → next_goal workspace now rows ≡ none
unfolding dequeue
next_none workspace now rows h = ground arith

next_goal-none :
    (workspace : Option String) (now : ℕ) (rows : Table)
    → filter (may_dequeue workspace now) rows ≡ []
    → next_goal workspace now rows ≡ none
unfolding next_goal sort
next_goal-none workspace now rows e = rw e

none_next :
    (workspace : Option String) (now : ℕ) (rows : Table)
    → filter (may_dequeue workspace now) rows ≡ []
    → (dequeue workspace now rows).1 ≡ none
unfolding dequeue
none_next workspace now rows e = rw (next_goal-none workspace now rows e, dequeue)

-- `dequeue` returns nothing exactly when no row of the table may be taken.
pub dequeue-none_iff :
    (workspace : Option String) (now : ℕ) (rows : Table)
    → ((dequeue workspace now rows).1 ≡ none) ↔ All (λ h. may_dequeue workspace now h ≡ false) rows
dequeue-none_iff workspace now rows = (
  λ e.
      filter-nil-All (may_dequeue workspace now) rows
        (next_goal-nil workspace now rows (next_none workspace now rows e)),
  λ a. none_next workspace now rows (All-filter-nil (may_dequeue workspace now) rows a),
)
