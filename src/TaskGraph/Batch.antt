-- ===== src/TaskGraph/Batch.antt =====
-- What `next_batch` chooses.
use phylum.Common.{
  ℕ, zero, suc, ◌≤◌, ◌≡◌, ◌↔◌, ◌⊎◌, inl, inr, refl, Bool, true, false, not, Option, none, some,
  List, [], ◌∷◌, ◌&&◌, ◌||◌, arith, length, All, All-map, Bool-cases, non_empty, filter, filter-All,
  all,
}
use phylum.Common.Sort.{sort, sort-All, sort-nil_iff}
use phylum.TaskGraph.{
  Task, scheduler, is_runnable, is_success, is_speculative, mutates_state, deps_of, dep_is,
  is_ready, needs_alone, collect, pick, ready_tasks, settle, next_batch, before_or_same,
}

collect-All :
    (P : Task → Type 0) (room : ℕ) (ts : List Task)
    → All P ts
    → All (λ t. P t × (needs_alone t ≡ false)) (collect room ts)
unfolding collect
collect-All P zero ts h = tt
collect-All P (suc room) [] h = tt
collect-All P (suc room) (t ∷ ts) h = elim (Bool-cases (needs_alone t)) [
  | inl e ↦ rw (e, collect) (collect-All P (suc room) ts h.1)
  | inr e ↦ rw (e, collect) ((h.0, e), collect-All P room ts h.1)
]

length-collect : (room : ℕ) (ts : List Task) → length (collect room ts) ≤ room
unfolding collect
length-collect zero ts = omega arith
length-collect (suc room) [] = omega arith
length-collect (suc room) (t ∷ ts) =
    ground (arith, length-collect (suc room) ts, length-collect room ts)

ready_tasks-All : (tasks : List Task) → All (λ t. is_ready tasks t ≡ true) (ready_tasks tasks)
unfolding ready_tasks
ready_tasks-All tasks =
    sort-All before_or_same (λ t. is_ready tasks t ≡ true) (filter (is_ready tasks) tasks)
      (filter-All (is_ready tasks) tasks)

-- `t` may start: its status is runnable, and each of its dependencies has succeeded, or it is
-- speculative and does not change state.
pub record IsEligible (tasks : List Task) (t : Task) : Type 0 where
  pub runnable : is_runnable t.status ≡ true
  pub allowed :
      All (λ d. dep_is is_success tasks d ≡ true) (deps_of tasks t)
      ⊎ ((is_speculative t ≡ true) × (mutates_state t ≡ false))

all-All : {A : Type 0} (p : A → Bool) (xs : List A) → all p xs ≡ true → All (λ x. p x ≡ true) xs
all-All p [] h = tt
all-All p (x ∷ xs) h = ground (arith, all-All p xs)

ready_cases :
    (a n s m l : Bool)
    → (a && (not n || ((s && not m) || l))) ≡ true
    → (a ≡ true) × ((n ≡ false) ⊎ ((s ≡ true) × (m ≡ false)) ⊎ (l ≡ true))
ready_cases a n s m l h = ground arith

All-of_empty : {A : Type 0} (P : A → Type 0) (xs : List A) → non_empty xs ≡ false → All P xs
All-of_empty P [] h = tt
All-of_empty P (x ∷ xs) h = absurd (ground arith)

is_ready-IsEligible : (tasks : List Task) (t : Task) → is_ready tasks t ≡ true → IsEligible tasks t
unfolding is_ready
is_ready-IsEligible tasks t h =
    let (runs, why) =
      ready_cases (is_runnable t.status) (non_empty (deps_of tasks t)) (is_speculative t)
        (mutates_state t) (all (dep_is is_success tasks) (deps_of tasks t)) h in
    record {
      runnable = runs;
      allowed = elim why [
        | inl none_there ↦ inl (All-of_empty _ (deps_of tasks t) none_there)
        | inr (inl guess) ↦ inr guess
        | inr (inr met) ↦ inl (all-All (dep_is is_success tasks) (deps_of tasks t) met)
      ];
    }

-- A batch is one task, or tasks that neither change state nor wait for an approval.
abbrev pub IsSafeBatch : List Task → Type 0
IsSafeBatch ts = (length ts ≤ 1) ⊎ All (λ t. needs_alone t ≡ false) ts

pick_lem :
    (P : Task → Type 0) (limit : ℕ) (ts : List Task)
    → 1 ≤ limit
    → All P ts
    → All P (pick limit ts) × (length (pick limit ts) ≤ limit) × IsSafeBatch (pick limit ts)
unfolding pick
pick_lem P limit [] l h = (tt, omega arith, inl (omega arith))
pick_lem P limit (first ∷ rest) l h = elim (Bool-cases (needs_alone first)) [
  | inl e ↦ rw e ((h.0, tt), omega arith, inl (omega arith))
  | inr e ↦
      let c = collect-All P limit (first ∷ rest) h in
      elim (Bool-cases (non_empty (collect limit (first ∷ rest)))) [
        | inl some_left ↦
            rw (e, some_left)
              (
                All-map _ _ _ (λ t p. p.0) c,
                length-collect limit (first ∷ rest),
                inr (All-map _ _ _ (λ t p. p.1) c),
              )
        | inr empty ↦ rw (e, empty) ((h.0, tt), omega arith, inl (omega arith))
      ]
]

limit_pos : (tasks : List Task) (limit : Option ℕ) → 1 ≤ (scheduler tasks limit).max_parallel
unfolding scheduler
limit_pos tasks none = omega arith
limit_pos tasks (some n) = omega arith

-- In the statuses that `next_batch` leaves, every task of its batch is runnable, and all of its
-- dependencies have succeeded or it is speculative and changes no state; the batch has at most
-- `max_parallel` tasks, and a task that changes state or wants an approval is alone in it.
pub next_batch_lem :
    (tasks : List Task) (limit : Option ℕ)
    → All (IsEligible (settle tasks)) (next_batch (scheduler tasks limit)).1
      × (length (next_batch (scheduler tasks limit)).1 ≤ (scheduler tasks limit).max_parallel)
      × IsSafeBatch (next_batch (scheduler tasks limit)).1
unfolding next_batch scheduler
next_batch_lem tasks limit =
    pick_lem (IsEligible (settle tasks)) (scheduler tasks limit).max_parallel
      (ready_tasks (settle tasks)) (limit_pos tasks limit)
      (All-map _ _ _ (is_ready-IsEligible (settle tasks)) (ready_tasks-All (settle tasks)))

pick-nil : (limit : ℕ) (ts : List Task) → pick limit ts ≡ [] → ts ≡ []
unfolding pick
pick-nil limit [] h = refl
pick-nil limit (first ∷ rest) h = absurd (ground arith)

-- A batch is empty exactly when no task is ready in the statuses that `next_batch` leaves.
pub next_batch-nil_iff :
    (tasks : List Task) (limit : Option ℕ)
    → ((next_batch (scheduler tasks limit)).1 ≡ [])
      ↔ (filter (is_ready (settle tasks)) (settle tasks) ≡ [])
unfolding next_batch scheduler
next_batch-nil_iff tasks limit = (
  λ e. (sort-nil_iff before_or_same (filter (is_ready (settle tasks)) (settle tasks))).0 (
      unfold ready_tasks in
      pick-nil (scheduler tasks limit).max_parallel (ready_tasks (settle tasks)) e),
  λ e. unfold ready_tasks sort pick in rw e,
)
