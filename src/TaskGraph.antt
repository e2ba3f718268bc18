-- ===== src/TaskGraph.antt =====
-- core/task_graph.py: `TaskGraphScheduler`. A task is the keys of its dictionary that the scheduler
-- reads; the scheduler's state is the list of the tasks, whose statuses its methods change.
pub mod Validation
pub mod Release
pub mod Acyclic
pub mod Dependencies
pub mod Cycles
pub mod Statuses
pub mod Batch
pub mod Branches
use Prim.Native.Nat.{Ordering, max}
use Prim.Native.String.{compare}
use phylum.Common.{
  ℕ, zero, suc, String, Bool, true, false, not, Option, none, some, List, [], ◌∷◌, ◌++◌, ◌&&◌, ◌||◌,
  ◌==◌, if◌then◌else◌, leb, ltb, nat_eq, non_empty, text_in, one_of, distinct, filter, any, all,
  find?, truthy, is_some, map,
}
use phylum.Common.Sort.{sort}

-- `other` stands for a missing status and for any other text.
pub data Status : Type 0 where
  pending manual_step approved retry_scheduled running : Status
  completed partial failed blocked cancelled rejected skipped other : Status

-- SUCCESS_STATUSES, TERMINAL_STATUSES, RUNNABLE_STATUSES, and the statuses that block dependents.
unfoldable pub is_success : Status → Bool
is_success completed = true
is_success partial = true
is_success _ = false

unfoldable pub is_terminal : Status → Bool
is_terminal completed = true
is_terminal partial = true
is_terminal failed = true
is_terminal blocked = true
is_terminal cancelled = true
is_terminal rejected = true
is_terminal skipped = true
is_terminal _ = false

unfoldable pub is_runnable : Status → Bool
is_runnable pending = true
is_runnable manual_step = true
is_runnable approved = true
is_runnable retry_scheduled = true
is_runnable _ = false

unfoldable pub is_failure : Status → Bool
is_failure failed = true
is_failure blocked = true
is_failure cancelled = true
is_failure rejected = true
is_failure _ = false

-- `group` is `branch_group or alternative_group`. The texts of `error` and `skip_reason` are kept as
-- the values that they are made of.
pub record Task : Type 0 where
  pub id : String
  pub depends_on : List String
  pub status : Status
  pub group : Option String
  pub speculative : Bool
  pub strategy_speculative : Bool
  pub mutates : Bool
  pub semantic_type : Option String
  pub requires_approval : Bool
  pub priority : Option ℕ
  pub blocked_by : List String
  pub skipped_for : Option (String × String)

pub record Scheduler : Type 0 where
  pub tasks : List Task
  pub max_parallel : ℕ

-- `max(1, int(max_parallel or 1))`.
unfoldable pub scheduler : List Task → Option ℕ → Scheduler
scheduler tasks limit = record {
  tasks = tasks;
  max_parallel = elim limit [ none ↦ 1 | some n ↦ max 1 n ];
}

unfoldable pub is_speculative : Task → Bool
is_speculative t = t.speculative || t.strategy_speculative

unfoldable pub mutates_state : Task → Bool
mutates_state t = t.mutates || text_in t.semantic_type ("mutation" ∷ "transfer" ∷ "execution" ∷ [])

-- `self.by_id`: of two tasks with one id the later is kept.
unfoldable pub by_id : List Task → String → Option Task
by_id [] i = none
by_id (t ∷ ts) i =
    let later = by_id ts i in if is_some later then later else if t.id == i then some t else none

-- The elements of a set, each once.
-- `self.dependencies.get(task["id"], set())`.
unfoldable pub deps_of : List Task → Task → List String
unfolding by_id
deps_of tasks t = elim (by_id tasks t.id) [ none ↦ [] | some u ↦ distinct u.depends_on ]

-- `self.by_id[dep].get("status") in …`. The constructor has refused unknown dependencies.
unfoldable pub dep_is : (Status → Bool) → List Task → String → Bool
unfolding by_id
dep_is test tasks dep = elim (by_id tasks dep) [ none ↦ false | some u ↦ test u.status ]

unfoldable pub in_group : String → Task → Bool
in_group g t = elim t.group [ none ↦ false | some h ↦ truthy (some h) && h == g ]

-- The body of the loop over a group. The winner has a success status, so it is not runnable, and
-- the test that spares it changes nothing.
unfoldable pub skip_loser : String → Task → Task → Task
unfolding in_group is_runnable
skip_loser g winner t =
    if in_group g t && is_runnable t.status
    then record t { status = skipped; skipped_for = some (g, winner.id) }
    else t

unfoldable pub resolve_group : List Task → String → List Task
unfolding skip_loser is_success in_group
resolve_group tasks g = elim (find? (λ t. in_group g t && is_success t.status) tasks) [
  | none ↦ tasks
  | some winner ↦ map (skip_loser g winner) tasks
]

-- The groups of the tasks, each once.
unfoldable pub groups_of : List Task → List String
groups_of [] = []
groups_of (t ∷ ts) =
    let rest = groups_of ts in
    elim t.group [
      | none ↦ rest
      | some g ↦ if truthy (some g) && not (one_of g rest) then g ∷ rest else rest
    ]

unfoldable pub resolve_groups : List Task → List String → List Task
unfolding resolve_group
resolve_groups tasks [] = tasks
resolve_groups tasks (g ∷ gs) = resolve_groups (resolve_group tasks g) gs

unfoldable pub resolve_alternative_branches : List Task → List Task
unfolding resolve_groups groups_of
resolve_alternative_branches tasks = resolve_groups tasks (groups_of tasks)

unfoldable pub failed_deps : List Task → Task → List String
unfolding dep_is is_failure deps_of
failed_deps tasks t = filter (dep_is is_failure tasks) (deps_of tasks t)

-- The body of the loop of `mark_blocked_by_failed_dependencies`, at the tasks as they are then.
unfoldable pub mark_task : List Task → Task → Task
unfolding failed_deps is_runnable
mark_task tasks t =
    if is_runnable t.status && (non_empty (failed_deps tasks t) && not t.speculative)
    then record t { status = blocked; blocked_by = failed_deps tasks t }
    else t

-- The loop: `before` has been treated, `t` and the tasks behind it have not.
unfoldable pub mark_from : List Task → List Task → List Task
unfolding mark_task
mark_from before [] = before
mark_from before (t ∷ ts) = mark_from (before ++ mark_task (before ++ t ∷ ts) t ∷ []) ts

unfoldable pub mark_blocked : List Task → List Task
unfolding mark_from
mark_blocked tasks = mark_from [] tasks

unfoldable pub is_ready : List Task → Task → Bool
unfolding is_runnable deps_of is_speculative mutates_state dep_is is_success
is_ready tasks t =
    is_runnable t.status
    && (not (non_empty (deps_of tasks t))
        || ((is_speculative t && not (mutates_state t))
            || all (dep_is is_success tasks) (deps_of tasks t)))

-- `int(task.get("priority") or 50)`.
unfoldable pub effective_priority : Task → ℕ
effective_priority t = elim t.priority [ none ↦ 50 | some n ↦ if nat_eq n 0 then 50 else n ]

abbrev text_le : String → String → Bool
text_le a b = elim (compare a b) [ Ordering.gt ↦ false | _ ↦ true ]

-- The order of the keys: speculative tasks last, then by priority, then by id.
unfoldable pub before_or_same : Task → Task → Bool
unfolding is_speculative effective_priority
before_or_same a b =
    if is_speculative a then is_speculative b && by_priority else is_speculative b || by_priority
  where
    by_priority : Bool
    by_priority =
        ltb (effective_priority a) (effective_priority b)
        || (nat_eq (effective_priority a) (effective_priority b) && text_le a.id b.id)

-- A task that has to run alone.
unfoldable pub needs_alone : Task → Bool
unfolding mutates_state
needs_alone t = mutates_state t || t.requires_approval

-- The loop that fills a batch with `room` more tasks.
unfoldable pub collect : ℕ → List Task → List Task
unfolding needs_alone
collect zero ts = []
collect (suc room) [] = []
collect (suc room) (t ∷ ts) = elim (needs_alone t) [
  | true ↦ collect (suc room) ts
  | false ↦ t ∷ collect room ts
]

unfoldable pub pick : ℕ → List Task → List Task
unfolding collect needs_alone
pick limit [] = []
pick limit (first ∷ rest) =
    if needs_alone first
    then first ∷ []
    else if non_empty (collect limit (first ∷ rest))
    then collect limit (first ∷ rest)
    else first ∷ []

unfoldable pub ready_tasks : List Task → List Task
unfolding is_ready before_or_same
ready_tasks tasks = sort before_or_same (filter (is_ready tasks) tasks)

-- The two passes that change statuses.
unfoldable pub settle : List Task → List Task
unfolding resolve_alternative_branches mark_blocked
settle tasks = mark_blocked (resolve_alternative_branches tasks)

-- The tasks as they are left, and the batch.
unfoldable pub next_batch : Scheduler → Scheduler × List Task
unfolding settle ready_tasks pick
next_batch s =
    let tasks = settle s.tasks in
    (record s { tasks = tasks }, pick s.max_parallel (ready_tasks tasks))

unfoldable pub all_done : Scheduler → Scheduler × Bool
unfolding settle is_terminal
all_done s =
    let tasks = settle s.tasks in
    (record s { tasks = tasks }, all (λ t. is_terminal t.status) tasks)

unfoldable pub has_partial_completion : Scheduler → Bool
unfolding is_success
has_partial_completion s = any (λ t. is_success t.status) s.tasks

abbrev is_completed : Status → Bool
is_completed completed = true
is_completed _ = false

unfoldable pub can_finish_partially : Scheduler → Scheduler × Bool
unfolding all_done has_partial_completion
can_finish_partially s =
    let (s', done) = all_done s in
    (s', done && (has_partial_completion s' && any (λ t. not (is_completed t.status)) s'.tasks))
