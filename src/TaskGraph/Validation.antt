-- ===== src/TaskGraph/Validation.antt =====
-- `TaskGraphScheduler.validate` with the parts of `__init__` that it reads: the dictionary of the
-- dependencies, and Kahn's algorithm.
use phylum.Common.{
  ℕ, zero, suc, ◌+◌, ◌-◌, String, Bool, not, Option, none, some, List, [], ◌∷◌, ◌++◌, if◌then◌else◌,
  nat_eq, filter, map, length, one_of, distinct, any,
}
use phylum.Common.Dict.{Dict, get, put, keys, has_key}
use phylum.TaskGraph.{Task}

-- `{task["id"]: set(task["depends_on"]) for task in tasks}`, from the dictionary made so far.
unfoldable pub add_dependencies : Dict (List String) → List Task → Dict (List String)
unfolding put
add_dependencies d [] = d
add_dependencies d (t ∷ ts) = add_dependencies (put t.id (distinct t.depends_on) d) ts

unfoldable pub dependencies : List Task → Dict (List String)
unfolding add_dependencies
dependencies tasks = add_dependencies [] tasks

-- `self.dependencies[task_id]`.
unfoldable pub depends : Dict (List String) → String → List String
unfolding get
depends d k = elim (get k d) [ none ↦ [] | some ds ↦ ds ]

-- `self.dependents.get(k, set())`: the tasks that depend on `k`, a set, here in the order of the tasks.
unfoldable pub dependents : Dict (List String) → String → List String
unfolding depends
dependents d k = filter (λ j. one_of k (depends d j)) (keys d)

unfoldable pub is_missing : Dict (List String) → Bool
unfolding depends
is_missing d = any (λ k. any (λ dep. not (has_key dep d)) (depends d k)) (keys d)

unfoldable pub degrees : Dict (List String) → Dict ℕ
unfolding depends
degrees d = map (λ k. (k, length (depends d k))) (keys d)

-- `self.indegree[k]`; the key is there.
unfoldable pub degree : Dict ℕ → String → ℕ
unfolding get
degree ind k = elim (get k ind) [ none ↦ 0 | some n ↦ n ]

-- The inner loop: the children of a task that has been taken from the queue.
unfoldable pub release : List String → Dict ℕ → List String → Dict ℕ × List String
unfolding degree put
release [] ind queue = (ind, queue)
release (child ∷ rest) ind queue =
    let left = degree ind child - 1 in
    release rest (put child left ind) (if nat_eq left 0 then queue ++ child ∷ [] else queue)

-- `while queue:`, which gives the number of tasks visited; `none` where the fuel runs out.
unfoldable pub drain : Dict (List String) → ℕ → Dict ℕ → List String → ℕ → Option ℕ
unfolding release dependents
drain d fuel ind [] visited = some visited
drain d zero ind (current ∷ queue) visited = none
drain d (suc fuel) ind (current ∷ queue) visited =
    let released = release (dependents d current) ind queue in
    drain d fuel released.0 released.1 (visited + 1)

pub data Validity : Type 0 where
  valid missing_dependencies cycle stuck : Validity

-- Every task is queued once, so there are at most as many rounds as tasks.
unfoldable pub validate : List Task → Validity
unfolding dependencies is_missing degrees degree drain
validate tasks =
    let d = dependencies tasks in
    let start = filter (λ k. nat_eq (degree (degrees d) k) 0) (keys d) in
    if is_missing d
    then missing_dependencies
    else elim (drain d (length (keys d)) (degrees d) start 0) [
      | none ↦ stuck
      | some visited ↦ if nat_eq visited (length (keys d)) then valid else cycle
    ]
