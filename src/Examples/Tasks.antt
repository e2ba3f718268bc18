-- ===== src/Examples/Tasks.antt =====
-- A plan of three tasks: the second waits for the first, and the third, which is speculative and
-- changes state, for a task that has failed.
use phylum.Common.{◌≤◌, String, ◌≡◌, ◌↔◌, refl, true, false, none, some, List, [], ◌∷◌, length, All}
use phylum.TaskGraph.{Task, Status, pending, failed, completed, scheduler, settle, next_batch}
use phylum.TaskGraph.Batch.{IsEligible, IsSafeBatch, next_batch_lem}
use phylum.TaskGraph.Validation.{validate, valid, cycle, dependencies}
use phylum.TaskGraph.Dependencies.{IsAcyclic}
use phylum.TaskGraph.Cycles.{validate-valid_iff}

abbrev plain_task : String → List String → Status → Task
plain_task id depends_on status = record {
  id = id;
  depends_on = depends_on;
  status = status;
  group = none;
  speculative = false;
  strategy_speculative = false;
  mutates = false;
  semantic_type = none;
  requires_approval = false;
  priority = none;
  blocked_by = [];
  skipped_for = none;
}

abbrev guess : Task
guess = record (plain_task "guess" ("read" ∷ []) pending) { speculative = true; mutates = true }

abbrev tasks : List Task
tasks = plain_task "read" [] failed ∷ plain_task "list" [] pending ∷ guess ∷ []

next_batch_lem_example :
    All (IsEligible (settle tasks)) (next_batch (scheduler tasks (some 2))).1
    × (length (next_batch (scheduler tasks (some 2))).1 ≤ (scheduler tasks (some 2)).max_parallel)
    × IsSafeBatch (next_batch (scheduler tasks (some 2))).1
next_batch_lem_example = next_batch_lem tasks (some 2)

abbrev branches : List Task
branches =
    record (plain_task "first" [] completed) { group = some "way" }
    ∷ record (plain_task "second" [] pending) { group = some "way" }
    ∷ []

validate-valid_iff_example : validate tasks ≡ valid ↔ IsAcyclic (dependencies tasks)
validate-valid_iff_example = validate-valid_iff tasks

abbrev loop : List Task
loop = plain_task "a" ("b" ∷ []) pending ∷ plain_task "b" ("a" ∷ []) pending ∷ []

validate_accepts : validate tasks ≡ valid
unfolding validate
validate_accepts = refl

validate_rejects_cycle : validate loop ≡ cycle
unfolding validate
validate_rejects_cycle = refl
