-- ===== src/Examples/Queues.antt =====
-- A queue with one goal, which is taken, fails and is retried.
use phylum.Common.{◌+◌, ◌≡◌, refl, none, some, [], ◌∷◌}
use phylum.Common.Sort.{sort}
use phylum.Queue.{Goal, Table, Request, GoalStatus, running, enqueue, dequeue}
use phylum.Queue.Dequeue.{IsNext, dequeue-IsNext}
use phylum.Queue.Attempts.{start, next, enqueues, Reach-IsSound}
use phylum.Queue.Rows.{IsSound}

abbrev request : Request
request = record {
  inputs = "index the repository";
  workspace = "main";
  priority = 5;
  runtime_mode = "local";
  provider = none;
  model = none;
  parent_goal_id = none;
  max_retries = 2;
  retry_delay_seconds = 30;
  scheduled_at = none;
}

abbrev first_goal : Goal
first_goal = record {
  goal_id = "g1";
  workspace = "main";
  priority = 5;
  status = GoalStatus.queued;
  inputs = "index the repository";
  runtime_mode = "local";
  provider = none;
  model = none;
  parent_goal_id = none;
  request_id = none;
  attempt = 0;
  max_retries = 2;
  retry_delay_seconds = 30;
  error = none;
  result_summary = none;
  created_at = 10;
  updated_at = 10;
  scheduled_at = none;
  started_at = none;
  completed_at = none;
}

abbrev second_goal : Goal
second_goal = record first_goal { goal_id = "g2"; priority = 7 }

abbrev two_goals : Table
two_goals = first_goal ∷ second_goal ∷ []

abbrev taken : Goal
taken = record first_goal { status = running; attempt = 1; started_at = some 20 }

abbrev after_first : Table
after_first = record taken { updated_at = 20 } ∷ second_goal ∷ []

dequeue-IsNext_example :
    (old : Goal) × IsNext none 20 two_goals old
    × (taken.goal_id ≡ old.goal_id)
    × (taken.attempt ≡ old.attempt + 1)
    × (taken.status ≡ running)
    × (taken.started_at ≡ some 20)
unfolding dequeue sort
dequeue-IsNext_example = dequeue-IsNext none 20 two_goals after_first taken refl

Reach-IsSound_example : IsSound (first_goal ∷ [])
unfolding enqueue
Reach-IsSound_example = Reach-IsSound (next (start refl) (enqueues "g1" 10 request first_goal refl))
