-- ===== src/Queue.antt =====
-- persistence/durable_queue.py: `DurableQueue`. The table `goal_queue` is the list of its rows; a
-- statement of SQL is a function on that list. Times are numbers of microseconds, which compare as
-- the ISO texts of the source do; the values of the clock are arguments.
pub mod Dequeue
pub mod Rows
pub mod Attempts
use mathlib.Core.Bool.{decide}
use phylum.Common.{
  is_text, ℕ, zero, suc, ◌+◌, ◌-◌, ◌*◌, String, Bool, true, false, not, Option, none, some, List,
  [], ◌∷◌, ◌++◌, ◌&&◌, ◌||◌, ◌==◌, if◌then◌else◌, leb, ltb, nat_eq, filter, any, find?, truthy,
  is_some, map, length, take, head?, or_else,
}
use phylum.Common.Sort.{sort}

pub data GoalStatus : Type 0 where
  queued running completed failed cancelled deferred retrying : GoalStatus

unfoldable pub is_waiting : GoalStatus → Bool
is_waiting queued = true
is_waiting retrying = true
is_waiting _ = false

unfoldable pub is_held : GoalStatus → Bool
is_held deferred = true
is_held retrying = true
is_held _ = false

unfoldable pub is_pending : GoalStatus → Bool
is_pending queued = true
is_pending retrying = true
is_pending deferred = true
is_pending _ = false

unfoldable pub is_closed : GoalStatus → Bool
is_closed completed = true
is_closed failed = true
is_closed cancelled = true
is_closed _ = false

unfoldable pub is_running : GoalStatus → Bool
is_running running = true
is_running _ = false

pub record Goal : Type 0 where
  pub goal_id : String
  pub workspace : String
  pub priority : ℕ
  pub status : GoalStatus
  pub inputs : String
  pub runtime_mode : String
  pub provider : Option String
  pub model : Option String
  pub parent_goal_id : Option String
  pub request_id : Option String
  pub attempt : ℕ
  pub max_retries : ℕ
  pub retry_delay_seconds : ℕ
  pub error : Option String
  pub result_summary : Option String
  pub created_at : ℕ
  pub updated_at : ℕ
  pub scheduled_at : Option ℕ
  pub started_at : Option ℕ
  pub completed_at : Option ℕ

abbrev pub Table : Type 0
Table = List Goal

-- What a caller of `enqueue` gives.
pub record Request : Type 0 where
  pub inputs : String
  pub workspace : String
  pub priority : ℕ
  pub runtime_mode : String
  pub provider : Option String
  pub model : Option String
  pub parent_goal_id : Option String
  pub max_retries : ℕ
  pub retry_delay_seconds : ℕ
  pub scheduled_at : Option ℕ

abbrev pub seconds : ℕ → ℕ
seconds n = n * 1_000_000

abbrev pub days : ℕ → ℕ
days n = seconds (n * 86_400)

-- UPDATE … SET … WHERE ….
unfoldable pub update : (Goal → Bool) → (Goal → Goal) → Table → Table
update test change rows = map (λ g. if test g then change g else g) rows

abbrev pub has_id : String → Goal → Bool
has_id i g = g.goal_id == i

-- `WHERE workspace = ?`, which is there only for a truthy workspace.
unfoldable pub in_workspace : Option String → Goal → Bool
in_workspace workspace g = elim workspace [
  | none ↦ true
  | some w ↦ if truthy (some w) then g.workspace == w else true
]

unfoldable pub new_goal : String → ℕ → Request → Goal
new_goal goal_id now r = record {
  goal_id = goal_id;
  workspace = r.workspace;
  priority = r.priority;
  status = elim r.scheduled_at [ none ↦ queued | some t ↦ deferred ];
  inputs = r.inputs;
  runtime_mode = r.runtime_mode;
  provider = r.provider;
  model = r.model;
  parent_goal_id = r.parent_goal_id;
  request_id = none;
  attempt = 0;
  max_retries = r.max_retries;
  retry_delay_seconds = r.retry_delay_seconds;
  error = none;
  result_summary = none;
  created_at = now;
  updated_at = now;
  scheduled_at = r.scheduled_at;
  started_at = none;
  completed_at = none;
}

-- INSERT refuses a primary key that is there (`none`).
unfoldable pub enqueue : String → ℕ → Request → Table → Option (Table × Goal)
unfolding new_goal
enqueue goal_id now r rows =
    if any (has_id goal_id) rows
    then none
    else some (rows ++ new_goal goal_id now r ∷ [], new_goal goal_id now r)

-- `scheduled_at IS NULL OR scheduled_at <= ?`.
unfoldable pub is_due : ℕ → Goal → Bool
is_due now g = elim g.scheduled_at [ none ↦ true | some t ↦ leb t now ]

unfoldable pub may_dequeue : Option String → ℕ → Goal → Bool
unfolding in_workspace is_due is_waiting
may_dequeue workspace now g = is_waiting g.status && (in_workspace workspace g && is_due now g)

-- ORDER BY priority ASC, created_at ASC.
unfoldable pub queue_le : Goal → Goal → Bool
queue_le a b =
    ltb a.priority b.priority || (nat_eq a.priority b.priority && leb a.created_at b.created_at)

unfoldable pub next_goal : Option String → ℕ → Table → Option Goal
unfolding may_dequeue queue_le
next_goal workspace now rows = head? (sort queue_le (filter (may_dequeue workspace now) rows))

unfoldable pub start_goal : ℕ → Goal → Goal
start_goal now g = record g {
  status = running;
  started_at = some now;
  updated_at = now;
  attempt = g.attempt + 1;
}

-- The goal that is returned has the new status, start and attempt, and the old `updated_at`.
unfoldable pub dequeue : Option String → ℕ → Table → Table × Option Goal
unfolding next_goal start_goal update
dequeue workspace now rows = elim (next_goal workspace now rows) [
  | none ↦ (rows, none)
  | some g ↦ (
    update (has_id g.goal_id) (start_goal now) rows,
    some (record (start_goal now g) { updated_at = g.updated_at }),
  )
]

unfoldable pub mark_running : String → Option String → ℕ → Table → Table
unfolding update
mark_running goal_id request_id now = update (has_id goal_id) λ g. record g {
  status = running;
  request_id = request_id;
  started_at = some (or_else g.started_at now);
  updated_at = now;
}

unfoldable pub mark_completed : String → Option String → ℕ → Table → Table
unfolding update
mark_completed goal_id summary now = update (has_id goal_id) λ g. record g {
  status = completed;
  result_summary = summary;
  completed_at = some now;
  updated_at = now;
}

-- `later` is the second reading of the clock, for the retry.
unfoldable pub retry_goal : String → ℕ → ℕ → ℕ → Goal → Goal
retry_goal error now later delay g = record g {
  status = retrying;
  error = some error;
  scheduled_at = some (later + seconds delay);
  updated_at = now;
}

unfoldable pub give_up : String → ℕ → Goal → Goal
give_up error now g = record g {
  status = failed;
  error = some error;
  completed_at = some now;
  updated_at = now;
}

-- What a failed attempt does to the row that was read.
unfoldable pub fail_change : String → String → ℕ → ℕ → Goal → Goal → Goal
unfolding retry_goal give_up
fail_change retry_error final_error now later read =
    if ltb read.attempt read.max_retries
    then retry_goal retry_error now later read.retry_delay_seconds
    else give_up final_error now

unfoldable pub get_goal : String → Table → Option Goal
get_goal goal_id rows = find? (has_id goal_id) rows

unfoldable pub mark_failed : String → String → ℕ → ℕ → Table → Table × Option Goal
unfolding get_goal fail_change update
mark_failed goal_id error now later rows = elim (get_goal goal_id rows) [
  | none ↦ (rows, none)
  | some g ↦ (
    update (has_id goal_id) (fail_change error error now later g) rows,
    some (fail_change error error now later g g),
  )
]

unfoldable pub mark_cancelled : String → ℕ → Table → Table
unfolding update
mark_cancelled goal_id now =
    update (has_id goal_id)
      λ g. record g { status = cancelled; completed_at = some now; updated_at = now }

pub GoalStatus-discrete : Discrete GoalStatus
GoalStatus-discrete = hlevel

-- An optional condition of a WHERE clause: `column = ?` for a value that is given.
abbrev pub matches : {A : Type 0} → Option A → (A → Bool) → Bool
matches none test = true
matches (some a) test = test a

unfoldable pub is_listed : Option String → Option GoalStatus → Option String → Goal → Bool
unfolding in_workspace GoalStatus-discrete
is_listed workspace status parent g =
    in_workspace workspace g
    && (matches status (λ s. decide (GoalStatus-discrete g.status s))
        && matches parent (λ p. not (truthy (some p)) || is_text g.parent_goal_id p))

unfoldable pub list_goals :
    Option String → Option GoalStatus → Option String → ℕ → Table → List Goal
unfolding is_listed queue_le
list_goals workspace status parent limit rows =
    take limit (sort queue_le (filter (is_listed workspace status parent) rows))

unfoldable pub pending_count : Option String → Table → ℕ
unfolding is_pending in_workspace
pending_count workspace rows =
    length (filter (λ g. is_pending g.status && in_workspace workspace g) rows)

-- `status IN ('deferred', 'retrying') AND scheduled_at IS NOT NULL AND scheduled_at <= ?`.
unfoldable pub is_promotable : ℕ → Goal → Bool
unfolding is_held
is_promotable now g = is_held g.status && elim g.scheduled_at [ none ↦ false | some t ↦ leb t now ]

unfoldable pub promote_deferred : ℕ → Table → Table × ℕ
unfolding is_promotable update
promote_deferred now rows = (
  update (is_promotable now) (λ g. record g { status = queued; updated_at = now }) rows,
  length (filter (is_promotable now) rows),
)

-- `status = 'running' AND started_at IS NOT NULL AND started_at < ?`.
unfoldable pub is_stale : ℕ → Goal → Bool
unfolding is_running
is_stale cutoff g =
    is_running g.status && elim g.started_at [ none ↦ false | some t ↦ ltb t cutoff ]

-- The loop over the rows that were read. Each reads the clock again for its retry.
unfoldable pub recover_rows : ℕ → (ℕ → ℕ) → List Goal → ℕ → Table → Table × ℕ
unfolding fail_change update
recover_rows now clock [] recovered rows = (rows, recovered)
recover_rows now clock (g ∷ gs) recovered rows = recover_rows now clock gs (recovered + 1) (
    update (has_id g.goal_id)
      (fail_change "stale_running_recovered" "exceeded_max_retries_after_stale" now
        (clock recovered) g)
      rows)

unfoldable pub recover_stale_running : ℕ → ℕ → (ℕ → ℕ) → Table → Table × ℕ
unfolding is_stale recover_rows
recover_stale_running stale_seconds now clock rows =
    recover_rows now clock (filter (is_stale (now - seconds stale_seconds)) rows) 0 rows

-- `status IN ('completed', 'failed', 'cancelled') AND completed_at < ?`; NULL is not less.
unfoldable pub is_old : ℕ → Goal → Bool
unfolding is_closed
is_old cutoff g = is_closed g.status && elim g.completed_at [ none ↦ false | some t ↦ ltb t cutoff ]

unfoldable pub cleanup_old : ℕ → ℕ → Table → Table × ℕ
unfolding is_old
cleanup_old keep_days now rows =
    let old = is_old (now - days keep_days) in
    (filter (λ g. not (old g)) rows, length (filter old rows))
