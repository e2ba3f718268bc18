-- ===== src/SessionManager.antt =====
-- persistence/session_manager.py: `SessionManager`. The table `agent_sessions` is the list of its rows,
-- whose JSON columns are read: values of a dictionary are their JSON texts. Times are numbers of
-- microseconds, and the clock is read once in a call.
pub mod Interleaving
pub mod Invariant
pub mod Lookup
pub mod Writes
use phylum.Common.{
  ℕ, zero, suc, ◌+◌, ◌-◌, String, Bool, true, false, not, Option, none, some, List, [], ◌∷◌, ◌++◌,
  ◌&&◌, ◌||◌, ◌==◌, if◌then◌else◌, leb, ltb, one_of, filter, find?, head?, take, map, length,
  get_elem?, is_text, truthy, modify,
}
use phylum.Common.Dict.{Dict, merge}
use phylum.Common.Sort.{sort}

-- A phase: `fields` are its other keys.
pub record Phase : Type 0 where
  pub status : Option String
  pub completed_at : Option ℕ
  pub started_at : Option ℕ
  pub fields : Dict String

pub record Session : Type 0 where
  pub session_id : String
  pub workspace : String
  pub objective : Option String
  pub status : String
  pub context : Dict String
  pub checkpoint : Dict String
  pub run_ids : List String
  pub goal_ids : List String
  pub phases : List Phase
  pub current_phase : ℕ
  pub total_runs : ℕ
  pub total_steps : ℕ
  pub created_at : ℕ
  pub updated_at : ℕ
  pub expires_at : Option ℕ
  pub last_activity_at : ℕ

abbrev pub Table : Type 0
Table = List Session

-- The keyword arguments of `create_session`; `ttl` is `ttl_hours` in microseconds.
pub record Request : Type 0 where
  pub workspace : String
  pub objective : Option String
  pub context : Dict String
  pub phases : List Phase
  pub ttl : ℕ

unfoldable pub new_session : String → ℕ → Request → Session
new_session id now r = record {
  session_id = id;
  workspace = r.workspace;
  objective = r.objective;
  status = "active";
  context = r.context;
  checkpoint = [];
  run_ids = [];
  goal_ids = [];
  phases = r.phases;
  current_phase = 0;
  total_runs = 0;
  total_steps = 0;
  created_at = now;
  updated_at = now;
  expires_at = some (now + r.ttl);
  last_activity_at = now;
}

-- The id is made by `uuid4`.
unfoldable pub create_session : String → ℕ → Request → Table → Table × Session
unfolding new_session
create_session id now r rows = (rows ++ new_session id now r ∷ [], new_session id now r)

abbrev pub has_id : String → Session → Bool
has_id id s = s.session_id == id

unfoldable pub get_session : String → Table → Option Session
get_session id rows = find? (has_id id) rows

-- The dictionary `updates` of `update_session`: `none` for a key that is not there.
pub record Updates : Type 0 where
  pub objective : Option (Option String)
  pub status : Option String
  pub current_phase : Option ℕ
  pub total_runs : Option ℕ
  pub total_steps : Option ℕ
  pub expires_at : Option (Option ℕ)
  pub context : Option (Dict String)
  pub checkpoint : Option (Dict String)
  pub run_ids : Option (List String)
  pub goal_ids : Option (List String)
  pub phases : Option (List Phase)

abbrev pub no_updates : Updates
no_updates = record {
  objective = none;
  status = none;
  current_phase = none;
  total_runs = none;
  total_steps = none;
  expires_at = none;
  context = none;
  checkpoint = none;
  run_ids = none;
  goal_ids = none;
  phases = none;
}

abbrev pub or_old {ℓ} : {A : Type ℓ} → Option A → A → A
or_old none old = old
or_old (some new) old = new

unfoldable pub apply_updates : ℕ → Updates → Session → Session
apply_updates now u s = record s {
  updated_at = now;
  last_activity_at = now;
  objective = or_old u.objective s.objective;
  status = or_old u.status s.status;
  current_phase = or_old u.current_phase s.current_phase;
  total_runs = or_old u.total_runs s.total_runs;
  total_steps = or_old u.total_steps s.total_steps;
  expires_at = or_old u.expires_at s.expires_at;
  context = or_old u.context s.context;
  checkpoint = or_old u.checkpoint s.checkpoint;
  run_ids = or_old u.run_ids s.run_ids;
  goal_ids = or_old u.goal_ids s.goal_ids;
  phases = or_old u.phases s.phases;
}

-- `UPDATE … WHERE test`.
unfoldable pub update_where : (Session → Bool) → (Session → Session) → Table → Table
update_where test change [] = []
update_where test change (s ∷ rows) =
    let rest = update_where test change rows in (if test s then change s else s) ∷ rest

unfoldable pub update_session : ℕ → String → Updates → Table → Table × Option Session
unfolding apply_updates update_where get_session
update_session now id u rows =
    let changed = update_where (has_id id) (apply_updates now u) rows in
    (changed, get_session id changed)

-- `if x not in xs: xs.append(x)`.
unfoldable pub append_new : String → List String → List String
append_new x xs = if one_of x xs then xs else xs ++ x ∷ []

abbrev pub complete_phase : ℕ → Phase → Phase
complete_phase now p = record p { status = some "completed"; completed_at = some now }

abbrev pub activate_phase : ℕ → Phase → Phase
activate_phase now p = record p { status = some "active"; started_at = some now }

-- What each operation writes, of the session that it has read; `none` where it does not write.
unfoldable pub checkpoint_updates : Dict String → Session → Updates
unfolding merge
checkpoint_updates saved s = record no_updates { checkpoint = some (merge s.checkpoint saved) }

unfoldable pub add_run_updates : String → Session → Updates
unfolding append_new
add_run_updates request_id s =
    let run_ids = append_new request_id s.run_ids in
    record no_updates { run_ids = some run_ids; total_runs = some (length run_ids) }

unfoldable pub add_goal_updates : String → Session → Updates
unfolding append_new
add_goal_updates goal_id s = record no_updates { goal_ids = some (append_new goal_id s.goal_ids) }

unfoldable pub merge_context_updates : Dict String → Session → Updates
unfolding merge
merge_context_updates context s = record no_updates { context = some (merge s.context context) }

unfoldable pub advance_phase_updates : ℕ → Session → Option Updates
advance_phase_updates now s =
    let next_phase = s.current_phase + 1 in
    let completed = modify s.current_phase (complete_phase now) s.phases in
    let phases =
      if ltb next_phase (length completed)
      then modify next_phase (activate_phase now) completed
      else completed in
    if ltb s.current_phase (length s.phases)
    then some (record no_updates {
      phases = some phases;
      current_phase = some next_phase;
      status = if leb (length phases) next_phase then some "completed" else none;
    })
    else none

-- An operation that reads the session and writes its updates.
unfoldable pub read_and_write :
    ℕ → String → (Session → Option Updates) → Table → Table × Option Session
unfolding get_session update_session
read_and_write now id updates rows = elim (get_session id rows) [
  | none ↦ (rows, none)
  | some s ↦ elim (updates s) [ none ↦ (rows, some s) | some u ↦ update_session now id u rows ]
]

unfoldable pub checkpoint : ℕ → String → Dict String → Table → Table × Option Session
unfolding read_and_write checkpoint_updates
checkpoint now id saved = read_and_write now id (λ s. some (checkpoint_updates saved s))

unfoldable pub add_run : ℕ → String → String → Table → Table × Option Session
unfolding read_and_write add_run_updates
add_run now id request_id = read_and_write now id (λ s. some (add_run_updates request_id s))

unfoldable pub add_goal : ℕ → String → String → Table → Table × Option Session
unfolding read_and_write add_goal_updates
add_goal now id goal_id = read_and_write now id (λ s. some (add_goal_updates goal_id s))

unfoldable pub merge_context : ℕ → String → Dict String → Table → Table × Option Session
unfolding read_and_write merge_context_updates
merge_context now id context = read_and_write now id (λ s. some (merge_context_updates context s))

unfoldable pub advance_phase : ℕ → String → Table → Table × Option Session
unfolding read_and_write advance_phase_updates
advance_phase now id = read_and_write now id (advance_phase_updates now)

-- `ORDER BY last_activity_at DESC`.
unfoldable pub latest_first : Session → Session → Bool
latest_first a b = leb b.last_activity_at a.last_activity_at

unfoldable pub is_listed : Option String → Option String → Session → Bool
is_listed workspace status s =
    (not (truthy workspace) || is_text workspace s.workspace)
    && (not (truthy status) || is_text status s.status)

unfoldable pub list_sessions : Option String → Option String → ℕ → Table → List Session
unfolding latest_first is_listed
list_sessions workspace status limit rows =
    take limit (sort latest_first (filter (is_listed workspace status) rows))

-- `status = 'active' AND (expires_at IS NULL OR expires_at > now)`, in the workspace.
unfoldable pub is_live : String → ℕ → Session → Bool
is_live workspace now s =
    s.workspace == workspace
    && (s.status == "active" && elim s.expires_at [ none ↦ true | some t ↦ ltb now t ])

unfoldable pub latest : (Session → Bool) → Table → Option Session
unfolding latest_first
latest test rows = head? (sort latest_first (filter test rows))

abbrev pub serves : String → ℕ → String → Session → Bool
serves workspace now wanted s = is_live workspace now s && is_text s.objective wanted

unfoldable pub find_active_session : String → Option String → ℕ → Table → Option Session
unfolding is_live latest
find_active_session workspace none now rows = latest (is_live workspace now) rows
find_active_session workspace (some wanted) now rows =
    let any_live = latest (is_live workspace now) rows in
    let matching = latest (serves workspace now wanted) rows in
    if wanted == "" then any_live else elim matching [ some s ↦ some s | none ↦ any_live ]

-- `inactive` is `inactive_hours` in microseconds.
unfoldable pub is_stale : ℕ → ℕ → Session → Bool
is_stale now inactive s = s.status == "active" && ltb s.last_activity_at (now - inactive)

unfoldable pub expire_stale : ℕ → ℕ → Table → Table × ℕ
unfolding is_stale update_where
expire_stale now inactive rows = (
  update_where (is_stale now inactive) (λ s. record s { status = "expired"; updated_at = now })
      rows,
  length (filter (is_stale now inactive) rows),
)

unfoldable pub is_old : ℕ → ℕ → Session → Bool
is_old now age s =
    one_of s.status ("completed" ∷ "failed" ∷ "expired" ∷ []) && ltb s.updated_at (now - age)

unfoldable pub cleanup_old : ℕ → ℕ → Table → Table × ℕ
unfolding is_old
cleanup_old now age rows =
    (filter (λ s. not (is_old now age s)) rows, length (filter (is_old now age) rows))
