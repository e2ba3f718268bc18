-- ===== src/Watchdog.antt =====
-- core/process_watchdog.py: `FrozenWindowDetector` and `ProcessWatchdog`. The windows and processes of
-- the system are given by a `World`, which each check is told anew. Times are numbers of
-- milliseconds of a clock that does not go back, and the clock is read once in a check.
pub mod Escalation
use phylum.Common.{
  ℕ, zero, suc, ◌+◌, ◌-◌, String, Bool, true, false, not, Option, none, some, List, [], ◌∷◌, ◌++◌,
  ◌&&◌, ◌||◌, ◌==◌, if◌then◌else◌, leb, ltb, nat_eq, filter, map, any, length, get_elem?, truthy,
}
use Prim.Native.String
use phylum.Common.Dict.{Dict, get, put}

pub data RecoveryAction : Type 0 where
  no_action retry_message close_graceful kill restart : RecoveryAction

unfoldable pub is_kill : RecoveryAction → Bool
is_kill kill = true
is_kill _ = false

-- What the system answers: the helpers on windows, by their handles, and on processes, by their ids.
-- `popen` is `none` where it raises. `contains part text` is `part in text`.
pub record World : Type 0 where
  pub available : Bool
  pub windows : List ℕ
  pub title : ℕ → String
  pub visible : ℕ → Bool
  pub window_pid : ℕ → ℕ
  pub is_hung : ℕ → Bool
  pub send_message : ℕ → ℕ → Bool
  pub close_window : ℕ → Bool
  pub kill_process : ℕ → Bool
  pub is_alive : ℕ → Bool
  pub popen : String → Option ℕ
  pub contains : String → String → Bool
  pub lower : String → String
  pub show : ℕ → String

-- A handle, a process id or a text that is not given is 0 or empty.
pub record Target : Type 0 where
  pub pid : ℕ
  pub hwnd : ℕ
  pub process_name : String
  pub title_pattern : String
  pub restart_command : String

-- The status of a target, which stands apart.
pub record Status : Type 0 where
  pub responsive : Bool
  pub frozen : Bool
  pub frozen_since : Option ℕ
  pub frozen_duration : ℕ
  pub check_count : ℕ
  pub recovery_actions_taken : List RecoveryAction
  pub recovered : Bool
  pub alive : Bool

abbrev pub new_status : Status
new_status = record {
  responsive = true;
  frozen = false;
  frozen_since = none;
  frozen_duration = 0;
  check_count = 0;
  recovery_actions_taken = [];
  recovered = false;
  alive = true;
}

pub record Policy : Type 0 where
  pub freeze_threshold : ℕ
  pub max_recovery_attempts : ℕ
  pub recovery_sequence : List RecoveryAction
  pub auto_restart : Bool

pub record RecoveryResult : Type 0 where
  pub action : RecoveryAction
  pub success : Bool
  pub new_pid : ℕ

unfoldable pub next_action : Policy → ℕ → RecoveryAction
next_action policy attempts = elim (get_elem? policy.recovery_sequence attempts) [
  | none ↦ kill
  | some a ↦ a
]

unfoldable pub record_action : RecoveryAction → Status → Status
record_action a s = record s { recovery_actions_taken = s.recovery_actions_taken ++ a ∷ [] }

abbrev pub thawed : Status → Status
thawed s = record s { frozen = false; frozen_since = none; frozen_duration = 0; recovered = true }

-- A target that is found frozen, with the time since which it is.
unfoldable pub freeze : ℕ → Status → Status
freeze now s =
    let since : ℕ = if s.frozen then elim s.frozen_since [ none ↦ now | some t ↦ t ] else now in
    record s {
      responsive = false;
      frozen = true;
      frozen_since = if s.frozen then s.frozen_since else some now;
      frozen_duration = now - since;
    }

unfoldable pub thaw : Status → Status
thaw s = record s {
  responsive = true;
  frozen = false;
  frozen_since = none;
  frozen_duration = 0;
  recovered = if s.frozen then true else s.recovered;
}

module _ (world : World) where
  -- `FrozenWindowDetector.check`: whether the window counts as frozen.
  unfoldable pub check : ℕ → Bool
  check hwnd =
      if nat_eq hwnd 0
      then false
      else world.is_hung hwnd
        || (not (world.send_message hwnd 3_000)
            || world.contains "(Not Responding)" (world.title hwnd))

  unfoldable pub check_by_title : String → List Bool
  unfolding check
  check_by_title pattern =
      if world.available
      then map check (
          filter
            (λ w.
              world.visible w && world.contains (world.lower pattern) (world.lower (world.title w)))
            world.windows)
      else []

  unfoldable pub check_by_pid : ℕ → List Bool
  unfolding check
  check_by_pid pid =
      if world.available
      then map check
          (filter (λ w. world.visible w && nat_eq (world.window_pid w) pid) world.windows)
      else []

  unfoldable pub execute_recovery : Target → RecoveryAction → RecoveryResult
  execute_recovery t retry_message = record {
    action = retry_message;
    success = not (nat_eq t.hwnd 0) && world.send_message t.hwnd 5_000;
    new_pid = 0;
  }
  execute_recovery t close_graceful = record {
    action = close_graceful;
    success = not (nat_eq t.hwnd 0) && world.close_window t.hwnd;
    new_pid = 0;
  }
  execute_recovery t kill = record {
    action = kill;
    success = not (nat_eq t.pid 0) && world.kill_process t.pid;
    new_pid = 0;
  }
  execute_recovery t restart =
      let started : Option ℕ =
        if t.restart_command == "" then none else world.popen t.restart_command in
      elim started [
        | none ↦ record { action = restart; success = false; new_pid = 0 }
        | some pid ↦ record { action = restart; success = true; new_pid = pid }
      ]
  execute_recovery t no_action = record { action = no_action; success = false; new_pid = 0 }

  unfoldable pub attempt_recovery : Policy → Target → Status → Target × Status
  unfolding execute_recovery next_action record_action is_kill
  attempt_recovery policy t s =
      let action = next_action policy (length s.recovery_actions_taken) in
      let taken = record_action action s in
      let restarted = execute_recovery t restart in
      if leb policy.max_recovery_attempts (length s.recovery_actions_taken)
      then (t, s)
      else if not (execute_recovery t action).success
      then (t, taken)
      else if is_kill action && (policy.auto_restart && not (t.restart_command == ""))
      then (
        (if nat_eq restarted.new_pid 0 then t else record t { pid = restarted.new_pid }),
        record_action restart (thawed taken),
      )
      else (t, thawed taken)

  unfoldable pub looks_frozen : Target → Bool
  unfolding check check_by_pid check_by_title
  looks_frozen t =
      if not (nat_eq t.hwnd 0)
      then check t.hwnd
      else if not (nat_eq t.pid 0)
      then any (λ b. b) (check_by_pid t.pid)
      else if not (t.title_pattern == "")
      then any (λ b. b) (check_by_title t.title_pattern)
      else false

  unfoldable pub check_target : ℕ → Policy → Target → Status → Target × Status
  unfolding looks_frozen freeze thaw attempt_recovery
  check_target now policy t s =
      let counted = record s { check_count = s.check_count + 1; alive = true } in
      let found = freeze now counted in
      if not (nat_eq t.pid 0) && not (world.is_alive t.pid)
      then (t, record counted { alive = false; frozen = false; responsive = false })
      else if not (looks_frozen t)
      then (t, thaw counted)
      else if leb policy.freeze_threshold found.frozen_duration
      then attempt_recovery policy t found
      else (t, found)

-- A target with its status, under its key: the dictionaries of the targets and of the statuses, whose
-- keys are the same.
pub record Watchdog : Type 0 where
  pub policy : Policy
  pub watched : Dict (Target × Status)

unfoldable pub key_of : World → Target → String
key_of world t =
    if not (nat_eq t.pid 0)
    then String.◌++◌ "pid:" (world.show t.pid)
    else if not (nat_eq t.hwnd 0)
    then String.◌++◌ "hwnd:" (world.show t.hwnd)
    else String.◌++◌ "name:" (if t.process_name == "" then t.title_pattern else t.process_name)

unfoldable pub add_target : World → Target → Watchdog → Watchdog
unfolding put key_of
add_target world t w = record w { watched = put (key_of world t) (t, new_status) w.watched }

unfoldable pub remove_target : String → Watchdog → Watchdog
remove_target key w = record w { watched = filter (λ e. not (e.0 == key)) w.watched }

unfoldable pub get_status : String → Watchdog → Option Status
unfolding get
get_status key w = elim (get key w.watched) [ none ↦ none | some e ↦ some (e.1) ]

unfoldable pub check_once : World → ℕ → Watchdog → Watchdog
unfolding check_target
check_once world now w = record w {
  watched = map (λ e. (e.0, check_target world now w.policy (e.1.0) (e.1.1))) w.watched;
}
