-- ===== src/UiLock.antt =====
-- core/ui_lock.py: `InterferenceDetector`, `CursorGuard`, `InputGuard` and `UIOperationLock`. The
-- desktop is a value that the Win32 calls read and change. Times are numbers of microseconds, and the
-- coordinates of the cursor are counted from a corner beyond all screens, so that none is negative.
pub mod System
pub mod Exclusion
use phylum.Common.{
  ℕ, zero, suc, ◌+◌, ◌-◌, ◌*◌, String, Bool, true, false, not, Option, none, some, List, [], ◌∷◌,
  ◌++◌, ◌&&◌, ◌||◌, ◌==◌, if◌then◌else◌, ltb, nat_eq, length, drop, is_some,
}
use Prim.Native.Nat.{min}

pub record Position : Type 0 where
  pub x : ℕ
  pub y : ℕ

-- `has_win32` is false where `ctypes.windll` is missing; `elevated` tells whether `BlockInput` works.
pub record Desktop : Type 0 where
  pub has_win32 : Bool
  pub elevated : Bool
  pub cursor : Position
  pub foreground : ℕ
  pub input_blocked : Bool

unfoldable pub get_cursor_pos : Desktop → Position
get_cursor_pos d = if d.has_win32 then d.cursor else record { x = 0; y = 0 }

unfoldable pub set_cursor_pos : Position → Desktop → Desktop
set_cursor_pos p d = if d.has_win32 then record d { cursor = p } else d

unfoldable pub block_input : Bool → Desktop → Desktop × Bool
block_input block d =
    if d.has_win32 && d.elevated then (record d { input_blocked = block }, true) else (d, false)

unfoldable pub get_foreground_window : Desktop → ℕ
get_foreground_window d = if d.has_win32 then d.foreground else 0

pub data InterferenceType : Type 0 where
  no_interference cursor_moved focus_changed cursor_and_focus : InterferenceType

-- The square of the distance stands for the distance.
pub record InterferenceReport : Type 0 where
  pub detected : Bool
  pub type : InterferenceType
  pub cursor_before : Position
  pub cursor_after : Position
  pub cursor_delta_squared : ℕ
  pub fg_window_before : ℕ
  pub fg_window_after : ℕ
  pub timestamp : ℕ

abbrev pub no_report : InterferenceReport
no_report = record {
  detected = false;
  type = no_interference;
  cursor_before = record { x = 0; y = 0 };
  cursor_after = record { x = 0; y = 0 };
  cursor_delta_squared = 0;
  fg_window_before = 0;
  fg_window_after = 0;
  timestamp = 0;
}

pub record Detector : Type 0 where
  pub jitter : ℕ
  pub before : Position
  pub fg_before : ℕ

unfoldable pub snapshot_before : Desktop → Detector → Detector
unfolding get_cursor_pos get_foreground_window
snapshot_before d t = record t { before = get_cursor_pos d; fg_before = get_foreground_window d }

unfoldable pub distance : ℕ → ℕ → ℕ
distance a b = if ltb a b then b - a else a - b

unfoldable pub delta_squared : Position → Position → ℕ
unfolding distance
delta_squared p q = distance p.x q.x * distance p.x q.x + distance p.y q.y * distance p.y q.y

unfoldable pub interference_type : Bool → Bool → InterferenceType
interference_type moved changed =
    if moved && changed
    then cursor_and_focus
    else if moved
    then cursor_moved
    else if changed
    then focus_changed
    else no_interference

unfoldable pub check_after : ℕ → Desktop → Detector → InterferenceReport
unfolding get_cursor_pos get_foreground_window delta_squared interference_type
check_after now d t =
    let after = get_cursor_pos d in
    let fg_after = get_foreground_window d in
    let delta = delta_squared after t.before in
    let moved = ltb (t.jitter * t.jitter) delta in
    let changed =
      not (nat_eq t.fg_before 0)
      && (not (nat_eq fg_after 0) && not (nat_eq t.fg_before fg_after)) in
    record {
      detected = moved || changed;
      type = interference_type moved changed;
      cursor_before = t.before;
      cursor_after = after;
      cursor_delta_squared = delta;
      fg_window_before = t.fg_before;
      fg_window_after = fg_after;
      timestamp = now;
    }

pub record CursorGuard : Type 0 where
  pub restores : Bool
  pub saved : Option Position

unfoldable pub save : Desktop → CursorGuard → CursorGuard
unfolding get_cursor_pos
save d c = record c { saved = some (get_cursor_pos d) }

-- `restore`, with the desktop that it leaves.
unfoldable pub restore : InterferenceReport → Desktop → CursorGuard → Desktop × Bool
unfolding set_cursor_pos
restore report d c = elim c.saved [
  | none ↦ (d, false)
  | some p ↦
      if not c.restores
      then (d, false)
      else if report.detected
      then (d, false)
      else (set_cursor_pos p d, true)
]

pub record InputGuard : Type 0 where
  pub max_duration : ℕ
  pub blocked : Bool
  pub blocked_at : ℕ

abbrev pub max_block_duration : ℕ
max_block_duration = 5_000_000

abbrev pub new_input_guard : ℕ → InputGuard
new_input_guard duration = record {
  max_duration = min duration max_block_duration;
  blocked = false;
  blocked_at = 0;
}

unfoldable pub acquire : ℕ → Desktop → InputGuard → InputGuard × Desktop
unfolding block_input
acquire now d i =
    let (d', ok) = block_input true d in
    (if ok then record i { blocked = true; blocked_at = now } else i, d')

unfoldable pub release : Desktop → InputGuard → InputGuard × Desktop
unfolding block_input
release d i = if i.blocked then (record i { blocked = false }, (block_input false d).0) else (i, d)

unfoldable pub check_timeout : ℕ → Desktop → InputGuard → (InputGuard × Desktop) × Bool
unfolding release
check_timeout now d i =
    if not i.blocked
    then ((i, d), false)
    else if ltb i.max_duration (now - i.blocked_at)
    then (release d i, true)
    else ((i, d), false)

-- `duration_ms` is the difference of the two times.
pub record OperationRecord : Type 0 where
  pub operation : String
  pub started_at : ℕ
  pub finished_at : ℕ
  pub interference : Option InterferenceReport
  pub success : Bool
  pub error : Option String

-- `UIOperationLock`; `locked` is the state of its `asyncio.Lock`.
pub record UiLock : Type 0 where
  pub locked : Bool
  pub restore_cursor : Bool
  pub detect_interference : Bool
  pub history : List OperationRecord
  pub max_history : ℕ
  pub active_operation : Option String
  pub total_operations : ℕ
  pub total_interferences : ℕ

abbrev pub new_lock : Bool → Bool → ℕ → UiLock
new_lock restore_cursor detect_interference max_history = record {
  locked = false;
  restore_cursor = restore_cursor;
  detect_interference = detect_interference;
  history = [];
  max_history = max_history;
  active_operation = none;
  total_operations = 0;
  total_interferences = 0;
}

-- The local variables of `acquire_operation` while its caller runs.
pub record Session : Type 0 where
  pub op_record : OperationRecord
  pub cursor_guard : CursorGuard
  pub input_guard : Option InputGuard
  pub detector : Option Detector

unfoldable pub guard_acquire : ℕ → Desktop → Option InputGuard → Option InputGuard × Desktop
unfolding acquire
guard_acquire now d none = (none, d)
guard_acquire now d (some i) = let (i', d') = acquire now d i in (some i', d')

unfoldable pub guard_release : Desktop → Option InputGuard → Desktop
unfolding release
guard_release d none = d
guard_release d (some i) = (release d i).1

abbrev pub jitter_threshold : ℕ
jitter_threshold = 5

-- `acquire_operation` from its call to its `yield`, when the lock has been got.
unfoldable pub begin_operation :
    String → Bool → Option Bool → ℕ → UiLock → Desktop → Session × UiLock × Desktop
unfolding guard_acquire snapshot_before save
begin_operation name block restore_flag now l d =
    let should_restore : Bool = elim restore_flag [ none ↦ l.restore_cursor | some b ↦ b ] in
    let guarded =
      guard_acquire now d (if block then some (new_input_guard max_block_duration) else none) in
    (
      record {
        op_record = record {
          operation = name;
          started_at = now;
          finished_at = 0;
          interference = none;
          success = true;
          error = none;
        };
        cursor_guard = save d (record { restores = should_restore; saved = none });
        input_guard = guarded.0;
        detector =
            if l.detect_interference
            then some (
                snapshot_before d (record {
                  jitter = jitter_threshold;
                  before = record { x = 0; y = 0 };
                  fg_before = 0;
                }))
            else none;
      },
      record l { locked = true; active_operation = some name },
      guarded.1,
    )

-- `self._history[-n:]`, which is the whole list for 0.
unfoldable pub last_n : {A : Type 0} → ℕ → List A → List A
last_n n xs = if nat_eq n 0 then xs else drop (length xs - n) xs

unfoldable pub add_record : OperationRecord → UiLock → UiLock
unfolding last_n
add_record r l =
    let longer = l.history ++ r ∷ [] in
    record l {
      history = if ltb l.max_history (length longer) then last_n l.max_history longer else longer;
    }

-- The report of the session's detector, where it has one.
unfoldable pub session_report : ℕ → Desktop → Session → Option InterferenceReport
unfolding check_after
session_report now d s = elim s.detector [ none ↦ none | some t ↦ some (check_after now d t) ]

abbrev pub report_or_none : Option InterferenceReport → InterferenceReport
report_or_none none = no_report
report_or_none (some r) = r

unfoldable pub close_record :
    Option String → Option InterferenceReport → ℕ → OperationRecord → OperationRecord
close_record failure report now r = record r {
  finished_at = now;
  interference = report;
  success = not (is_some failure);
  error = failure;
}

unfoldable pub count_operation : Bool → UiLock → UiLock
count_operation found l = record l {
  locked = false;
  active_operation = none;
  total_operations = l.total_operations + 1;
  total_interferences = if found then l.total_interferences + 1 else l.total_interferences;
}

-- `acquire_operation` after its `yield`, which has returned or raised the exception with the text
-- `failure`; the lock is released at the end. A cancellation is no `Exception`: it counts as a return.
unfoldable pub finish_operation : Session → Option String → ℕ → UiLock → Desktop → UiLock × Desktop
unfolding guard_release session_report restore add_record close_record count_operation
finish_operation s failure now l d =
    let unblocked = guard_release d s.input_guard in
    let report = session_report now unblocked s in
    (
      add_record (close_record failure report now s.op_record)
          (count_operation (report_or_none report).detected l),
      (restore (report_or_none report) unblocked s.cursor_guard).0,
    )

-- `acquire_simple`, when the lock has been got.
unfoldable pub acquire_simple : UiLock → UiLock
acquire_simple l = record l { locked = true; active_operation = some "simple_lock" }

-- The `RuntimeError` of a lock that is free is dropped.
unfoldable pub release_simple : UiLock → UiLock
release_simple l = record l { locked = false; active_operation = none }

unfoldable pub get_history : ℕ → UiLock → List OperationRecord
unfolding last_n
get_history n l = last_n n l.history

unfoldable pub clear_history : UiLock → UiLock
clear_history l = record l { history = [] }
