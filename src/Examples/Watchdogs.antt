-- ===== src/Examples/Watchdogs.antt =====
-- A window that hangs until its process is killed.
use phylum.Common.{◌≡◌, refl, true, false, none, [], ◌∷◌, map, ◌==◌, nat_eq}
use phylum.Watchdog.{
  World, Target, Policy, Watchdog, retry_message, close_graceful, kill, add_target, check_once,
}

abbrev world : World
world = record {
  available = true;
  windows = 7 ∷ [];
  title = λ w. "sheet";
  visible = λ w. true;
  window_pid = λ w. 3;
  is_hung = λ w. nat_eq w 7;
  send_message = λ w timeout. false;
  close_window = λ w. false;
  kill_process = λ pid. true;
  is_alive = λ pid. true;
  popen = λ text. none;
  contains = λ part text. part == text;
  lower = λ text. text;
  show = λ n. "n";
}

abbrev policy : Policy
policy = record {
  freeze_threshold = 10;
  max_recovery_attempts = 3;
  recovery_sequence = retry_message ∷ close_graceful ∷ kill ∷ [];
  auto_restart = false;
}

abbrev target : Target
target = record { pid = 3; hwnd = 7; process_name = ""; title_pattern = ""; restart_command = "" }

abbrev watching : Watchdog
watching = add_target world target (record { policy = policy; watched = [] })

abbrev checked : Watchdog
checked = check_once world 30 (check_once world 15 (check_once world 0 watching))

takes_two :
    map (λ e. e.1.1.recovery_actions_taken) checked.watched
    ≡ (retry_message ∷ close_graceful ∷ []) ∷ []
unfolding check_once add_target
takes_two = refl
