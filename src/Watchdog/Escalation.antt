-- ===== src/Watchdog/Escalation.antt =====
-- The actions that the watchdog takes.
use phylum.Common.{
  ℕ, ◌+◌, ◌≤◌, String, true, false, some, [], ◌≡◌, length, get_elem?, is_some, if◌then◌else◌,
}
use phylum.Common.Dict.{Dict}
use phylum.Watchdog.{
  RecoveryAction, World, Target, Status, Policy, Watchdog, next_action, record_action, add_target,
  remove_target, check_once,
}

-- The calls of the watchdog, each in the world as it then is.
pub data Reach (policy : Policy) : Watchdog → Type 0 where
  start : Reach policy (record { policy = policy; watched = [] })
  adds :
      {w : Watchdog} (world : World) (t : Target)
      → Reach policy w
      → Reach policy (add_target world t w)
  removes : {w : Watchdog} (key : String) → Reach policy w → Reach policy (remove_target key w)
  checks :
      {w : Watchdog} (world : World) (now : ℕ)
      → Reach policy w
      → Reach policy (check_once world now w)

-- The actions taken are no more than the policy allows, and one restart where it restarts; without
-- restarts they are the policy's in their order, and then kills. A frozen target is alive, does not
-- respond, and has a time since which it is frozen.
pub record IsEscalated (p : Policy) (s : Status) : Type 0 where
  pub bounded :
      length s.recovery_actions_taken ≤ p.max_recovery_attempts + (if p.auto_restart then 1 else 0)
  pub in_order :
      p.auto_restart ≡ false
      → (i : ℕ) (a : RecoveryAction) → get_elem? s.recovery_actions_taken i ≡ some a
      → a ≡ next_action p i
  pub since : s.frozen ≡ true → is_some s.frozen_since ≡ true
  pub shown : s.frozen ≡ true → (s.alive ≡ true) × (s.responsive ≡ false)

module _ (p : Policy) where
  -- A target whose actions are not used up takes the next one, and perhaps a restart.
  module _ (world : World) (t : Target) (s : Status) (h : IsEscalated p s) where
    taken : Status
    taken = record_action (next_action p (length s.recovery_actions_taken)) s
