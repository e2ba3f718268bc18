-- ===== src/Examples/Locks.antt =====
-- A task that presses a button while the input is blocked.
use phylum.Common.{◌≡◌, refl, true, false, none, [], ◌∷◌}
use phylum.UiLock.{Desktop, new_lock, begin_operation}
use phylum.UiLock.System.{System, enters, Reach, start, next}
use phylum.UiLock.Exclusion.{IsExclusive, Reach-IsExclusive}

abbrev desktop : Desktop
desktop = record {
  has_win32 = true;
  elevated = true;
  cursor = record { x = 10; y = 20 };
  foreground = 7;
  input_blocked = false;
}

abbrev idle : System
idle = record { lock = new_lock true true 100; desktop = desktop; inside = []; simple = 0 }

abbrev pressing : System
pressing =
    let begun = begin_operation "press" true none 1_000 idle.lock idle.desktop in
    record idle { lock = begun.1; desktop = begun.2; inside = begun.0 ∷ [] }

reached : Reach pressing
reached =
    next (start true true 100 refl refl refl refl)
      (enters {s = idle} "press" true none 1_000 refl refl)

Reach-IsExclusive_example : IsExclusive pressing
Reach-IsExclusive_example = Reach-IsExclusive reached

blocks_input : pressing.desktop.input_blocked ≡ true
unfolding begin_operation
blocks_input = refl
