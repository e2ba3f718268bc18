-- ===== src/UiLock/System.antt =====
-- The lock among the tasks that use it. A task waits for the lock outside of the state: it can take it
-- whenever it is free.
use phylum.Common.{ℕ, suc, ◌+◌, String, Bool, false, Option, List, [], ◌∷◌, ◌++◌, ◌≡◌}
use phylum.UiLock.{
  Desktop, UiLock, Session, new_lock, begin_operation, finish_operation, acquire_simple,
  release_simple, clear_history,
}

-- `inside` are the sessions between the `yield` of `acquire_operation` and its end, and `simple`
-- counts the tasks that have returned from `acquire_simple` and not called `release_simple`.
pub record System : Type 0 where
  pub lock : UiLock
  pub desktop : Desktop
  pub inside : List Session
  pub simple : ℕ

-- A step of the tasks, where `release_simple` is called by a task that has taken the lock by
-- `acquire_simple`. The user and the tasks may change all of the desktop but the block of the input.
pub data Step : System → System → Type 0 where
  enters :
      {s t : System} (name : String) (block : Bool) (restore : Option Bool) (now : ℕ)
      → s.lock.locked ≡ false
      → t ≡ (
          let begun = begin_operation name block restore now s.lock s.desktop in
          record s { lock = begun.1; desktop = begun.2; inside = begun.0 ∷ s.inside })
      → Step s t
  leaves :
      {s t : System} (before after : List Session) (x : Session) (failure : Option String) (now : ℕ)
      → s.inside ≡ before ++ x ∷ after
      → t ≡ (
          let ended = finish_operation x failure now s.lock s.desktop in
          record s { lock = ended.0; desktop = ended.1; inside = before ++ after })
      → Step s t
  takes :
      {s t : System}
      → s.lock.locked ≡ false
      → t ≡ record s { lock = acquire_simple s.lock; simple = s.simple + 1 }
      → Step s t
  gives :
      {s t : System} (n : ℕ)
      → s.simple ≡ suc n
      → t ≡ record s { lock = release_simple s.lock; simple = n }
      → Step s t
  clears : {s t : System} → t ≡ record s { lock = clear_history s.lock } → Step s t
  moves :
      {s t : System} (d : Desktop)
      → d.input_blocked ≡ s.desktop.input_blocked
      → d.has_win32 ≡ s.desktop.has_win32
      → d.elevated ≡ s.desktop.elevated
      → t ≡ record s { desktop = d }
      → Step s t

pub data Reach : System → Type 0 where
  start :
      {s : System} (restore_cursor detect_interference : Bool) (max_history : ℕ)
      → s.lock ≡ new_lock restore_cursor detect_interference max_history
      → s.inside ≡ []
      → s.simple ≡ 0
      → s.desktop.input_blocked ≡ false
      → Reach s
  next : {s t : System} → Reach s → Step s t → Reach t
