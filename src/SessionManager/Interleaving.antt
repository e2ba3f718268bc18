-- ===== src/SessionManager/Interleaving.antt =====
-- Calls that run at the same time: each of the operations that read a session and write to it does so in
-- two transactions, and other calls may come between.
use phylum.Common.{ℕ, String, Option, none, some, List, [], ◌∷◌, ◌++◌, ◌≡◌}
use phylum.Common.Dict.{Dict}
use phylum.SessionManager.{
  Session, Table, Request, Updates, create_session, get_session, update_session, checkpoint_updates,
  add_run_updates, add_goal_updates, merge_context_updates, advance_phase_updates, expire_stale,
  cleanup_old,
}

pub data Call : Type 0 where
  checkpoints merges : Dict String → Call
  adds_run adds_goal : String → Call
  advances : Call

unfoldable pub updates_of : ℕ → Call → Session → Option Updates
unfolding checkpoint_updates add_run_updates add_goal_updates merge_context_updates
    advance_phase_updates
updates_of now (checkpoints saved) s = some (checkpoint_updates saved s)
updates_of now (merges context) s = some (merge_context_updates context s)
updates_of now (adds_run id) s = some (add_run_updates id s)
updates_of now (adds_goal id) s = some (add_goal_updates id s)
updates_of now advances s = advance_phase_updates now s

-- `pending` are the calls that have read a session and not written yet.
pub record System : Type 0 where
  pub rows : Table
  pub pending : List (Session × Call)

pub data Step : System → System → Type 0 where
  creates :
      {s t : System} (id : String) (now : ℕ) (r : Request)
      → t ≡ record s { rows = (create_session id now r s.rows).0 }
      → Step s t
  reads :
      {s t : System} (id : String) (call : Call) (x : Session)
      → get_session id s.rows ≡ some x
      → t ≡ record s { pending = (x, call) ∷ s.pending }
      → Step s t
  writes :
      {s t : System} (now : ℕ) (x : Session) (call : Call) (u : Updates)
      (before after : List (Session × Call))
      → s.pending ≡ before ++ (x, call) ∷ after
      → updates_of now call x ≡ some u
      → t ≡ record s {
        rows = (update_session now x.session_id u s.rows).0;
        pending = before ++ after;
      }
      → Step s t
  ends :
      {s t : System} (now : ℕ) (x : Session) (call : Call) (before after : List (Session × Call))
      → s.pending ≡ before ++ (x, call) ∷ after
      → updates_of now call x ≡ none
      → t ≡ record s { pending = before ++ after }
      → Step s t
  expires :
      {s t : System} (now inactive : ℕ)
      → t ≡ record s { rows = (expire_stale now inactive s.rows).0 }
      → Step s t
  cleans :
      {s t : System} (now age : ℕ)
      → t ≡ record s { rows = (cleanup_old now age s.rows).0 }
      → Step s t

pub data Reach : System → Type 0 where
  start : {s : System} → s.rows ≡ [] → s.pending ≡ [] → Reach s
  next : {s t : System} → Reach s → Step s t → Reach t
