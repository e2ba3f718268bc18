-- ===== src/Examples/Sessions.antt =====
-- A session with two phases, to which runs are added.
use phylum.Common.{
  String, ◌≡◌, ◌≢◌, refl, true, false, none, some, [], ◌∷◌, All, arith, eq_iff, one_of,
}
use phylum.Common.Dict.{Dict}
use phylum.Common.Sort.{sort}
use phylum.SessionManager.{
  Session, Request, new_session, create_session, get_session, update_session, add_run_updates,
  find_active_session,
}
use phylum.SessionManager.Interleaving.{
  System, Step, creates, reads, writes, Reach, start, next, adds_run, updates_of,
}
use phylum.SessionManager.Invariant.{IsSound, Reach-AllSound}
use phylum.SessionManager.Lookup.{IsFound, find_active_session-IsFound}
use phylum.SessionManager.Writes.{add_run_lost}

abbrev request : Request
request = record {
  workspace = "default";
  objective = some "report";
  context = [];
  phases =
      record { status = none; completed_at = none; started_at = none; fields = [] }
      ∷ record { status = none; completed_at = none; started_at = none; fields = [] }
      ∷ [];
  ttl = 100;
}

abbrev session : Session
session = record {
  session_id = "s";
  workspace = "default";
  objective = some "report";
  status = "active";
  context = [];
  checkpoint = ("step", "1") ∷ [];
  run_ids = [];
  goal_ids = [];
  phases = request.phases;
  current_phase = 0;
  total_runs = 0;
  total_steps = 0;
  created_at = 5;
  updated_at = 5;
  expires_at = some 105;
  last_activity_at = 5;
}

abbrev empty : System
empty = record { rows = []; pending = [] }

abbrev one : System
one = record empty { rows = (create_session "s" 5 request []).0 }

abbrev asked : System
asked = record one { pending = (new_session "s" 5 request, adds_run "r") ∷ [] }

abbrev added : System
added = record {
  rows = (update_session 6 "s" (add_run_updates "r" (new_session "s" 5 request)) asked.rows).0;
  pending = [];
}

asks : Step one asked
unfolding get_session create_session new_session
asks = reads "s" (adds_run "r") (new_session "s" 5 request) refl refl

adds : Step asked added
unfolding updates_of new_session
adds = writes 6 (new_session "s" 5 request) (adds_run "r") _ [] [] refl refl refl

reached : Reach added
reached =
    next
      (next (next (start {s = empty} refl refl) (creates {s = empty} {t = one} "s" 5 request refl))
        asks)
      adds

Reach-AllSound_example : All IsSound added.rows
Reach-AllSound_example = Reach-AllSound reached

report_there : ◌≢◌ {A = String} "report" ""
report_there e = ground (arith, eq_iff "report" "")

find_active_session-IsFound_example :
    IsFound "default" "report" 50
      (session ∷ [])
      (find_active_session "default" (some "report") 50 (session ∷ []))
find_active_session-IsFound_example =
    find_active_session-IsFound "default" "report" 50 (session ∷ []) report_there

finds_session : find_active_session "default" (some "report") 50 (session ∷ []) ≡ some session
unfolding find_active_session sort
finds_session = refl

abbrev later_step : Dict String
later_step = ("step", "2") ∷ []

found_s : get_session "s" (session ∷ []) ≡ some session
unfolding get_session
found_s = refl

other_run : ◌≢◌ {A = String} "r" "q"
other_run e = ground (arith, eq_iff "r" "q")

add_run_lost_example :
    (y : Session) × (get_session "s"
        (update_session 8 "s"
          (add_run_updates "q" session)
          (update_session 7 "s" (add_run_updates "r" session) (session ∷ [])).0).0
      ≡ some y)
    × (one_of "q" y.run_ids ≡ true)
    × (one_of "r" y.run_ids ≡ false)
add_run_lost_example = add_run_lost 7 8 "r" "q" (session ∷ []) session found_s refl other_run
