-- ===== src/SessionManager/Lookup.antt =====
-- Which session is found.
use phylum.Common.{
  ℕ, String, Bool, true, false, Option, none, some, ◌≡◌, ◌≢◌, ◌⊎◌, inl, inr, arith, All,
  Option-cases, eq_iff, ◌==◌,
}
use phylum.Common.Select.{IsFirst, head-IsFirst, head_All_false}
use phylum.SessionManager.{
  Session, Table, latest_first, is_live, serves, latest, find_active_session,
}

latest_first_total : (a b : Session) → latest_first a b ≡ false → latest_first b a ≡ true
unfolding latest_first
latest_first_total a b h = ground arith

latest_first_trans :
    (a b c : Session) → latest_first a b ≡ true → latest_first b c ≡ true → latest_first a c ≡ true
unfolding latest_first
latest_first_trans a b c h k = ground arith

latest-IsFirst :
    (test : Session → Bool) (rows : Table) (s : Session)
    → latest test rows ≡ some s
    → IsFirst latest_first test rows s
unfolding latest
latest-IsFirst test rows s h =
    head-IsFirst latest_first latest_first_total latest_first_trans test rows s h

latest_All_false :
    (test : Session → Bool) (rows : Table)
    → latest test rows ≡ none
    → All (λ s. test s ≡ false) rows
unfolding latest
latest_All_false test rows h =
    head_All_false latest_first latest_first_total latest_first_trans test rows h

-- What is found for an objective: the live session of the workspace that was last active among those
-- with the objective or, where there are none of these, among all; nothing, where none is live.
abbrev pub IsFound : String → String → ℕ → Table → Option Session → Type 0
IsFound workspace wanted now rows none = All (λ s. is_live workspace now s ≡ false) rows
IsFound workspace wanted now rows (some s) =
    IsFirst latest_first (serves workspace now wanted) rows s
    ⊎ (All (λ x. serves workspace now wanted x ≡ false) rows
        × IsFirst latest_first (is_live workspace now) rows s)

any_live_lem :
    (workspace wanted : String) (now : ℕ) (rows : Table)
    → All (λ x. serves workspace now wanted x ≡ false) rows
    → IsFound workspace wanted now rows (latest (is_live workspace now) rows)
any_live_lem workspace wanted now rows h =
    elim (Option-cases (latest (is_live workspace now) rows)) [
      | inl e ↦ rw e (latest_All_false (is_live workspace now) rows e)
      | inr (s, e) ↦ rw e (inr (h, latest-IsFirst (is_live workspace now) rows s e))
    ]

-- For an objective that is not empty, `find_active_session` returns the live session of the workspace
-- that was last active among those with the objective or, where there are none of these, among all;
-- it returns nothing where no session of the workspace is live.
pub find_active_session-IsFound :
    (workspace wanted : String) (now : ℕ) (rows : Table)
    → wanted ≢ ""
    → IsFound workspace wanted now rows (find_active_session workspace (some wanted) now rows)
unfolding find_active_session
find_active_session-IsFound workspace wanted now rows there =
    let named : (wanted == "") ≡ false = ground (arith, eq_iff wanted "") in
    elim (Option-cases (latest (serves workspace now wanted) rows)) [
      | inr (s, e) ↦ rw (named, e) (inl (latest-IsFirst (serves workspace now wanted) rows s e))
      | inl e ↦
          rw (named, e)
            (any_live_lem workspace wanted now rows
              (latest_All_false (serves workspace now wanted) rows e))
    ]
