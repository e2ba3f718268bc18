-- ===== src/SessionManager/Invariant.antt =====
-- What holds of every session after any interleaving of calls.
use mathlib.Core.Path.{subst}
use phylum.Common.{
  ℕ, suc, ◌+◌, ◌≤◌, ◌<◌, String, Bool, not, Option, some, List, [], ◌∷◌, ◌≡◌, ◌≢◌, inl, inr, refl,
  sym, ap, ◌∙◌, arith, length, get_elem?, one_of, find?-In, All, All-append, Bool-cases, nat_eq,
  nat_eq_iff, ltb, ltb→lt, Option-cases, if◌then◌else◌, modify, length-modify,
  get_elem?-modify_other, get_elem?-modify_same, modify-absent, All-middle, All-map, filter-All_of,
  In-All,
}
use phylum.Common.Sets.{Unique, Unique-snoc}
use phylum.SessionManager.{
  Session, Phase, Table, Request, Updates, new_session, create_session, has_id, get_session,
  apply_updates, update_where, update_session, append_new, complete_phase, activate_phase,
  checkpoint_updates, add_run_updates, add_goal_updates, merge_context_updates,
  advance_phase_updates, expire_stale, is_stale, cleanup_old, is_old,
}
use phylum.SessionManager.Interleaving.{
  Call, checkpoints, merges, adds_run, adds_goal, advances, updates_of, System, Step, creates,
  reads, writes, ends, expires, cleans, Reach, start, next,
}

-- The runs and the goals of a session are sets, its runs are counted, and the phases before the
-- current one are completed.
pub record IsSound (s : Session) : Type 0 where
  pub runs : Unique s.run_ids
  pub counted : s.total_runs ≡ length s.run_ids
  pub goals : Unique s.goal_ids
  pub within : s.current_phase ≤ length s.phases
  pub done :
      (i : ℕ) (p : Phase)
      → i < s.current_phase
      → get_elem? s.phases i ≡ some p
      → p.status ≡ some "completed"

Unique-append_new : (x : String) (xs : List String) → Unique xs → Unique (append_new x xs)
unfolding append_new
Unique-append_new x xs u = elim (Bool-cases (one_of x xs)) [
  | inl e ↦ rw e u
  | inr e ↦ rw e (Unique-snoc xs x u e)
]

some_inj : {A : Type 0} {a b : A} → some a ≡ some b → a ≡ b
some_inj e = cc

-- The phases before the next one are completed when the current one is.
module _ (now : ℕ) (x : Session) (sound : IsSound x) where
  completed : List Phase
  completed = modify x.current_phase (complete_phase now) x.phases

  completed_done :
      (i : ℕ) (p : Phase)
      → i < suc x.current_phase
      → get_elem? completed i ≡ some p
      → p.status ≡ some "completed"
  unfolding completed
  completed_done i p lt h = elim (Bool-cases (nat_eq x.current_phase i)) [
    | inr e ↦
        let other : x.current_phase ≢ i = λ same. ground (arith, nat_eq_iff x.current_phase i) in
        sound.done i p (ground (arith, nat_eq_iff x.current_phase i))
          (sym (get_elem?-modify_other x.current_phase i (complete_phase now) x.phases other) ∙ h)
    | inl e ↦
        let same : x.current_phase ≡ i = (nat_eq_iff x.current_phase i).0 e in at_current i p same h
  ]
    where
      at_current :
          (i : ℕ) (p : Phase)
          → x.current_phase ≡ i
          → get_elem? (modify x.current_phase (complete_phase now) x.phases) i ≡ some p
          → p.status ≡ some "completed"
      at_current i p same h = elim (Option-cases (get_elem? x.phases x.current_phase)) [
        | inl e ↦ absurd (
            ground (
              arith,
              modify-absent x.current_phase (complete_phase now) x.phases e,
              h,
              e,
              ap {B = Option Phase}
                  (λ k. get_elem? (modify x.current_phase (complete_phase now) x.phases) k) same,
              ap {B = Option Phase} (λ (ps : List Phase). get_elem? ps x.current_phase)
                  (modify-absent x.current_phase (complete_phase now) x.phases e),
            ))
        | inr (q, e) ↦
            let found = get_elem?-modify_same x.current_phase (complete_phase now) x.phases q e in
            let equal : complete_phase now q ≡ p = some_inj (
              sym found
              ∙ ap (λ k. get_elem? (modify x.current_phase (complete_phase now) x.phases) k) same
              ∙ h) in
            ap {B = Option String} (λ (r : Phase). r.status) (sym equal)
      ]

  active_done :
      (i : ℕ) (p : Phase)
      → i < suc x.current_phase
      → get_elem?
          (if ltb (x.current_phase + 1) (length completed)
            then modify (x.current_phase + 1) (activate_phase now) completed
            else completed)
          i
        ≡ some p
      → p.status ≡ some "completed"
  active_done i p lt h = elim (Bool-cases (ltb (x.current_phase + 1) (length completed))) [
    | inr e ↦ completed_done i p lt (rw e at h)
    | inl e ↦
        let h' : get_elem? (modify (x.current_phase + 1) (activate_phase now) completed) i
            ≡ some p =
          rw e at h in
        completed_done i p lt (
          sym (
            get_elem?-modify_other (x.current_phase + 1) i (activate_phase now) completed
              (λ same. omega arith))
          ∙ h')
  ]

  length-active :
      length (
        if ltb (x.current_phase + 1) (length completed)
        then modify (x.current_phase + 1) (activate_phase now) completed
        else completed)
      ≡ length x.phases
  unfolding completed
  length-active = elim (Bool-cases (ltb (x.current_phase + 1) (length completed))) [
    | inr e ↦ rw e (length-modify x.current_phase (complete_phase now) x.phases)
    | inl e ↦ rw e (
        length-modify (x.current_phase + 1) (activate_phase now) completed
        ∙ length-modify x.current_phase (complete_phase now) x.phases)
  ]

  -- What an operation writes of a session keeps another sound, such as what has become of it.
  IsSound-updates :
      (call : Call) (u : Updates) (y : Session)
      → updates_of now call x ≡ some u
      → IsSound y
      → IsSound (apply_updates now u y)
  unfolding updates_of apply_updates add_run_updates add_goal_updates checkpoint_updates
      merge_context_updates advance_phase_updates completed
  IsSound-updates (checkpoints saved) u y h s =
      subst (λ v. IsSound (apply_updates now v y)) (some_inj h)
        (record {
          runs = s.runs;
          counted = s.counted;
          goals = s.goals;
          within = s.within;
          done = s.done;
        })
  IsSound-updates (merges context) u y h s =
      subst (λ v. IsSound (apply_updates now v y)) (some_inj h)
        (record {
          runs = s.runs;
          counted = s.counted;
          goals = s.goals;
          within = s.within;
          done = s.done;
        })
  IsSound-updates (adds_run id) u y h s =
      subst (λ v. IsSound (apply_updates now v y)) (some_inj h)
        (record {
          runs = Unique-append_new id x.run_ids sound.runs;
          counted = refl;
          goals = s.goals;
          within = s.within;
          done = s.done;
        })
  IsSound-updates (adds_goal id) u y h s =
      subst (λ v. IsSound (apply_updates now v y)) (some_inj h)
        (record {
          runs = s.runs;
          counted = s.counted;
          goals = Unique-append_new id x.goal_ids sound.goals;
          within = s.within;
          done = s.done;
        })
  IsSound-updates advances u y h s = elim (Bool-cases (ltb x.current_phase (length x.phases))) [
    | inr e ↦ absurd (ground arith)
    | inl e ↦
        let h' = rw e at h in
        subst (λ v. IsSound (apply_updates now v y)) (some_inj h')
          (record {
            runs = s.runs;
            counted = s.counted;
            goals = s.goals;
            within = omega (arith, length-active, ltb→lt x.current_phase (length x.phases) e);
            done = λ i p lt. active_done i p (omega arith);
          })
  ]

update_where-All :
    (P : Session → Type 0) (test : Session → Bool) (change : Session → Session)
    → ((s : Session) → P s → P (change s))
    → (rows : Table) → All P rows
    → All P (update_where test change rows)
unfolding update_where
update_where-All P test change keeps [] h = tt
update_where-All P test change keeps (s ∷ rows) h = elim (Bool-cases (test s)) [
  | inl e ↦ rw e (keeps s h.0, update_where-All P test change keeps rows h.1)
  | inr e ↦ rw e (h.0, update_where-All P test change keeps rows h.1)
]

new_session-IsSound : (id : String) (now : ℕ) (r : Request) → IsSound (new_session id now r)
unfolding new_session
new_session-IsSound id now r = record {
  runs = tt;
  counted = refl;
  goals = tt;
  within = omega arith;
  done = λ i p lt. absurd (omega arith);
}

record IsKept (s : System) : Type 0 where
  rows : All IsSound s.rows
  pending : All (λ r. IsSound (r.0)) s.pending

Step-IsKept : {s t : System} → Step s t → IsKept s → IsKept t
unfolding create_session update_session expire_stale cleanup_old get_session
Step-IsKept {s} {t} (creates id now r e) h = rw e (record {
  rows =
      All-append IsSound s.rows (new_session id now r ∷ []) h.rows
        (new_session-IsSound id now r, tt);
  pending = h.pending;
})
Step-IsKept {s} {t} (reads id call x found e) h = rw e (record {
  rows = h.rows;
  pending = (In-All IsSound x s.rows ((find?-In (has_id id) s.rows x found).1) h.rows, h.pending);
})
Step-IsKept {s} {t} (writes now x call u before after split made e) h =
    let (sound, others) =
      All-middle (λ r. IsSound (r.0)) before (x, call) after (rw split at (h.pending)) in
    rw e (record {
      rows =
          update_where-All IsSound (has_id x.session_id) (apply_updates now u)
            (λ y k. IsSound-updates now x sound call u y made k) s.rows h.rows;
      pending = others;
    })
Step-IsKept {s} {t} (ends now x call before after split made e) h = rw e (record {
  rows = h.rows;
  pending = (All-middle (λ r. IsSound (r.0)) before (x, call) after (rw split at (h.pending))).1;
})
Step-IsKept {s} {t} (expires now inactive e) h = rw e (record {
  rows =
      update_where-All IsSound (is_stale now inactive) _
        (λ y k. record {
          runs = k.runs;
          counted = k.counted;
          goals = k.goals;
          within = k.within;
          done = k.done;
        })
        s.rows h.rows;
  pending = h.pending;
})
Step-IsKept {s} {t} (cleans now age e) h = rw e (record {
  rows =
      All-map _ IsSound _ (λ x k. k.0)
        (filter-All_of IsSound (λ y. not (is_old now age y)) s.rows h.rows);
  pending = h.pending;
})

Reach-IsKept : {s : System} → Reach s → IsKept s
Reach-IsKept {s} (start none_there none_pending) = record {
  rows = rw none_there tt;
  pending = rw none_pending tt;
}
Reach-IsKept (next r st) = Step-IsKept st (Reach-IsKept r)

-- After any interleaving of the calls that make, change, expire and remove sessions, but for
-- `update_session` by itself, in every row: no run and no goal stands twice, `total_runs` is the
-- number of the runs, and the phases before the current one, which are all there, are completed.
pub Reach-AllSound : {s : System} → Reach s → All IsSound s.rows
Reach-AllSound r = (Reach-IsKept r).rows
