-- ===== src/ActionExecutor/Ends.antt =====
-- `execute` ends, after at most as many attempts as the task may make.
use mathlib.Core.Path.{subst}
use Prim.Native.Nat.{max}
use phylum.Common.{
  sym, ℕ, zero, suc, ◌+◌, ◌-◌, ◌≤◌, ◌<◌, String, some, [], ◌≡◌, ◌⊎◌, refl, inl, inr, arith,
}
use phylum.RecoveryEngine.{Issue}
use phylum.ActionExecutor.{
  Services, Setting, State, Ended, cancelled, returned, Gate, passes, halts, Tried, gives,
  is_cancelled, throws, Next, again, over, guard, try_tool, after_try, after_guard, attempt_once,
  execute,
}
use phylum.ActionExecutor.Guards.{Phase, closed, IsGuarded, Opens, guard-Gated}
use phylum.ActionExecutor.Attempts.{Fits, Stepped, try_tool-Tracked, recover-Stepped}

Gate-cases : (g : Gate) → (g ≡ passes) ⊎ ((e : Ended) × g ≡ halts e)
Gate-cases passes = inl refl
Gate-cases (halts e) = inr (e, refl)

Tried-cases :
    (t : Tried)
    → (t ≡ is_cancelled)
      ⊎ (((status : String) × t ≡ gives status) ⊎ ((text : String) × t ≡ throws text))
Tried-cases is_cancelled = inl refl
Tried-cases (gives status) = inr (inl (status, refl))
Tried-cases (throws text) = inr (inr (text, refl))

Next-cases : (n : Next) → (n ≡ again) ⊎ ((e : Ended) × n ≡ over e)
Next-cases again = inl refl
Next-cases (over e) = inr (e, refl)

module _ (services : Services) (task : Setting) where
  -- An attempt, which is made or not, after those before it.
  record Once (k n : ℕ) (r : State × Next) : Type 0 where
    made : ℕ
    counted : r.0.attempt + k ≡ n + made
    few : r.0.attempt ≤ n + 1
    more : r.1 ≡ again → r.0.attempt ≡ n + 1
    stepped : Stepped services task made r.0.attempt r

  halts-Once :
      {k : ℕ} (n : ℕ) (st : State) (end : Ended)
      → st.attempt ≡ n
      → Opens services task k st.log (halts end)
      → Once k n (st, over end)
  halts-Once {k} n st end same (phase, kept) = record {
    made = k;
    counted = omega (arith, same);
    few = omega (arith, same);
    more = λ e. absurd (ground (arith, e));
    stepped = record { same = refl; fits = tt; phase = phase; guarded = kept };
  }

  made-Once : {k n : ℕ} (r : State × Next) → Stepped services task (suc k) (n + 1) r → Once k n r
  made-Once {k} {n} r stepped = record {
    made = suc k;
    counted = omega (arith, stepped.same);
    few = omega (arith, stepped.same);
    more = λ _. stepped.same;
    stepped = record {
      same = refl;
      fits = subst (λ m. Fits services task m r.1) (sym stepped.same) stepped.fits;
      phase = stepped.phase;
      guarded = stepped.guarded;
    };
  }

  attempt_once-Once :
      {k : ℕ} {phase : Phase} (st : State)
      → IsGuarded services task k phase st.log
      → Once k st.attempt (attempt_once services task st)
  unfolding attempt_once after_guard after_try
  attempt_once-Once {k} st h =
      let gated = guard-Gated services task st h in
      let guarded = (guard services task st).0 in
      elim (Gate-cases (guard services task st).1) [
        | inr (end, e) ↦
            rw (e, attempt_once, after_guard)
              (halts-Once st.attempt guarded end gated.same
                (subst (Opens services task k guarded.log) e gated.opens))
        | inl e ↦
            let tracked =
              try_tool-Tracked services task guarded
                (subst (Opens services task k guarded.log) e gated.opens) in
            let same : (try_tool services task guarded).0.attempt ≡ st.attempt + 1 =
              omega (arith, gated.same, tracked.same) in
            let ended : (end : Ended)
                → Once k st.attempt ((try_tool services task guarded).0, over end) =
              λ end. made-Once _ (record {
                same = same;
                fits = tt;
                phase = tracked.phase;
                guarded = tracked.guarded;
              }) in
            elim (Tried-cases (try_tool services task guarded).1) [
              | inl f ↦ rw (e, f, attempt_once, after_guard, after_try) (ended cancelled)
              | inr (inl (status, f)) ↦
                  rw (e, f, attempt_once, after_guard, after_try) (ended (returned status))
              | inr (inr (text, f)) ↦
                  rw (e, f, attempt_once, after_guard, after_try)
                    (made-Once _ (recover-Stepped services task text _ same tracked.guarded))
            ]
      ]

  -- The end of an execution that began with n attempts, of which k were logged.
  pub record Done (k n : ℕ) (r : State × Ended) : Type 0 where
    pub few : r.0.attempt ≤ max (n + 1) task.max_attempts
    pub made : ℕ
    pub counted : r.0.attempt + k ≡ n + made
    pub phase : Phase
    pub guarded : IsGuarded services task made phase r.0.log

  execute_lem :
      (fuel : ℕ) {k : ℕ} {phase : Phase} (st : State)
      → task.max_attempts - st.attempt < fuel
      → IsGuarded services task k phase st.log
      → (r : State × Ended) × (execute services task fuel st ≡ some r) × Done k st.attempt r
  unfolding execute
  execute_lem zero st enough h = absurd (omega (arith, enough))
  execute_lem (suc fuel) {k} st enough h =
      let once = attempt_once-Once st h in
      let next = attempt_once services task st in
      elim (Next-cases next.1) [
        | inr (end, e) ↦
            rw (e, execute)
              (
                (next.0, end),
                refl,
                record {
                  few = omega (arith, once.few);
                  made = once.made;
                  counted = once.counted;
                  phase = once.stepped.phase;
                  guarded = once.stepped.guarded;
                },
              )
        | inl e ↦
            let left = subst (Fits services task next.0.attempt) e once.stepped.fits in
            let (r, ends, done) =
              execute_lem fuel next.0 (omega (arith, once.more e, left, enough))
                once.stepped.guarded in
            rw (e, execute)
              (
                r,
                ends,
                record {
                  few = omega (arith, done.few, once.few, left);
                  made = done.made;
                  counted = omega (arith, done.counted, once.counted);
                  phase = done.phase;
                  guarded = done.guarded;
                },
              )
      ]

-- The execution of a task ends, within one attempt more than are left, whatever the tool, the user and
-- the other collaborators answer. The attempts never become more than `max_attempts` or, where fewer than
-- one were left, than one more than before, and all that are counted stand in the log. Each of them has a
-- verdict of its own, made while the task is not cancelled, that allows it, or that wants an approval: then
-- the user answered "approved", now or to an approval of this task that was resolved before. In an attempt
-- the tool is run at most once, while the task is not cancelled. The scripts of a recovery are run without
-- a verdict.
pub execute-Done :
    (services : Services) (task : Setting) (attempt : ℕ) (issue : Issue)
    → (r : State × Ended) × (execute services task
          (suc (task.max_attempts - attempt))
          (record { attempt = attempt; issue = issue; log = [] })
        ≡ some r)
      × Done services task 0 attempt r
execute-Done services task attempt issue =
    let first : IsGuarded services task 0 closed [] = IsGuarded.starts in
    let begun : State = record { attempt = attempt; issue = issue; log = [] } in
    execute_lem services task (suc (task.max_attempts - attempt)) begun (omega (arith)) first
