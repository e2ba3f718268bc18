-- ===== src/UiLock/Exclusion.antt =====
-- What holds of the lock after any steps of its tasks.
use phylum.Common.{
  ℕ, ◌+◌, ◌-◌, ◌≤◌, String, Bool, true, false, Option, none, some, List, [], ◌∷◌, ◌++◌, ◌&&◌, ◌≡◌,
  ◌≢◌, inl, inr, refl, sym, ap, ◌∙◌, if◌then◌else◌, length, length-append, length-drop, Bool-cases,
  Option-cases, arith,
}
use phylum.UiLock.{
  Desktop, UiLock, Session, InputGuard, OperationRecord, begin_operation, finish_operation,
  acquire_simple, release_simple, clear_history, guard_acquire, guard_release, acquire, release,
  block_input, add_record, last_n, restore, session_report, report_or_none, set_cursor_pos,
  close_record, count_operation, new_input_guard, max_block_duration, CursorGuard,
  InterferenceReport,
}
use phylum.UiLock.System.{
  System, Step, enters, leaves, takes, gives, clears, moves, Reach, start, next,
}

-- The session has blocked the input.
abbrev pub blocks : Session → Bool
blocks s = elim s.input_guard [ none ↦ false | some i ↦ i.blocked ]

abbrev pub block_of : List Session → Bool
block_of [] = false
block_of (s ∷ rest) = blocks s

-- The lock is held by one task exactly where it is locked, the input is blocked only by the session
-- inside, and the counters and the history are within their bounds.
pub record IsExclusive (s : System) : Type 0 where
  pub held : length s.inside + s.simple ≡ (if s.lock.locked then 1 else 0)
  pub idle : s.lock.locked ≡ false → s.lock.active_operation ≡ none
  pub unblocked : s.desktop.input_blocked ≡ true → block_of s.inside ≡ true
  pub works : s.desktop.input_blocked ≡ true → (s.desktop.has_win32 && s.desktop.elevated) ≡ true
  pub counted : s.lock.total_interferences ≤ s.lock.total_operations
  pub short : (s.lock.max_history ≢ 0) → length s.lock.history ≤ s.lock.max_history

single :
    (before after : List Session) (x : Session) (inside : List Session) (n : ℕ) (locked : Bool)
    → inside ≡ before ++ x ∷ after
    → length inside + n ≡ (if locked then 1 else 0)
    → (before ++ after ≡ []) × (inside ≡ x ∷ []) × (n ≡ 0) × (locked ≡ true)
single [] [] x inside n locked e h = (refl, e, ground arith, ground arith)
single [] (y ∷ after) x inside n locked e h =
    absurd (ground (arith, ap (λ (xs : List Session). length xs) e))
single (y ∷ before) after x inside n locked e h =
    absurd
      (ground (arith, ap (λ (xs : List Session). length xs) e, length-append before (x ∷ after)))

length-add_record :
    (r : OperationRecord) (l : UiLock)
    → (l.max_history ≢ 0)
    → length (add_record r l).history ≤ l.max_history
unfolding add_record last_n
length-add_record r l h =
    ground (arith, length-drop (length (l.history ++ r ∷ []) - l.max_history) (l.history ++ r ∷ []))

-- The block of the input is the guard's.
record IsGuarded (d : Desktop) (g : Option InputGuard) : Type 0 where
  by_guard :
      d.input_blocked ≡ true → (elim g as (λ _. Bool) [ none ↦ false | some i ↦ i.blocked ]) ≡ true
  works : d.input_blocked ≡ true → (d.has_win32 && d.elevated) ≡ true

guard_release-unblocks :
    (d : Desktop) (g : Option InputGuard)
    → IsGuarded d g
    → (guard_release d g).input_blocked ≡ false
unfolding guard_release release block_input
guard_release-unblocks d none h = ground (arith, h.by_guard)
guard_release-unblocks d (some i) h = ground (arith, h.by_guard, h.works)

guard_acquire-IsGuarded :
    (now : ℕ) (d : Desktop) (g : Option InputGuard)
    → d.input_blocked ≡ false
    → IsGuarded (guard_acquire now d g).1 (guard_acquire now d g).0
unfolding guard_acquire acquire block_input
guard_acquire-IsGuarded now d none h = record {
  by_guard = λ e. ground arith;
  works = λ e. ground arith;
}
guard_acquire-IsGuarded now d (some i) h = elim (Bool-cases (d.has_win32 && d.elevated)) [
  | inl e ↦ rw e (record { by_guard = λ f. refl; works = λ f. e })
  | inr e ↦ rw e (record { by_guard = λ f. ground arith; works = λ f. ground arith })
]

restore-input_blocked :
    (r : InterferenceReport) (d : Desktop) (c : CursorGuard)
    → (restore r d c).0.input_blocked ≡ d.input_blocked
unfolding restore set_cursor_pos
restore-input_blocked r d c = elim (Option-cases c.saved) [
  | inl e ↦ rw (e, restore) refl
  | inr (p, e) ↦ (elim (Bool-cases c.restores) [
    | inr f ↦ rw (e, f, restore) refl
    | inl f ↦ elim (Bool-cases r.detected) [
      | inl k ↦ rw (e, f, k, restore) refl
      | inr k ↦ elim (Bool-cases d.has_win32) [
        | inl w ↦ rw (e, f, k, w, restore) refl
        | inr w ↦ rw (e, f, k, w, restore) refl
      ]
    ]
  ])
]

none_inside : (inside : List Session) (n : ℕ) → length inside + n ≡ 0 → (inside ≡ []) × (n ≡ 0)
none_inside [] n h = (refl, ground arith)
none_inside (x ∷ inside) n h = absurd (ground arith)

no_block_inside : (s : System) → s.inside ≡ [] → IsExclusive s → s.desktop.input_blocked ≡ false
no_block_inside s e h = elim (Bool-cases s.desktop.input_blocked) [
  | inl f ↦ let blocked = h.unblocked f in absurd (ground (arith, rw e at blocked))
  | inr f ↦ f
]

enters-IsExclusive :
    (s : System) (name : String) (block : Bool) (restores : Option Bool) (now : ℕ)
    → s.lock.locked ≡ false
    → IsExclusive s
    → IsExclusive (
        let begun = begin_operation name block restores now s.lock s.desktop in
        record s { lock = begun.1; desktop = begun.2; inside = begun.0 ∷ s.inside })
unfolding begin_operation
enters-IsExclusive s name block restores now free h =
    let empty = none_inside s.inside s.simple (rw free at (h.held)) in
    let free_input = no_block_inside s (empty.0) h in
    let guarded =
      guard_acquire-IsGuarded now s.desktop
        (if block then some (new_input_guard max_block_duration) else none) free_input in
    record {
      held = ground (arith, empty.0, empty.1);
      idle = λ f. ground arith;
      unblocked = guarded.by_guard;
      works = guarded.works;
      counted = h.counted;
      short = h.short;
    }

finish-IsExclusive :
    (s : System) (x : Session) (failure : Option String) (now : ℕ)
    → s.inside ≡ x ∷ []
    → s.simple ≡ 0
    → IsExclusive s
    → IsExclusive (
        let ended = finish_operation x failure now s.lock s.desktop in
        record s { lock = ended.0; desktop = ended.1; inside = [] })
unfolding finish_operation add_record count_operation
finish-IsExclusive s x failure now one none_simple h =
    let guarded : IsGuarded s.desktop x.input_guard = record {
      by_guard = λ f. rw one at (h.unblocked f);
      works = h.works;
    } in
    let open_input = guard_release-unblocks s.desktop x.input_guard guarded in
    let report = report_or_none (session_report now (guard_release s.desktop x.input_guard) x) in
    let kept =
      restore-input_blocked report (guard_release s.desktop x.input_guard) x.cursor_guard in
    record {
      held = omega arith;
      idle = λ f. refl;
      unblocked = λ f. ground (arith, kept, open_input);
      works = λ f. ground (arith, kept, open_input);
      counted = ground (arith, h.counted);
      short = λ n.
          length-add_record
            (close_record failure (session_report now (guard_release s.desktop x.input_guard) x) now
              x.op_record)
            (count_operation report.detected s.lock) n;
    }

Step-IsExclusive : {s t : System} → Step s t → IsExclusive s → IsExclusive t
unfolding acquire_simple release_simple clear_history
Step-IsExclusive {s} {t} (enters name block restores now free e) h =
    rw e (enters-IsExclusive s name block restores now free h)
Step-IsExclusive {s} {t} (leaves before after x failure now listed e) h =
    let (none_left, one, none_simple, _) =
      single before after x s.inside s.simple s.lock.locked listed h.held in
    rw (e, none_left) (finish-IsExclusive s x failure now one none_simple h)
Step-IsExclusive {s} {t} (takes free e) h =
    let empty = none_inside s.inside s.simple (rw free at (h.held)) in
    rw e (record {
      held = ground (arith, ap (λ (xs : List Session). length xs) (empty.0), empty.1);
      idle = λ f. ground arith;
      unblocked = h.unblocked;
      works = h.works;
      counted = h.counted;
      short = h.short;
    })
Step-IsExclusive {s} {t} (gives n one e) h = rw e (record {
  held = ground (arith, h.held);
  idle = λ f. refl;
  unblocked = h.unblocked;
  works = h.works;
  counted = h.counted;
  short = h.short;
})
Step-IsExclusive {s} {t} (clears e) h = rw e (record {
  held = h.held;
  idle = h.idle;
  unblocked = h.unblocked;
  works = h.works;
  counted = h.counted;
  short = λ n. omega arith;
})
Step-IsExclusive {s} {t} (moves d same win can e) h = rw e (record {
  held = h.held;
  idle = h.idle;
  unblocked = λ f. h.unblocked (sym same ∙ f);
  works = λ f. rw (win, can) (h.works (sym same ∙ f));
  counted = h.counted;
  short = h.short;
})

-- After any steps of the tasks, where `release_simple` is called only by tasks that hold the lock by
-- `acquire_simple`: one task holds the lock where it is locked, and none where it is not; there is no
-- active operation where it is not locked; the input is blocked only while the session inside has
-- blocked it; there are no more interferences than operations; and the history has at most
-- `max_history` records, where that is not zero.
pub Reach-IsExclusive : {s : System} → Reach s → IsExclusive s
Reach-IsExclusive {s} (start restores detects n l i z b) = record {
  held = rw (l, i, z) (omega arith);
  idle = λ f. rw l refl;
  unblocked = λ f. absurd (ground arith);
  works = λ f. absurd (ground arith);
  counted = rw l (omega arith);
  short = λ k. rw l (omega arith);
}
Reach-IsExclusive (next r st) = Step-IsExclusive st (Reach-IsExclusive r)
