-- ===== src/Queue/Rows.antt =====
-- What a change of the rows keeps: the ids, and how often each goal is attempted.
use mathlib.Core.Path.{subst}
use Prim.Native.Nat.{max}
use phylum.Common.{
  In-All, ◌∙◌, ℕ, ◌≤◌, ◌<◌, ◌+◌, String, ◌≡◌, ◌⊎◌, inl, inr, refl, Bool, true, false, List, [], ◌∷◌,
  arith, All, All-map, In, Bool-cases, eq_iff, ap, ltb, ltb→lt,
}
use phylum.Queue.{
  Goal, Table, GoalStatus, is_pending, is_waiting, has_id, update, start_goal, fail_change,
  recover_rows,
}

-- A goal is attempted at most `max(1, max_retries)` times, and one more attempt is left while it waits.
pub record IsBounded (g : Goal) : Type 0 where
  pub attempts : g.attempt ≤ max 1 g.max_retries
  pub room : (is_pending g.status ≡ false) ⊎ (g.attempt < max 1 g.max_retries)

-- No two rows have one id.
abbrev pub IsKeyed : Table → Type 0
IsKeyed [] = Unit
IsKeyed (g ∷ rows) = All (λ h. has_id g.goal_id h ≡ false) rows × IsKeyed rows

pub record IsSound (rows : Table) : Type 0 where
  pub keyed : IsKeyed rows
  pub bounded : All IsBounded rows

-- A change of rows that keeps the id.
abbrev KeepsId : (Goal → Goal) → Type 0
KeepsId change = (g : Goal) → (change g).goal_id ≡ g.goal_id

fresh_after :
    (i : String) (test : Goal → Bool) (change : Goal → Goal) (rows : Table)
    → KeepsId change
    → All (λ h. has_id i h ≡ false) rows
    → All (λ h. has_id i h ≡ false) (update test change rows)
unfolding update
fresh_after i test change [] keeps h = tt
fresh_after i test change (g ∷ rows) keeps h = elim (Bool-cases (test g)) [
  | inl e ↦ rw e (rw keeps h.0, fresh_after i test change rows keeps h.1)
  | inr e ↦ rw e (h.0, fresh_after i test change rows keeps h.1)
]

update-IsKeyed :
    (test : Goal → Bool) (change : Goal → Goal) (rows : Table)
    → KeepsId change
    → IsKeyed rows
    → IsKeyed (update test change rows)
unfolding update
update-IsKeyed test change [] keeps h = tt
update-IsKeyed test change (g ∷ rows) keeps h = elim (Bool-cases (test g)) [
  | inl e ↦ rw e (
    rw keeps (unfold update in fresh_after g.goal_id test change rows keeps h.0),
    update-IsKeyed test change rows keeps h.1,
  )
  | inr e ↦ rw e (
    unfold update in fresh_after g.goal_id test change rows keeps h.0,
    update-IsKeyed test change rows keeps h.1,
  )
]

-- In a keyed table only one row has the id of a given row.
pub agree :
    (rows : Table) (g : Goal)
    → IsKeyed rows
    → In g rows
    → All (λ h. (has_id g.goal_id h ≡ false) ⊎ (h ≡ g)) rows
agree [] g k m = absurd m
agree (x ∷ rows) g k (inl e) =
    (inr e, All-map _ _ rows (λ h n. inl (subst (λ y. has_id y.goal_id h ≡ false) e n)) k.0)
agree (x ∷ rows) g k (inr m) = (alone, agree rows g k.1 m)
  where
    alone : (has_id g.goal_id x ≡ false) ⊎ (x ≡ g)
    alone =
        let apart : has_id x.goal_id g ≡ false =
          In-All (λ h. has_id x.goal_id h ≡ false) g rows m k.0 in
        inl (ground (arith, eq_iff x.goal_id g.goal_id, eq_iff g.goal_id x.goal_id))

update_where :
    (P Q : Goal → Type 0) (test : Goal → Bool) (change : Goal → Goal) (rows : Table)
    → ((g : Goal) → Q g → P g → P (change g))
    → All P rows
    → All (λ g. (test g ≡ false) ⊎ Q g) rows
    → All P (update test change rows)
unfolding update
update_where P Q test change [] step h q = tt
update_where P Q test change (g ∷ rows) step h (inl no_test, q) =
    rw no_test (h.0, update_where P Q test change rows step h.1 q)
update_where P Q test change (g ∷ rows) step h (inr holds, q) = elim (Bool-cases (test g)) [
  | inl e ↦ rw e (step g holds h.0, update_where P Q test change rows step h.1 q)
  | inr e ↦ rw e (h.0, update_where P Q test change rows step h.1 q)
]

pub all_of : (P : Goal → Type 0) (rows : Table) → ((g : Goal) → P g) → All P rows
all_of P [] h = tt
all_of P (g ∷ rows) h = (h g, all_of P rows h)

pub update-IsSound :
    (Q : Goal → Type 0) (test : Goal → Bool) (change : Goal → Goal) (rows : Table)
    → KeepsId change
    → ((g : Goal) → Q g → IsBounded g → IsBounded (change g))
    → IsSound rows
    → All (λ g. (test g ≡ false) ⊎ Q g) rows
    → IsSound (update test change rows)
update-IsSound Q test change rows keeps step s q = record {
  keyed = update-IsKeyed test change rows keeps s.keyed;
  bounded = update_where IsBounded Q test change rows step s.bounded q;
}

waiting_pending : (st : GoalStatus) → is_waiting st ≡ true → is_pending st ≡ true
unfolding is_waiting is_pending
waiting_pending st h = ground arith

room_left : (p : Bool) {m n : ℕ} → p ≡ true → (p ≡ false) ⊎ (m < n) → m + 1 ≤ n
room_left p h (inl e) = absurd (ground arith)
room_left p h (inr l) = omega arith

pub start-IsBounded :
    (now : ℕ) (g : Goal) → is_waiting g.status ≡ true → IsBounded g → IsBounded (start_goal now g)
unfolding start_goal is_waiting is_pending
start-IsBounded now g w b = record {
  attempts = room_left (is_pending g.status) (waiting_pending g.status w) b.room;
  room = inl refl;
}

fail-IsBounded :
    (e₁ e₂ : String) (now later : ℕ) (g h : Goal)
    → h.attempt ≡ g.attempt
    → h.max_retries ≡ g.max_retries
    → IsBounded h
    → IsBounded (fail_change e₁ e₂ now later g h)
unfolding fail_change is_pending
fail-IsBounded e₁ e₂ now later g h a m b = elim (Bool-cases (ltb g.attempt g.max_retries)) [
  | inl e ↦
      let less = ltb→lt g.attempt g.max_retries e in
      rw e (record { attempts = b.attempts; room = inr (omega arith) })
  | inr e ↦ rw e (record { attempts = b.attempts; room = inl refl })
]

pub promote-IsBounded :
    (now : ℕ) (g : Goal)
    → is_pending g.status ≡ true
    → IsBounded g
    → IsBounded (record g { status = GoalStatus.queued; updated_at = now })
unfolding is_pending
promote-IsBounded now g p b = record {
  attempts = b.attempts;
  room = inr (let l = room_left (is_pending g.status) p b.room in omega arith);
}

pub plain-IsBounded :
    (g h : Goal)
    → h.attempt ≡ g.attempt
    → h.max_retries ≡ g.max_retries
    → is_pending h.status ≡ false
    → IsBounded g
    → IsBounded h
plain-IsBounded g h a m p b = record {
  attempts = let bound = b.attempts in omega arith;
  room = inl p;
}

-- The row that was read and a row of the table have the same counts.
abbrev SameCounts : Goal → Goal → Type 0
SameCounts g h = (h.attempt ≡ g.attempt) × (h.max_retries ≡ g.max_retries)

abbrev pub IsCurrent : Table → Goal → Type 0
IsCurrent rows g = All (λ h. (has_id g.goal_id h ≡ false) ⊎ SameCounts g h) rows

fail_change_same :
    (e₁ e₂ : String) (now later : ℕ) (r h : Goal)
    → ((fail_change e₁ e₂ now later r h).goal_id ≡ h.goal_id)
      × SameCounts h (fail_change e₁ e₂ now later r h)
unfolding fail_change
fail_change_same e₁ e₂ now later r h = elim (Bool-cases (ltb r.attempt r.max_retries)) [
  | inl e ↦ rw e (refl, (refl, refl))
  | inr e ↦ rw e (refl, (refl, refl))
]

IsCurrent-fail :
    (e₁ e₂ : String) (now later : ℕ) (r g : Goal) (test : Goal → Bool) (rows : Table)
    → IsCurrent rows g
    → IsCurrent (update test (fail_change e₁ e₂ now later r) rows) g
unfolding update
IsCurrent-fail e₁ e₂ now later r g test [] c = tt
IsCurrent-fail e₁ e₂ now later r g test (h ∷ rows) c = elim (Bool-cases (test h)) [
  | inl e ↦
      let (id_same, (a, m)) = fail_change_same e₁ e₂ now later r h in
      rw e (
        elim c.0 [ inl other ↦ inl (rw id_same other) | inr (a', m') ↦ inr (a ∙ a', m ∙ m') ],
        IsCurrent-fail e₁ e₂ now later r g test rows c.1,
      )
  | inr e ↦ rw e (c.0, IsCurrent-fail e₁ e₂ now later r g test rows c.1)
]

pub fail-IsSound :
    (e₁ e₂ : String) (now later : ℕ) (g : Goal) (rows : Table)
    → IsCurrent rows g
    → IsSound rows
    → IsSound (update (has_id g.goal_id) (fail_change e₁ e₂ now later g) rows)
fail-IsSound e₁ e₂ now later g rows c s =
    update-IsSound (SameCounts g) (has_id g.goal_id) (fail_change e₁ e₂ now later g) rows
      (λ h. (fail_change_same e₁ e₂ now later g h).0)
      (λ h same b. fail-IsBounded e₁ e₂ now later g h same.0 same.1 b) s c

pub recover-IsSound :
    (now : ℕ) (clock : ℕ → ℕ) (reads : List Goal) (n : ℕ) (rows : Table)
    → All (IsCurrent rows) reads
    → IsSound rows
    → IsSound (recover_rows now clock reads n rows).0
unfolding recover_rows
recover-IsSound now clock [] n rows c s = s
recover-IsSound now clock (g ∷ reads) n rows c s =
    recover-IsSound now clock reads (n + 1) _
      (All-map _ _ reads
        (λ h k.
          IsCurrent-fail "stale_running_recovered" "exceeded_max_retries_after_stale" now (clock n)
            g h (has_id g.goal_id) rows k)
        c.1)
      (fail-IsSound "stale_running_recovered" "exceeded_max_retries_after_stale" now (clock n) g
        rows c.0 s)

pub agree-IsCurrent : (rows : Table) (g : Goal) → IsKeyed rows → In g rows → IsCurrent rows g
agree-IsCurrent rows g k m = All-map _ _ rows (λ h a. counts h a) (agree rows g k m)
  where
    counts :
        (h : Goal)
        → (has_id g.goal_id h ≡ false) ⊎ (h ≡ g)
        → (has_id g.goal_id h ≡ false) ⊎ SameCounts g h
    counts h (inl e) = inl e
    counts h (inr e) = inr (ap (λ (x : Goal). x.attempt) e, ap (λ (x : Goal). x.max_retries) e)
