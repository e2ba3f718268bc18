-- ===== src/TaskGraph/Statuses.antt =====
-- What the passes over the tasks may change.
use mathlib.Core.List.{append_assoc, append-nil}
use phylum.Common.{
  &&-parts, String, ◌≡◌, ◌⊎◌, inl, inr, refl, Bool, true, false, not, List, [], ◌∷◌, ◌++◌, ◌&&◌,
  ◌||◌, arith, Both, Bool-cases, Option-cases, map, filter, non_empty, all, find?, ◌∙◌,
}
use phylum.TaskGraph.{
  Task, Status, skipped, blocked, is_runnable, is_success, is_failure, is_speculative,
  mutates_state, skip_loser, resolve_group, resolve_groups, groups_of, resolve_alternative_branches,
  mark_task, mark_from, mark_blocked, settle, failed_deps, deps_of, dep_is, is_ready, by_id,
  in_group,
}

-- The task keeps its id, and its status unless it was runnable and is now skipped or blocked.
pub record IsKept (t u : Task) : Type 0 where
  pub id_same : u.id ≡ t.id
  pub deps_same : u.depends_on ≡ t.depends_on
  pub status_kept :
      (u.status ≡ t.status)
      ⊎ ((is_runnable t.status ≡ true) × ((u.status ≡ skipped) ⊎ (u.status ≡ blocked)))

IsKept-refl : (t : Task) → IsKept t t
IsKept-refl t = record { id_same = refl; deps_same = refl; status_kept = inl refl }

kept_twice :
    (a b c : Status)
    → (b ≡ a) ⊎ ((is_runnable a ≡ true) × ((b ≡ skipped) ⊎ (b ≡ blocked)))
    → (c ≡ b) ⊎ ((is_runnable b ≡ true) × ((c ≡ skipped) ⊎ (c ≡ blocked)))
    → (c ≡ a) ⊎ ((is_runnable a ≡ true) × ((c ≡ skipped) ⊎ (c ≡ blocked)))
unfolding is_runnable
kept_twice a b c h k = ground arith

IsKept-trans : (t u v : Task) → IsKept t u → IsKept u v → IsKept t v
IsKept-trans t u v h k = record {
  id_same = k.id_same ∙ h.id_same;
  deps_same = k.deps_same ∙ h.deps_same;
  status_kept = kept_twice t.status u.status v.status h.status_kept k.status_kept;
}

module _ {A : Type 0} where
  Both-refl : (P : A → A → Type 0) (xs : List A) → ((x : A) → P x x) → Both P xs xs
  Both-refl P [] r = tt
  Both-refl P (x ∷ xs) r = (r x, Both-refl P xs r)

  Both-trans :
      (P : A → A → Type 0) (xs ys zs : List A)
      → ((x y z : A) → P x y → P y z → P x z)
      → Both P xs ys
      → Both P ys zs
      → Both P xs zs
  Both-trans P [] [] [] t h k = tt
  Both-trans P [] [] (z ∷ zs) t h k = k
  Both-trans P [] (y ∷ ys) zs t h k = absurd h
  Both-trans P (x ∷ xs) [] zs t h k = absurd h
  Both-trans P (x ∷ xs) (y ∷ ys) [] t h k = k
  Both-trans P (x ∷ xs) (y ∷ ys) (z ∷ zs) t h k = (t x y z h.0 k.0, Both-trans P xs ys zs t h.1 k.1)

  Both-map :
      (P : A → A → Type 0) (f : A → A) (xs : List A) → ((x : A) → P x (f x)) → Both P xs (map f xs)
  Both-map P f [] h = tt
  Both-map P f (x ∷ xs) h = (h x, Both-map P f xs h)

  Both-snoc :
      (P : A → A → Type 0) (xs ys : List A) (x y : A)
      → Both P xs ys
      → P x y
      → Both P (xs ++ x ∷ []) (ys ++ y ∷ [])
  Both-snoc P [] [] x y h p = (p, tt)
  Both-snoc P [] (z ∷ ys) x y h p = absurd h
  Both-snoc P (z ∷ xs) [] x y h p = absurd h
  Both-snoc P (z ∷ xs) (w ∷ ys) x y h p = (h.0, Both-snoc P xs ys x y h.1 p)

skip_loser-IsKept : (g : String) (w t : Task) → IsKept t (skip_loser g w t)
unfolding skip_loser
skip_loser-IsKept g w t = ground arith

mark_task-IsKept : (tasks : List Task) (t : Task) → IsKept t (mark_task tasks t)
unfolding mark_task
mark_task-IsKept tasks t =
    elim (Bool-cases
      (is_runnable t.status && (non_empty (failed_deps tasks t) && not t.speculative))) [
        | inl e ↦ rw e (record {
          id_same = refl;
          deps_same = refl;
          status_kept = inr ((&&-parts (is_runnable t.status) _ e).0, inr refl);
        })
        | inr e ↦ rw e (IsKept-refl t)
      ]

resolve_group-IsKept : (ts : List Task) (g : String) → Both IsKept ts (resolve_group ts g)
unfolding resolve_group
resolve_group-IsKept ts g =
    elim (Option-cases (find? (λ t. in_group g t && is_success t.status) ts)) [
      | inl e ↦ rw (e, resolve_group) (Both-refl IsKept ts IsKept-refl)
      | inr (w, e) ↦
          rw (e, resolve_group) (Both-map IsKept (skip_loser g w) ts (skip_loser-IsKept g w))
    ]

resolve_groups-IsKept : (ts : List Task) (gs : List String) → Both IsKept ts (resolve_groups ts gs)
unfolding resolve_groups
resolve_groups-IsKept ts [] = Both-refl IsKept ts IsKept-refl
resolve_groups-IsKept ts (g ∷ gs) =
    Both-trans IsKept ts (resolve_group ts g) _ IsKept-trans (resolve_group-IsKept ts g)
      (resolve_groups-IsKept (resolve_group ts g) gs)

mark_from-IsKept :
    (old before ts : List Task)
    → Both IsKept old before
    → Both IsKept (old ++ ts) (mark_from before ts)
unfolding mark_from
mark_from-IsKept old before [] h = rw append-nil h
mark_from-IsKept old before (t ∷ ts) h =
    let marked = mark_task (before ++ t ∷ ts) t in
    let rest =
      mark_from-IsKept (old ++ t ∷ []) (before ++ marked ∷ []) ts
        (Both-snoc IsKept old before t marked h (mark_task-IsKept (before ++ t ∷ ts) t)) in
    rw append_assoc at rest

-- The passes before a batch keep every task in its place with its id and its dependencies, and
-- change only runnable statuses, to skipped or blocked: what has ended or is running stays as it is.
pub settle-IsKept : (tasks : List Task) → Both IsKept tasks (settle tasks)
unfolding settle
settle-IsKept tasks =
    Both-trans IsKept tasks (resolve_alternative_branches tasks) _ IsKept-trans
      (unfold resolve_alternative_branches in resolve_groups-IsKept tasks (groups_of tasks))
      (unfold mark_blocked in mark_from-IsKept [] [] (resolve_alternative_branches tasks) tt)

exclusive : (st : Status) → is_failure st ≡ true → is_success st ≡ false
unfolding is_failure is_success
exclusive st h = ground arith

failure_no_success :
    (tasks : List Task) (d : String)
    → dep_is is_failure tasks d ≡ true
    → dep_is is_success tasks d ≡ false
unfolding dep_is
failure_no_success tasks d h = elim (Option-cases (by_id tasks d)) [
  | inl e ↦ rw (e, dep_is)
  | inr (u, e) ↦ rw (e, dep_is) (exclusive u.status (rw (e, dep_is) at h))
]

some_fails :
    (tasks : List Task) (ds : List String)
    → non_empty (filter (dep_is is_failure tasks) ds) ≡ true
    → (non_empty ds ≡ true) × (all (dep_is is_success tasks) ds ≡ false)
some_fails tasks [] h = absurd (ground arith)
some_fails tasks (d ∷ ds) h = elim (Bool-cases (dep_is is_failure tasks d)) [
  | inl e ↦ (refl, rw (failure_no_success tasks d e))
  | inr e ↦ let (_, later) = some_fails tasks ds (rw e at h) in (refl, ground (arith, later))
]

ready_false :
    (a s : Bool) {n m l : Bool}
    → n ≡ true
    → m ≡ true
    → l ≡ false
    → (a && (not n || ((s && not m) || l))) ≡ false
ready_false a s hn hm hl = ground arith

mark_speculative : (tasks : List Task) (t : Task) → t.speculative ≡ true → mark_task tasks t ≡ t
unfolding mark_task
mark_speculative tasks t s =
    elim (Bool-cases
      (is_runnable t.status && (non_empty (failed_deps tasks t) && not t.speculative))) [
        | inl e ↦ absurd (ground arith)
        | inr e ↦ rw e
      ]

-- A task that is marked speculative, changes state and has a failed dependency is left as it is by the
-- pass that blocks tasks, and is not ready.
pub speculative_mutation_stuck :
    (tasks : List Task) (t : Task)
    → t.speculative ≡ true
    → mutates_state t ≡ true
    → non_empty (failed_deps tasks t) ≡ true
    → (mark_task tasks t ≡ t) × (is_ready tasks t ≡ false)
unfolding is_ready failed_deps
speculative_mutation_stuck tasks t s m f =
    let (waits, unmet) = some_fails tasks (deps_of tasks t) f in
    (
      mark_speculative tasks t s,
      ready_false (is_runnable t.status) (is_speculative t) waits m unmet,
    )
