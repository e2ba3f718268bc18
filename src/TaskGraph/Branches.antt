-- ===== src/TaskGraph/Branches.antt =====
-- Alternative branches: once a task of a group has succeeded, no other task of the group may run.
use phylum.Common.{
  String, ◌≡◌, ◌⊎◌, inl, inr, refl, Bool, true, false, none, List, [], ◌∷◌, ◌&&◌, arith, All,
  Bool-cases, Option-cases, any, find?, map, one_of, ◌==◌, eq_iff, ap, ◌∙◌,
}
use phylum.TaskGraph.{
  Task, is_runnable, is_success, in_group, skip_loser, resolve_group, resolve_groups, groups_of,
  resolve_alternative_branches,
}

-- No task of the group has succeeded, or none is runnable.
abbrev pub IsDecided : String → List Task → Type 0
IsDecided g tasks =
    (any (λ t. in_group g t && is_success t.status) tasks ≡ false)
    ⊎ All (λ t. (in_group g t && is_runnable t.status) ≡ false) tasks

-- What `skip_loser` does to the two tests.
skip_loser-success :
    (g h : String) (w t : Task)
    → (in_group g (skip_loser h w t) && is_success (skip_loser h w t).status)
      ≡ (in_group g t && is_success t.status)
unfolding skip_loser is_success
skip_loser-success g h w t = ground arith

skip_loser-runnable :
    (g h : String) (w t : Task)
    → (in_group g t && is_runnable t.status) ≡ false
    → (in_group g (skip_loser h w t) && is_runnable (skip_loser h w t).status) ≡ false
unfolding skip_loser
skip_loser-runnable g h w t e = ground arith

skip_loser_same :
    (g : String) (w t : Task)
    → (in_group g (skip_loser g w t) && is_runnable (skip_loser g w t).status) ≡ false
unfolding skip_loser
skip_loser_same g w t = ground arith

any-map :
    (p : Task → Bool) (f : Task → Task) (ts : List Task)
    → ((t : Task) → p (f t) ≡ p t)
    → any p (map f ts) ≡ any p ts
any-map p f [] same = refl
any-map p f (t ∷ ts) same = rw (same t, any-map p f ts same)

any-of_find? : (p : Task → Bool) (ts : List Task) → find? p ts ≡ none → any p ts ≡ false
any-of_find? p [] h = refl
any-of_find? p (t ∷ ts) h = ground (arith, any-of_find? p ts)

All-map_all :
    (P Q : Task → Type 0) (f : Task → Task) (ts : List Task)
    → ((t : Task) → P t → Q (f t))
    → All P ts
    → All Q (map f ts)
All-map_all P Q f [] keep h = tt
All-map_all P Q f (t ∷ ts) keep h = (keep t h.0, All-map_all P Q f ts keep h.1)

All-map_any :
    (Q : Task → Type 0) (f : Task → Task) (ts : List Task)
    → ((t : Task) → Q (f t))
    → All Q (map f ts)
All-map_any Q f [] keep = tt
All-map_any Q f (t ∷ ts) keep = (keep t, All-map_any Q f ts keep)

-- Resolving a group decides it, and leaves the decided groups decided.
resolve_group-IsDecided : (g : String) (ts : List Task) → IsDecided g (resolve_group ts g)
unfolding resolve_group
resolve_group-IsDecided g ts =
    elim (Option-cases (find? (λ t. in_group g t && is_success t.status) ts)) [
      | inl e ↦ rw (e, resolve_group) (inl (any-of_find? _ ts e))
      | inr (w, e) ↦
          rw (e, resolve_group) (inr (All-map_any _ (skip_loser g w) ts (skip_loser_same g w)))
    ]

IsDecided-skip :
    (g h : String) (w : Task) (ts : List Task)
    → IsDecided g ts
    → IsDecided g (map (skip_loser h w) ts)
IsDecided-skip g h w ts (inl e) = inl (any-map _ (skip_loser h w) ts (skip_loser-success g h w) ∙ e)
IsDecided-skip g h w ts (inr a) =
    inr (All-map_all _ _ (skip_loser h w) ts (skip_loser-runnable g h w) a)

IsDecided-resolve_group :
    (g h : String) (ts : List Task) → IsDecided g ts → IsDecided g (resolve_group ts h)
unfolding resolve_group
IsDecided-resolve_group g h ts d =
    elim (Option-cases (find? (λ t. in_group h t && is_success t.status) ts)) [
      | inl e ↦ rw (e, resolve_group) d
      | inr (w, e) ↦ rw (e, resolve_group) (IsDecided-skip g h w ts d)
    ]

IsDecided-resolve_groups :
    (g : String) (hs : List String) (ts : List Task)
    → IsDecided g ts ⊎ (one_of g hs ≡ true)
    → IsDecided g (resolve_groups ts hs)
unfolding resolve_groups
IsDecided-resolve_groups g [] ts (inl d) = d
IsDecided-resolve_groups g [] ts (inr m) = absurd (ground arith)
IsDecided-resolve_groups g (h ∷ hs) ts (inl d) =
    IsDecided-resolve_groups g hs (resolve_group ts h) (inl (IsDecided-resolve_group g h ts d))
IsDecided-resolve_groups g (h ∷ hs) ts (inr m) = elim (Bool-cases (g == h)) [
  | inl e ↦
      let same : g ≡ h = (eq_iff g h).0 e in
      IsDecided-resolve_groups g hs (resolve_group ts h)
        (inl (rw same (resolve_group-IsDecided h ts)))
  | inr e ↦ IsDecided-resolve_groups g hs (resolve_group ts h) (inr (ground arith))
]

-- A group that is not listed has no task.
not_listed_cons :
    (g : String) (t : Task) (ts : List Task)
    → one_of g (groups_of (t ∷ ts)) ≡ false
    → (in_group g t ≡ false) × (one_of g (groups_of ts) ≡ false)
unfolding groups_of in_group
not_listed_cons g t ts h = elim (Option-cases t.group) [
  | inl e ↦ ground arith
  | inr (k, e) ↦ elim (Bool-cases (k == g)) [
    | inl same ↦
        let eq : k ≡ g = (eq_iff k g).0 same in
        ground (arith, eq_iff g k, ap (λ x. one_of x (groups_of ts)) eq)
    | inr other ↦ ground (arith, eq_iff g k, eq_iff k g)
  ]
]

not_listed :
    (g : String) (ts : List Task)
    → one_of g (groups_of ts) ≡ false
    → any (λ t. in_group g t && is_success t.status) ts ≡ false
not_listed g [] h = refl
not_listed g (t ∷ ts) h =
    let (none_here, later) = not_listed_cons g t ts h in rw (none_here, not_listed g ts later) refl

-- After `resolve_alternative_branches`, in every group either no task has succeeded or no task is
-- runnable.
pub resolve_alternative_branches-IsDecided :
    (g : String) (tasks : List Task) → IsDecided g (resolve_alternative_branches tasks)
unfolding resolve_alternative_branches
resolve_alternative_branches-IsDecided g tasks =
    IsDecided-resolve_groups g (groups_of tasks) tasks
      (elim (Bool-cases (one_of g (groups_of tasks))) [
        | inl e ↦ inr e
        | inr e ↦ inl (inl (not_listed g tasks e))
      ])
