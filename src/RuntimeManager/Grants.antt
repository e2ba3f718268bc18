-- ===== src/RuntimeManager/Grants.antt =====
-- The grants that resolved approvals leave in a run.
use mathlib.Core.Path.{subst}
use mathlib.Core.Option.{some-injective}
use phylum.Common.{
  leb, String, Bool, true, false, none, some, List, [], ◌∷◌, ◌++◌, ◌≡◌, ◌==◌, refl, sym, ap, ◌∙◌,
  inl, inr, arith, All, All-append, Bool-cases, Option-cases, find?, is_text, one_of, eq_iff,
}
use phylum.Common.Sets.{Unique-snoc}
use phylum.RiskClassifier.{high, Risk}
use phylum.Policy.{Grant, Metadata, grant_allows, matching_grant, risk_order}
use phylum.Policy as Policy
use phylum.RuntimeManager.Families.{IsRunGrant, active_families, IsBounded, revoke_first-Fewer}
use phylum.RuntimeManager.{
  Run, Task, Approval, has_family, new_grant, activate_run_scope_grant, resolve_task, resolve_tasks,
  resolve_approval, create_runtime_approval, revoke_first, revoke_approval_grant,
}

module _ (family_of : String → String) (uuid : List Grant → String) where
  -- The runs that the operations make of a run without grants.
  pub data Reach : Run → Type 0 where
    starts :
        (approvals : List Approval) (tasks : List Task)
        → Reach (record { approvals = approvals; tasks = tasks; grants = [] })
    creates :
        {run : Run} (approval_id task_id : String) (offers : Bool)
        → Reach run
        → Reach (create_runtime_approval approval_id task_id offers run)
    resolves :
        {run : Run} (approval_id status scope : String) (stored : Bool)
        → Reach run
        → Reach (resolve_approval family_of uuid approval_id status scope stored run)
    revokes :
        {run run' : Run} (grant_id : String)
        → Reach run
        → revoke_approval_grant grant_id run ≡ some run'
        → Reach run'

  active_families-snoc :
      (old grants : List Grant) (t : Task)
      → active_families (grants ++ new_grant family_of uuid t old ∷ [])
        ≡ active_families grants ++ family_of t.tool ∷ []
  unfolding new_grant
  active_families-snoc old [] t = refl
  active_families-snoc old (g ∷ gs) t =
      let rest = active_families-snoc old gs t in
      elim (Bool-cases (g.status == "active")) [
        | inr e ↦ rw e rest
        | inl e ↦ elim (Option-cases g.family) [
          | inl f ↦ rw (e, f) rest
          | inr (family, f) ↦ rw (e, f) (ap (λ fs. family ∷ fs) rest)
        ]
      ]

  find_family :
      (family : String) (grants : List Grant)
      → find? (has_family family) grants ≡ none
      → one_of family (active_families grants) ≡ false
  find_family family [] h = refl
  find_family family (g ∷ gs) h = elim (Bool-cases (g.status == "active")) [
    | inr e ↦ rw e (find_family family gs (rw e at h))
    | inl e ↦ elim (Option-cases g.family) [
      | inl f ↦ rw (e, f) (find_family family gs (rw (e, f) at h))
      | inr (own, f) ↦ elim (Bool-cases (own == family)) [
        | inl k ↦
            let fits : has_family family g ≡ true = rw (e, f, k) refl in
            let here : find? (has_family family) (g ∷ gs) ≡ some g = rw fits refl in
            absurd (ground (arith, here, h))
        | inr k ↦
            rw (e, f)
              (ground (
                arith,
                find_family family gs (rw (e, f, k) at h),
                eq_iff own family,
                eq_iff family own,
                k,
              ))
      ]
    ]
  ]

  activate-IsBounded :
      (offers : Bool) (t : Task) (grants : List Grant)
      → IsBounded grants
      → IsBounded (activate_run_scope_grant family_of uuid offers t grants).1
  unfolding activate_run_scope_grant new_grant
  activate-IsBounded false t grants h = h
  activate-IsBounded true t grants h =
      elim (Option-cases (find? (has_family (family_of t.tool)) grants)) [
        | inr (g, e) ↦ rw (e, activate_run_scope_grant) h
        | inl e ↦
            rw (e, activate_run_scope_grant)
              (record {
                bounded =
                    All-append IsRunGrant grants (new_grant family_of uuid t grants ∷ []) h.bounded
                      (record { scope = refl; bound = refl }, tt);
                distinct = rw (active_families-snoc grants grants t) (
                    Unique-snoc (active_families grants) (family_of t.tool) h.distinct
                      (find_family (family_of t.tool) grants e));
              })
      ]

  resolve_task-IsBounded :
      (approval_id status scope : String) (offers : Bool) (t : Task) (grants : List Grant)
      → IsBounded grants
      → IsBounded (resolve_task family_of uuid approval_id status scope offers t grants).1
  unfolding resolve_task
  resolve_task-IsBounded approval_id status scope offers t grants h =
      elim (Bool-cases (is_text t.approval_id approval_id)) [
        | inr e ↦ rw (e, resolve_task) h
        | inl e ↦ elim (Bool-cases (status == "approved")) [
          | inr f ↦ rw (e, f, resolve_task) h
          | inl f ↦ elim (Bool-cases (scope == "run_scope")) [
            | inr k ↦ rw (e, f, k, resolve_task) h
            | inl k ↦ rw (e, f, k, resolve_task) (activate-IsBounded offers t grants h)
          ]
        ]
      ]

  resolve_tasks-IsBounded :
      (approval_id status scope : String) (offers : Bool) (ts : List Task) (grants : List Grant)
      → IsBounded grants
      → IsBounded (resolve_tasks family_of uuid approval_id status scope offers ts grants).1
  unfolding resolve_tasks
  resolve_tasks-IsBounded approval_id status scope offers [] grants h = h
  resolve_tasks-IsBounded approval_id status scope offers (t ∷ ts) grants h =
      resolve_tasks-IsBounded approval_id status scope offers ts
        (resolve_task family_of uuid approval_id status scope offers t grants).1
        (resolve_task-IsBounded approval_id status scope offers t grants h)

  -- In every run that the operations make of one without grants, all grants are of the scope of the run
  -- and bounded by the medium risk, and no two active grants are of one family.
  pub Reach-IsBounded : {run : Run} → Reach run → IsBounded run.grants
  unfolding create_runtime_approval resolve_approval revoke_approval_grant
  Reach-IsBounded (starts approvals tasks) = record { bounded = tt; distinct = tt }
  Reach-IsBounded (creates approval_id task_id offers h) = Reach-IsBounded h
  Reach-IsBounded (resolves {run} approval_id status scope stored h) =
      resolve_tasks-IsBounded approval_id status scope _ run.tasks run.grants (Reach-IsBounded h)
  Reach-IsBounded (revokes {run} {run'} grant_id h e) =
      elim (Option-cases (revoke_first grant_id run.grants)) [
        | inl f ↦
            let here : revoke_approval_grant grant_id run ≡ none =
              rw (f, revoke_approval_grant) refl in
            absurd (ground (arith, here, e))
        | inr (grants', f) ↦
            let here : revoke_approval_grant grant_id run ≡ some (record run { grants = grants' }) =
              rw (f, revoke_approval_grant) refl in
            let same : record run { grants = grants' } ≡ run' = some-injective _ _ (sym here ∙ e) in
            subst (λ r. IsBounded r.grants) same
              (revoke_first-Fewer grant_id run.grants grants' (Reach-IsBounded h) f).sound
      ]

  no_match :
      (t : Policy.Task) (m : Metadata) (risk : Risk) (grants : List Grant)
      → risk_order risk.level ≡ 2
      → All IsRunGrant grants
      → matching_grant grants t m risk ≡ none
  unfolding matching_grant grant_allows
  no_match t m risk [] e h = refl
  no_match t m risk (g ∷ gs) e (h, hs) =
      let over : leb (risk_order risk.level) 1 ≡ false = ground (arith, e) in
      let here : grant_allows t m risk g ≡ false =
        rw (h.bound, over, grant_allows) (ground (arith)) in
      rw (here, matching_grant) (no_match t m risk gs e hs)

  -- In such a run no grant lets a task pass whose risk is high.
  pub Reach-refuses_high :
      {run : Run} (t : Policy.Task) (m : Metadata) (risk : Risk)
      → Reach run
      → risk.level ≡ high
      → matching_grant run.grants t m risk ≡ none
  unfolding risk_order
  Reach-refuses_high {run} t m risk h e =
      no_match t m risk run.grants (ap risk_order e) (Reach-IsBounded h).bounded
