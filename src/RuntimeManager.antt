-- ===== src/RuntimeManager.antt =====
-- core/runtime_manager.py: the approvals of a run and the grants that they leave, and the futures that
-- the runs wait on. Writes to the database and events to the user are left out.
pub mod Families
pub mod Grants
pub mod Waiters
pub mod Lifecycle
use phylum.Common.{
  ℕ, zero, suc, String, Bool, true, false, not, Option, none, some, List, [], ◌∷◌, ◌++◌, ◌&&◌, ◌==◌,
  if◌then◌else◌, is_text, map, find?, length, get_elem?, modify, filter,
}
use phylum.Common.Dict.{Dict, get, put}
use phylum.RiskClassifier.{medium}
use phylum.Policy.{Grant}

-- Whether "run_scope" is among the `available_scopes` of the approval.
pub record Approval : Type 0 where
  pub approval_id : String
  pub task_id : String
  pub status : String
  pub offers_run_scope : Bool
  pub resolved_scope : Option String

-- Whether the approval of a task was granted is `none` until one is resolved.
pub record Task : Type 0 where
  pub id : String
  pub tool : String
  pub status : String
  pub approval_id : Option String
  pub approval_granted : Option Bool
  pub approval_scope : Option String
  pub approval_grant_id : Option String

pub record Run : Type 0 where
  pub approvals : List Approval
  pub tasks : List Task
  pub grants : List Grant

abbrev pub has_family : String → Grant → Bool
has_family family g = g.status == "active" && is_text g.family family

-- `family_of` is the policy's `grant_family` on a tool; `uuid` makes the id of a new grant.
module _ (family_of : String → String) (uuid : List Grant → String) where
  unfoldable pub new_grant : Task → List Grant → Grant
  new_grant t grants = record {
    grant_id = uuid grants;
    status = "active";
    scope = "run_scope";
    family = some (family_of t.tool);
    tool = some t.tool;
    max_risk_level = some medium;
  }

  -- `_activate_run_scope_grant`: the grant of the task, and all grants.
  unfoldable pub activate_run_scope_grant : Bool → Task → List Grant → Option Grant × List Grant
  unfolding new_grant
  activate_run_scope_grant offers t grants =
      if not offers then (none, grants) else elim (find? (has_family (family_of t.tool)) grants) [
        | some g ↦ (some g, grants)
        | none ↦ (some (new_grant t grants), grants ++ new_grant t grants ∷ [])
      ]

  -- What `resolve_approval` makes of one task.
  unfoldable pub resolve_task :
      String → String → String → Bool → Task → List Grant → Task × List Grant
  unfolding activate_run_scope_grant
  resolve_task approval_id status scope offers t grants =
      let decided = record t { approval_granted = some (status == "approved") } in
      let approved = record decided { status = "approved"; approval_scope = some scope } in
      let (grant, grants') = activate_run_scope_grant offers t grants in
      if not (is_text t.approval_id approval_id)
      then (t, grants)
      else if not (status == "approved")
      then (decided, grants)
      else if not (scope == "run_scope")
      then (approved, grants)
      else (
        elim grant [
          | none ↦ approved
          | some g ↦ record approved { approval_grant_id = some g.grant_id }
        ],
        grants',
      )

  unfoldable pub resolve_tasks :
      String → String → String → Bool → List Task → List Grant → List Task × List Grant
  unfolding resolve_task
  resolve_tasks approval_id status scope offers [] grants = ([], grants)
  resolve_tasks approval_id status scope offers (t ∷ ts) grants =
      let (t', grants') = resolve_task approval_id status scope offers t grants in
      let (ts', grants'') = resolve_tasks approval_id status scope offers ts grants' in
      (t' ∷ ts', grants'')

  unfoldable pub resolve_one : String → String → String → Approval → Approval
  resolve_one approval_id status scope a =
      if a.approval_id == approval_id
      then record a { status = status; resolved_scope = some scope }
      else a

  -- The scopes of the run's last approval of this id, or else those of the stored one.
  unfoldable pub offered : String → Bool → List Approval → Bool
  offered approval_id stored [] = stored
  offered approval_id stored (a ∷ rest) =
      offered approval_id (if a.approval_id == approval_id then a.offers_run_scope else stored) rest

  -- `resolve_approval` on the state of the run.
  unfoldable pub resolve_approval : String → String → String → Bool → Run → Run
  unfolding resolve_one offered resolve_tasks
  resolve_approval approval_id status scope stored run =
      let (tasks', grants') =
        resolve_tasks approval_id status scope (offered approval_id stored run.approvals) run.tasks
          run.grants in
      record {
        approvals = map (resolve_one approval_id status scope) run.approvals;
        tasks = tasks';
        grants = grants';
      }

-- `_create_runtime_approval`, and the id that the executor writes into the task.
unfoldable pub create_runtime_approval : String → String → Bool → Run → Run
create_runtime_approval approval_id task_id offers run = record run {
  approvals =
      run.approvals
      ++ record {
        approval_id = approval_id;
        task_id = task_id;
        status = "pending";
        offers_run_scope = offers;
        resolved_scope = none;
      }
        ∷ [];
  tasks =
      map (λ t. if t.id == task_id then record t { approval_id = some approval_id } else t)
        run.tasks;
}

unfoldable pub revoke_first : String → List Grant → Option (List Grant)
revoke_first grant_id [] = none
revoke_first grant_id (g ∷ gs) =
    let rest = revoke_first grant_id gs in
    if g.grant_id == grant_id
    then some (record g { status = "revoked" } ∷ gs)
    else elim rest [ none ↦ none | some gs' ↦ some (g ∷ gs') ]

-- `revoke_approval_grant`; `none` is a KeyError.
unfoldable pub revoke_approval_grant : String → Run → Option Run
unfolding revoke_first
revoke_approval_grant grant_id run = elim (revoke_first grant_id run.grants) [
  | none ↦ none
  | some grants' ↦ some (record run { grants = grants' })
]

-- The futures, by their addresses: `none` is one that is not done. The dictionary of the waiters has
-- addresses.
pub record Futures : Type 0 where
  pub heap : List (Option String)
  pub waiters : Dict ℕ

unfoldable pub set_result : String → Option String → Option String
set_result status none = some status
set_result status (some old) = some old

-- `self.approval_waiters[approval_id] = create_future()`.
unfoldable pub register : String → Futures → Futures
unfolding put
register approval_id f = record {
  heap = f.heap ++ none ∷ [];
  waiters = put approval_id (length f.heap) f.waiters;
}

-- The start of `_wait_for_approval`: the address of the future that is waited on.
unfoldable pub wait_for_approval : String → Futures → Futures × ℕ
unfolding get register
wait_for_approval approval_id f = elim (get approval_id f.waiters) [
  | some address ↦ (f, address)
  | none ↦ (register approval_id f, length f.heap)
]

unfoldable pub pop : String → Dict ℕ → Dict ℕ
pop key entries = filter (λ e. not (e.0 == key)) entries

-- The end of `resolve_approval`: the waiter is taken out and gets the status.
unfoldable pub answer_waiter : String → String → Futures → Futures
unfolding get pop set_result
answer_waiter approval_id status f = elim (get approval_id f.waiters) [
  | none ↦ f
  | some address ↦ record {
    heap = modify address (set_result status) f.heap;
    waiters = pop approval_id f.waiters;
  }
]
