-- ===== src/Policy/Approvals.antt =====
-- What `evaluate` lets pass, and what it asks the user.
use mathlib.Core.Path.{subst}
use phylum.Common.{
  is_text, eq_refl, ap, ◌≤◌, String, ◌≡◌, ◌≢◌, ◌↔◌, ◌⊎◌, inl, inr, refl, Bool, true, false, not,
  Option, none, some, List, [], ◌∷◌, ◌&&◌, arith, All, In, Bool-cases, Option-cases, find?-In, ◌==◌,
  eq_iff, if◌then◌else◌, one_of, non_empty, leb, leb→le,
}
use phylum.RiskClassifier.{Level, high, medium, low, Risk}
use phylum.Policy.{
  family_allows, is_blocklisted, desktop_tools, workspace_tools, Metadata, Task, Grant, PolicyEnv,
  deny, require_approval, Pending, risk_order, grant_allows, matching_grant, path_check, relax,
  shell_check, conclude, evaluate, outside_sandbox, command_of,
}

-- A task of a grant's family: one of the desktop's tools with an action that is not on the blocklist, one
-- of the tools of the workspace that changes no state or, for a grant of another family, a task of the
-- grant's own tool.
abbrev pub FitsFamily : Task → Metadata → Grant → Type 0
FitsFamily t m g =
    ((g.family ≡ some "interactive_desktop")
      × (one_of t.tool desktop_tools ≡ true)
      × (is_blocklisted t.tool t.action ≡ false))
    ⊎ (((g.family ≡ some "workspace_access")
          × (one_of t.tool workspace_tools ≡ true)
          × (m.mutates_state ≡ false))
        ⊎ ((g.family ≢ some "interactive_desktop")
            × (g.family ≢ some "workspace_access")
            × (g.tool ≡ some t.tool)))

-- A grant that covers the task: it is in the list, active and for the run, the task neither wants a
-- double confirmation nor administrator rights, its risk is within the grant's bound, and it is one of
-- the grant's family.
pub record IsCovered (grants : List Grant) (t : Task) (m : Metadata) (risk : Risk) (g : Grant)
    : Type 0 where
  pub listed : In g grants
  pub active : g.status ≡ "active"
  pub run_scope : g.scope ≡ "run_scope"
  pub no_double : m.double_confirm ≡ false
  pub no_admin : t.params.require_admin ≡ false
  pub within : risk_order risk.level ≤ (elim g.max_risk_level [ none ↦ 1 | some l ↦ risk_order l ])
  pub family : FitsFamily t m g

both_parts : (a b : Bool) → (a && not b) ≡ true → (a ≡ true) × (b ≡ false)
both_parts a b h = ground arith

is_text-eq : (o : Option String) (s : String) → is_text o s ≡ true → o ≡ some s
is_text-eq none s h = absurd (ground arith)
is_text-eq (some t) s h = ap {B = Option String} some ((eq_iff t s).0 h)

is_text-ne : (o : Option String) (s : String) → is_text o s ≡ false → o ≢ some s
is_text-ne o s h e =
    let same : is_text o s ≡ true = rw e (eq_refl s) in absurd (ground (arith, same, h))

family_allows-FitsFamily :
    (t : Task) (m : Metadata) (g : Grant) → family_allows t m g ≡ true → FitsFamily t m g
unfolding family_allows
family_allows-FitsFamily t m g h = elim (Bool-cases (is_text g.family "interactive_desktop")) [
  | inl e ↦
      let both : (one_of t.tool desktop_tools && not (is_blocklisted t.tool t.action)) ≡ true =
        rw (e, family_allows) at h in
      let (listed, acts) = both_parts _ _ both in
      inl (is_text-eq g.family "interactive_desktop" e, listed, acts)
  | inr e ↦ elim (Bool-cases (is_text g.family "workspace_access")) [
    | inl f ↦
        let both : (one_of t.tool workspace_tools && not m.mutates_state) ≡ true =
          rw (e, f, family_allows) at h in
        let (listed, reads) = both_parts _ _ both in
        inr (inl (is_text-eq g.family "workspace_access" f, listed, reads))
    | inr f ↦
        let own : is_text g.tool t.tool ≡ true = rw (e, f, family_allows) at h in
        inr (
          inr (
            is_text-ne g.family "interactive_desktop" e,
            is_text-ne g.family "workspace_access" f,
            is_text-eq g.tool t.tool own,
          ))
  ]
]

six_parts :
    (a b c d e f : Bool)
    → (a && (b && (not c && (d && (not e && f))))) ≡ true
    → (a ≡ true) × (b ≡ true) × (c ≡ false) × (d ≡ true) × (e ≡ false) × (f ≡ true)
six_parts a b c d e f h = ground arith

grant_allows_parts :
    (t : Task) (m : Metadata) (risk : Risk) (g : Grant)
    → grant_allows t m risk g ≡ true
    → ((g.status == "active") ≡ true)
      × ((g.scope == "run_scope") ≡ true)
      × (m.double_confirm ≡ false)
      × (leb (risk_order risk.level) (elim g.max_risk_level [ none ↦ 1 | some l ↦ risk_order l ])
          ≡ true)
      × (t.params.require_admin ≡ false)
      × (family_allows t m g ≡ true)
unfolding grant_allows
grant_allows_parts t m risk g h = six_parts _ _ _ _ _ _ h

matching_grant-IsCovered :
    (grants : List Grant) (t : Task) (m : Metadata) (risk : Risk) (g : Grant)
    → matching_grant grants t m risk ≡ some g
    → IsCovered grants t m risk g
unfolding matching_grant
matching_grant-IsCovered grants t m risk g h =
    let (fits, listed) = find?-In (grant_allows t m risk) grants g h in
    let (active, scope, no_double, within, no_admin, family) = grant_allows_parts t m risk g fits in
    record {
      listed = listed;
      active = (eq_iff g.status "active").0 active;
      run_scope = (eq_iff g.scope "run_scope").0 scope;
      no_double = no_double;
      no_admin = no_admin;
      within = leb→le _ _ within;
      family = family_allows-FitsFamily t m g family;
    }

conclude-grant :
    (env : PolicyEnv) (grants : List Grant) (t : Task) (m : Metadata) (p : Pending) (g : Grant)
    → (conclude env grants t m p).grant ≡ some g
    → (matching_grant grants t m p.risk ≡ some g) × ((conclude env grants t m p).risk ≡ p.risk)
unfolding conclude
conclude-grant env grants t m p g h = ground arith

conclude-ne-deny :
    (env : PolicyEnv) (grants : List Grant) (t : Task) (m : Metadata) (p : Pending)
    → (conclude env grants t m p).status ≢ deny
unfolding conclude
conclude-ne-deny env grants t m p h = ground arith

-- Where approval is required and no grant matches, it is asked for.
conclude_asks :
    (env : PolicyEnv) (grants : List Grant) (t : Task) (m : Metadata) (p : Pending)
    → p.requires ≡ true
    → ((g : Grant) → matching_grant grants t m p.risk ≢ some g)
    → (conclude env grants t m p).status ≡ require_approval
unfolding conclude
conclude_asks env grants t m p r no_grant = elim (Option-cases (matching_grant grants t m p.risk)) [
  | inl e ↦ rw (r, e) refl
  | inr (g, e) ↦ absurd (no_grant g e)
]

shell_check-admin :
    (env : PolicyEnv) (runtime_mode : String) (t : Task) (p : Pending)
    → t.params.require_admin ≡ true
    → (shell_check env runtime_mode t p).requires ≡ true
unfolding shell_check
shell_check-admin env runtime_mode t p admin = ground arith

relax_off : (a b c : Bool) → (not a && (not b && (not c && false))) ≡ false
relax_off a b c = ground arith

-- A path outside the sandbox wants an approval in every mode, at high risk.
relax-outside :
    (env : PolicyEnv) (runtime_mode : String) (t : Task) (m : Metadata)
    → non_empty (outside_sandbox env t) ≡ true
    → ((relax env runtime_mode t m (path_check env t m)).requires ≡ true)
      × ((relax env runtime_mode t m (path_check env t m)).risk.level ≡ high)
unfolding relax path_check
relax-outside env runtime_mode t m outside =
    rw (outside, relax_off (runtime_mode == "agentic") m.mutates_state (t.tool == "shell"))
      (refl, refl)

high_bound :
    (bound : Option Level)
    → bound ≢ some high
    → ¬ (risk_order high ≤ (elim bound [ none ↦ 1 | some l ↦ risk_order l ]))
unfolding risk_order
high_bound none n h = omega arith
high_bound (some low) n h = omega arith
high_bound (some medium) n h = omega arith
high_bound (some high) n h = n refl

In-All : (P : Grant → Type 0) (g : Grant) (gs : List Grant) → In g gs → All P gs → P g
In-All P g [] m a = absurd m
In-All P g (x ∷ gs) (inl e) a = subst P e a.0
In-All P g (x ∷ gs) (inr m) a = In-All P g gs m a.1

module _ (env : PolicyEnv) (runtime_mode : String) (grants : List Grant) (t : Task) where
  abbrev pub meta : Metadata
  meta = env.action_metadata t.tool t.action

  -- The verdict is a denial, or is concluded from what the checks have found.
  abbrev checked : Pending
  checked =
      if t.tool == "shell"
      then shell_check env runtime_mode t (path_check env t meta)
      else relax env runtime_mode t meta (path_check env t meta)

  evaluate_cases :
      (((one_of t.tool env.supported_tools ≡ false)
          ⊎ ((t.tool ≡ "shell") × (command_of t.params ≡ "")))
        × ((evaluate env runtime_mode grants t).status ≡ deny)
        × ((evaluate env runtime_mode grants t).grant ≡ none))
      ⊎ ((one_of t.tool env.supported_tools ≡ true)
          × (((t.tool == "shell") && (command_of t.params == "")) ≡ false)
          × (evaluate env runtime_mode grants t ≡ conclude env grants t meta checked))
  unfolding evaluate
  evaluate_cases = elim (Bool-cases (one_of t.tool env.supported_tools)) [
    | inr e ↦ inl (inl e, rw e, rw e)
    | inl e ↦ elim (Bool-cases (t.tool == "shell")) [
      | inr f ↦ inr (e, rw f, rw (e, f))
      | inl f ↦ elim (Bool-cases (command_of t.params == "")) [
        | inl c ↦ inl (inr ((eq_iff _ _).0 f, (eq_iff _ _).0 c), rw (e, f, c), rw (e, f, c))
        | inr c ↦ inr (e, rw (f, c), rw (e, f, c))
      ]
    ]
  ]

  -- A verdict that names a grant names one of the list that covers the task: it is active and for the run,
  -- the verdict's risk is within its bound, and the task wants neither a double confirmation nor
  -- administrator rights. For the family of the desktop the task's tool is one of the desktop's and not on
  -- the blocklist with this action, for that of the workspace it is one of the workspace's and changes no
  -- state, and otherwise it is the grant's own tool.
  pub evaluate-IsCovered :
      (g : Grant)
      → (evaluate env runtime_mode grants t).grant ≡ some g
      → IsCovered grants t meta (evaluate env runtime_mode grants t).risk g
  evaluate-IsCovered g h = elim evaluate_cases [
    | inl (_, _, e) ↦ absurd (ground arith)
    | inr (_, _, e) ↦
        let h' : (conclude env grants t meta checked).grant ≡ some g = rw e at h in
        let (found, same) = conclude-grant env grants t meta checked g h' in
        rw (e, same) (matching_grant-IsCovered grants t meta checked.risk g found)
  ]

  -- A task is denied exactly when its tool is not supported or it is a shell task with no command.
  pub evaluate-deny_iff : ((evaluate env runtime_mode grants t).status ≡ deny) ↔ (
      (one_of t.tool env.supported_tools ≡ false)
      ⊎ ((t.tool ≡ "shell") × (command_of t.params ≡ "")))
  evaluate-deny_iff = (to_cause, from_cause)
    where
      to_cause :
          (evaluate env runtime_mode grants t).status ≡ deny
          → (one_of t.tool env.supported_tools ≡ false)
            ⊎ ((t.tool ≡ "shell") × (command_of t.params ≡ ""))
      to_cause h = elim evaluate_cases [
        | inl (cause, _, _) ↦ cause
        | inr (_, _, e) ↦ absurd (conclude-ne-deny env grants t meta checked (rw e at h))
      ]

      from_cause :
          (one_of t.tool env.supported_tools ≡ false)
            ⊎ ((t.tool ≡ "shell") × (command_of t.params ≡ ""))
          → (evaluate env runtime_mode grants t).status ≡ deny
      from_cause c = elim evaluate_cases [
        | inl (_, d, _) ↦ d
        | inr (known, has_command, _) ↦ elim c [
          | inl e ↦ absurd (ground arith)
          | inr (tool, command) ↦
              absurd (ground (arith, eq_iff t.tool "shell", eq_iff (command_of t.params) ""))
        ]
      ]

  checked-shell :
      (t.tool == "shell") ≡ true → checked ≡ shell_check env runtime_mode t (path_check env t meta)
  checked-shell e = rw e

  checked-other :
      (t.tool == "shell") ≡ false → checked ≡ relax env runtime_mode t meta (path_check env t meta)
  checked-other e = rw e

  asks :
      one_of t.tool env.supported_tools ≡ true
      → ((t.tool == "shell") && (command_of t.params == "")) ≡ false
      → checked.requires ≡ true
      → ((g : Grant) → matching_grant grants t meta checked.risk ≢ some g)
      → (evaluate env runtime_mode grants t).status ≡ require_approval
  asks known has_command requires no_grant = elim evaluate_cases [
    | inl (cause, _, _) ↦ elim cause [
      | inl e ↦ absurd (ground arith)
      | inr (tool, command) ↦
          absurd (ground (arith, eq_iff t.tool "shell", eq_iff (command_of t.params) ""))
    ]
    | inr (_, _, e) ↦ rw e (conclude_asks env grants t meta checked requires no_grant)
  ]

  -- A shell command, where the shell is supported and the command is not empty, that wants
  -- administrator rights is never let pass: whatever the grants are, the user is asked.
  pub evaluate-admin :
      one_of t.tool env.supported_tools ≡ true
      → t.tool ≡ "shell"
      → command_of t.params ≢ ""
      → t.params.require_admin ≡ true
      → (evaluate env runtime_mode grants t).status ≡ require_approval
  evaluate-admin known tool command admin =
      let is_shell = (eq_iff t.tool "shell").1 tool in
      asks known (ground (arith, eq_iff (command_of t.params) ""))
        (rw (checked-shell is_shell) (shell_check-admin env runtime_mode t _ admin))
        (λ g h.
          let covered = matching_grant-IsCovered grants t meta checked.risk g h in
          absurd (ground (arith, covered.no_admin)))

  -- A file task of a supported tool that goes outside the sandbox is never let pass where no grant's
  -- bound is high: the user is asked.
  pub evaluate-outside :
      one_of t.tool env.supported_tools ≡ true
      → t.tool ≡ "filesystem"
      → non_empty (outside_sandbox env t) ≡ true
      → All (λ g. g.max_risk_level ≢ some high) grants
      → (evaluate env runtime_mode grants t).status ≡ require_approval
  evaluate-outside known tool outside bounds =
      let no_shell : (t.tool == "shell") ≡ false = rw tool refl in
      let found = relax-outside env runtime_mode t meta outside in
      asks known (rw no_shell refl) (rw (checked-other no_shell) found.0) (λ g h.
        let covered = matching_grant-IsCovered grants t meta checked.risk g h in
        let level : checked.risk.level ≡ high = rw (checked-other no_shell) found.1 in
        high_bound g.max_risk_level
          (In-All (λ x. x.max_risk_level ≢ some high) g grants covered.listed bounds)
          (rw level at (covered.within)))
