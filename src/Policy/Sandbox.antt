-- ===== src/Policy/Sandbox.antt =====
-- The engine with the tests of paths of tools/tool_filesystem.py: what it lets pass without the user.
use phylum.Common.{
  String, ◌≡◌, ◌≢◌, ◌⊎◌, inl, inr, refl, sym, ◌∙◌, Bool, true, false, Option, none, some, List, [],
  ◌∷◌, ◌++◌, arith, All, In, Bool-cases, Option-cases, one_of, non_empty,
}
use phylum.FilesystemScope.{
  FilePath, Paths, is_under, is_allowed_path, is_allowed_path_for_action, network_readonly_actions,
}
use phylum.FilesystemScope.Access.{any-In}
use phylum.RiskClassifier.{high}
use phylum.Policy.{
  Task, Grant, PolicyEnv, allow, deny, require_approval, given, refused_path, outside_sandbox,
  evaluate,
}
use phylum.Policy.Approvals.{evaluate-outside, evaluate-deny_iff}

-- The engine's collaborators, with `is_allowed_path_for_action` of the file tool.
abbrev pub with_paths : PolicyEnv → Paths → PolicyEnv
with_paths env paths = record env { is_allowed_path = is_allowed_path_for_action paths }

-- A path that is on the network and only inspected, or that resolves to what is under an allowed root.
abbrev pub IsInside : Paths → String → String → Type 0
IsInside paths action path =
    ((paths.is_network_path path ≡ true) × (one_of action network_readonly_actions ≡ true))
    ⊎ ((p : FilePath) × (root : String) × (r : FilePath) × (paths.resolve path ≡ some p)
        × In root paths.allowed_roots
        × (paths.resolve root ≡ some r)
        × (is_under r p ≡ true))

under_root :
    (paths : Paths) (p : FilePath) (root : String)
    → (elim (paths.resolve root) as (λ _. Bool) [ none ↦ false | some r ↦ is_under r p ]) ≡ true
    → (r : FilePath) × (paths.resolve root ≡ some r) × (is_under r p ≡ true)
under_root paths p root h = elim (Option-cases (paths.resolve root)) [
  | inl e ↦ absurd (ground arith)
  | inr (r, e) ↦ (r, e, rw e at h)
]

allowed-IsInside :
    (paths : Paths) (path action : String)
    → is_allowed_path_for_action paths path action ≡ true
    → IsInside paths action path
unfolding is_allowed_path_for_action is_allowed_path
allowed-IsInside paths path action h = elim (Bool-cases (paths.is_network_path path)) [
  | inl e ↦ inl (e, rw e at h)
  | inr e ↦ elim (Option-cases (paths.resolve path)) [
    | inl f ↦ absurd (ground arith)
    | inr (p, f) ↦
        let (root, listed, above) =
          any-In _ paths.allowed_roots (rw (e, is_allowed_path, f) at h) in
        let (r, resolved, under) = under_root paths p root above in
        inr (p, root, r, f, listed, resolved, under)
  ]
]

non_empty-append : (xs ys : List String) → non_empty (xs ++ ys) ≡ false → (xs ≡ []) × (ys ≡ [])
non_empty-append [] [] h = (refl, refl)
non_empty-append [] (y ∷ ys) h = absurd (ground arith)
non_empty-append (x ∷ xs) ys h = absurd (ground arith)

module _ (env : PolicyEnv) (paths : Paths) where
  refused_path-IsInside :
      (action path : String) (found : Option String)
      → found ≡ some path
      → refused_path (with_paths env paths) action found ≡ []
      → IsInside paths action path
  unfolding refused_path
  refused_path-IsInside action path found e h =
      elim (Bool-cases (is_allowed_path_for_action paths path action)) [
        | inl f ↦ allowed-IsInside paths path action f
        | inr f ↦ absurd (ground arith)
      ]

  allow≢deny : allow ≢ deny
  allow≢deny h = cc

  allow≢require_approval : allow ≢ require_approval
  allow≢require_approval h = cc

  nothing_outside :
      (runtime_mode : String) (grants : List Grant) (t : Task)
      → t.tool ≡ "filesystem"
      → All (λ g. g.max_risk_level ≢ some high) grants
      → (evaluate (with_paths env paths) runtime_mode grants t).status ≡ allow
      → non_empty (outside_sandbox (with_paths env paths) t) ≡ false
  nothing_outside runtime_mode grants t tool bounds passed =
      elim (Bool-cases (one_of t.tool env.supported_tools)) [
        | inr e ↦ absurd (
            allow≢deny (
              sym passed
              ∙ (evaluate-deny_iff (with_paths env paths) runtime_mode grants t).1 (inl e)))
        | inl e ↦ elim (Bool-cases (non_empty (outside_sandbox (with_paths env paths) t))) [
          | inr f ↦ f
          | inl f ↦ absurd (
              allow≢require_approval (
                sym passed
                ∙ evaluate-outside (with_paths env paths) runtime_mode grants t e tool f bounds))
        ]
      ]

  -- Where no grant's bound is high, a file task that the engine with the file tool's tests lets pass
  -- without the user has only paths that are on the network and inspected, or under an allowed root.
  pub evaluate-IsInside :
      (runtime_mode : String) (grants : List Grant) (t : Task)
      → t.tool ≡ "filesystem"
      → All (λ g. g.max_risk_level ≢ some high) grants
      → (evaluate (with_paths env paths) runtime_mode grants t).status ≡ allow
      → ((path : String) → given "path" t.params ≡ some path → IsInside paths t.action path)
        × ((dest : String) → given "dest" t.params ≡ some dest → IsInside paths t.action dest)
  unfolding outside_sandbox
  evaluate-IsInside runtime_mode grants t tool bounds passed =
      let env' = with_paths env paths in
      let (no_path, no_dest) =
        non_empty-append (refused_path env' t.action (given "path" t.params)) _
          (rw tool at (nothing_outside runtime_mode grants t tool bounds passed)) in
      (
        λ path e. refused_path-IsInside t.action path (given "path" t.params) e no_path,
        λ dest e. refused_path-IsInside t.action dest (given "dest" t.params) e no_dest,
      )
