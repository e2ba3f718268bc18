-- ===== src/FilesystemScope/Access.antt =====
-- What a scope lets an action touch.
use Prim.Native.String
use text.Mathlib.Text.{starts_with}
use mathlib.Core.Path.{subst}
use phylum.Common.{
  String, ◌≡◌, ◌≢◌, ◌⊎◌, inl, inr, refl, sym, ◌∙◌, Bool, true, false, none, some, List, [], ◌∷◌,
  ◌++◌, ◌||◌, ◌==◌, if◌then◌else◌, any, one_of, In, Bool-cases, Option-cases, arith, eq_iff,
  eq_refl,
}
use phylum.FilesystemScope.{
  FilePath, Paths, Scope, is_under, mutating_actions, read_actions, network_readonly_actions,
  from_dict, resolve_all, grant_read_path, under_extra, path_under, allows, create, grant_all,
}

pub any-In :
    {A : Type 0} (test : A → Bool) (xs : List A)
    → any test xs ≡ true
    → (x : A) × In x xs × (test x ≡ true)
any-In test [] h = absurd (ground arith)
any-In test (x ∷ xs) h = elim (Bool-cases (test x)) [
  | inl e ↦ (x, inl refl, e)
  | inr e ↦ let (y, listed, found) = any-In test xs (ground arith) in (y, inr listed, found)
]

-- A root of the list that the path is under.
pub record HasRoot (roots : List FilePath) (p : FilePath) : Type 0 where
  pub root : FilePath
  pub listed : In root roots
  pub above : is_under root p ≡ true

any-HasRoot :
    (roots : List FilePath) (p : FilePath)
    → any (λ root. is_under root p) roots ≡ true
    → HasRoot roots p
any-HasRoot roots p h =
    let (root, listed, above) = any-In (λ root. is_under root p) roots h in
    record { root = root; listed = listed; above = above }

not_eq : (path : String) → path ≢ "" → (path == "") ≡ false
not_eq path there = ground (arith, eq_iff path "")

-- The tests of `allows`, in their order.
tests_allow :
    (is_empty mutates reads by_read by_write : Bool)
    → (if is_empty
        then false
        else if mutates
        then by_write
        else if reads
        then by_read || by_write
        else by_write)
      ≡ true
    → (by_write ≡ true) ⊎ ((mutates ≡ false) × (by_read ≡ true))
tests_allow is_empty mutates reads by_read by_write h = ground arith

tests_allow_all :
    (is_empty mutates reads by_read by_write : Bool)
    → is_empty ≡ false
    → by_write ≡ true
    → (if is_empty
        then false
        else if mutates
        then by_write
        else if reads
        then by_read || by_write
        else by_write)
      ≡ true
tests_allow_all is_empty mutates reads by_read by_write e w = ground arith

module _ (paths : Paths) (s : Scope) where
  -- What lets the action touch the path: a write root, for an action that does not mutate a read
  -- root, or an extra read path.
  abbrev pub IsCovered : FilePath → String → Type 0
  IsCovered p action =
      HasRoot s.write_resolved p
      ⊎ ((one_of (paths.lower action) mutating_actions ≡ false) × HasRoot s.read_resolved p)
      ⊎ (under_extra paths s.fields.extra_read_paths p ≡ true)

  path_under-HasRoot :
      (path : String) (roots : List FilePath)
      → path_under paths s path roots ≡ true
      → (p : FilePath) × (paths.resolve path ≡ some p)
        × (HasRoot roots p ⊎ (under_extra paths s.fields.extra_read_paths p ≡ true))
  unfolding path_under
  path_under-HasRoot path roots h = elim (Option-cases (paths.resolve path)) [
    | inl e ↦ absurd (ground arith)
    | inr (p, e) ↦ (
      p,
      e,
      elim (Bool-cases (any (λ root. is_under root p) roots)) [
        | inl f ↦ inl (any-HasRoot roots p f)
        | inr f ↦ inr (ground arith)
      ],
    )
  ]

  -- A path that an action may touch resolves, and is under a write root of the scope, or under a read
  -- root where the action does not mutate, or under an extra read path.
  pub allows-IsCovered :
      (path action : String)
      → allows paths s path action ≡ true
      → (p : FilePath) × (paths.resolve path ≡ some p) × IsCovered p action
  unfolding allows
  allows-IsCovered path action h =
      elim (tests_allow (path == "") (one_of (paths.lower action) mutating_actions)
        (one_of (paths.lower action) read_actions
          || one_of (paths.lower action) network_readonly_actions)
        (path_under paths s path s.read_resolved) (path_under paths s path s.write_resolved) h) [
          | inl w ↦
              let (p, e, found) = path_under-HasRoot path s.write_resolved w in
              (p, e, elim found [ inl root ↦ inl root | inr extra ↦ inr (inr extra) ])
          | inr (reads, r) ↦
              let (p, e, found) = path_under-HasRoot path s.read_resolved r in
              (
                p,
                e,
                elim found [ inl root ↦ inr (inl (reads, root)) | inr extra ↦ inr (inr extra) ],
              )
        ]

  path_under_extra :
      (path : String) (p : FilePath) (roots : List FilePath)
      → paths.resolve path ≡ some p
      → under_extra paths s.fields.extra_read_paths p ≡ true
      → path_under paths s path roots ≡ true
  unfolding path_under
  path_under_extra path p roots e h = ground arith

  allows_extra :
      (path action : String) (p : FilePath)
      → path ≢ ""
      → paths.resolve path ≡ some p
      → under_extra paths s.fields.extra_read_paths p ≡ true
      → allows paths s path action ≡ true
  unfolding allows
  allows_extra path action p there e h =
      tests_allow_all (path == "") (one_of (paths.lower action) mutating_actions)
        (one_of (paths.lower action) read_actions
          || one_of (paths.lower action) network_readonly_actions)
        (path_under paths s path s.read_resolved) (path_under paths s path s.write_resolved)
        (not_eq path there) (path_under_extra path p s.write_resolved e h)

under_extra_self :
    (paths : Paths) (extra : List String) (p : FilePath)
    → under_extra paths
        (if one_of (paths.text p) extra then extra else extra ++ paths.text p ∷ [])
        p
      ≡ true
unfolding under_extra
under_extra_self paths extra p = elim (Bool-cases (one_of (paths.text p) extra)) [
  | inl e ↦ rw e (any_self extra e)
  | inr e ↦ rw e (any_last extra)
]
  where
    under : String → Bool
    under x =
        paths.text p == x || starts_with (paths.text p) (String.◌++◌ (paths.rstrip_slashes x) "\\")

    any_self : (xs : List String) → one_of (paths.text p) xs ≡ true → any under xs ≡ true
    any_self [] h = h
    any_self (x ∷ xs) h = ground (arith, any_self xs)

    any_last : (xs : List String) → any under (xs ++ paths.text p ∷ []) ≡ true
    any_last [] = rw (eq_refl (paths.text p)) refl
    any_last (x ∷ xs) = rw (any_last xs) (ground arith)

-- After a path has been granted for reading, every action may touch it, those that mutate included.
pub grant_read_path-allows :
    (paths : Paths) (s s' : Scope) (path action : String)
    → path ≢ ""
    → grant_read_path paths path s ≡ some s'
    → allows paths s' path action ≡ true
unfolding grant_read_path
grant_read_path-allows paths s s' path action there h = elim (Option-cases (paths.resolve path)) [
  | inl e ↦ absurd (ground arith)
  | inr (p, e) ↦ allows_extra paths s' path action p there e (
      subst (λ xs. under_extra paths xs p ≡ true) (extra_after p e)
        (under_extra_self paths s.fields.extra_read_paths p))
]
  where
    extra_after :
        (p : FilePath)
        → paths.resolve path ≡ some p
        → (if one_of (paths.text p) s.fields.extra_read_paths
            then s.fields.extra_read_paths
            else s.fields.extra_read_paths ++ paths.text p ∷ [])
          ≡ s'.fields.extra_read_paths
    extra_after p e = ground arith

some_inj : {A : Type 0} {a b : A} → some a ≡ some b → a ≡ b
some_inj e = cc

abbrev created : String → String → FilePath → Scope
created request_id sandbox_dir root = record {
  fields = record {
    request_id = request_id;
    sandbox_dir = sandbox_dir;
    read_roots = sandbox_dir ∷ [];
    write_roots = sandbox_dir ∷ [];
    extra_read_paths = [];
  };
  read_resolved = root ∷ root ∷ [];
  write_resolved = root ∷ root ∷ [];
}

create-none :
    (paths : Paths) (request_id sandbox_dir : String)
    → paths.resolve sandbox_dir ≡ none
    → create paths request_id sandbox_dir [] [] ≡ none
unfolding create
create-none paths request_id sandbox_dir e = rw (e, create, from_dict, resolve_all) refl

resolve_all_twice :
    (paths : Paths) (dir : String) (root : FilePath)
    → paths.resolve dir ≡ some root
    → resolve_all paths (dir ∷ dir ∷ []) ≡ some (root ∷ root ∷ [])
unfolding resolve_all
resolve_all_twice paths dir root e = ground arith

create-some :
    (paths : Paths) (request_id sandbox_dir : String) (root : FilePath)
    → paths.resolve sandbox_dir ≡ some root
    → create paths request_id sandbox_dir [] [] ≡ some (created request_id sandbox_dir root)
create-some paths request_id sandbox_dir root e =
    let twice = resolve_all_twice paths sandbox_dir root e in
    unfold create from_dict grant_all in ground arith

-- A scope that is created for no extra roots lets actions touch only what is under its sandbox.
pub create-IsIsolated :
    (paths : Paths) (request_id sandbox_dir : String) (s : Scope) (path action : String)
    → create paths request_id sandbox_dir [] [] ≡ some s
    → allows paths s path action ≡ true
    → (root : FilePath) × (p : FilePath) × (paths.resolve sandbox_dir ≡ some root)
      × (paths.resolve path ≡ some p)
      × (is_under root p ≡ true)
unfolding under_extra
create-IsIsolated paths request_id sandbox_dir s path action made h =
    elim (Option-cases (paths.resolve sandbox_dir)) [
      | inl e ↦
          absurd (let same = sym made ∙ create-none paths request_id sandbox_dir e in ground arith)
      | inr (root, e) ↦
          let (p, resolved, covered) = allows-IsCovered paths s path action h in
          let same : s ≡ created request_id sandbox_dir root =
            some_inj (sym made ∙ create-some paths request_id sandbox_dir root e) in
          let covered' = rw same at covered in
          (
            root,
            p,
            e,
            resolved,
            elim covered' [
              | inl w ↦ in_sandbox root p w
              | inr (inl (_, r)) ↦ in_sandbox root p r
              | inr (inr x) ↦ absurd (ground arith)
            ],
          )
    ]
  where
    in_sandbox : (root p : FilePath) → HasRoot (root ∷ root ∷ []) p → is_under root p ≡ true
    in_sandbox root p r = elim r.listed [
      | inl same ↦ subst (λ q. is_under q p ≡ true) (sym same) r.above
      | inr (inl same) ↦ subst (λ q. is_under q p ≡ true) (sym same) r.above
      | inr (inr x) ↦ absurd x
    ]
