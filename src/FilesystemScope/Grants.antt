-- ===== src/FilesystemScope/Grants.antt =====
-- Scopes that have been granted paths, and what is stored of them.
use phylum.Common.{String, ◌≡◌, some, List, [], ◌∷◌, ◌++◌, Option-cases, inl, inr, arith}
use phylum.FilesystemScope.{
  FilePath, Paths, Scope, ScopeData, parent, to_dict, from_dict, resolve_all, grant_read_path,
  grant_write_path,
}

-- The scopes that the constructor and the grants make.
pub data Granted (paths : Paths) : Scope → Type 0 where
  made : {s : Scope} (d : ScopeData) → from_dict paths d ≡ some s → Granted paths s
  reads :
      {s s' : Scope} (path : String)
      → Granted paths s
      → grant_read_path paths path s ≡ some s'
      → Granted paths s'
  writes :
      {s s' : Scope} (path : String)
      → Granted paths s
      → grant_write_path paths path s ≡ some s'
      → Granted paths s'

resolve_all-snoc :
    (paths : Paths) (roots : List String) (root : String) (ps : List FilePath) (p : FilePath)
    → resolve_all paths roots ≡ some ps
    → paths.resolve root ≡ some p
    → resolve_all paths (roots ++ root ∷ []) ≡ some (ps ++ p ∷ [])
unfolding resolve_all
resolve_all-snoc paths [] root ps p h e = ground arith
resolve_all-snoc paths (r ∷ roots) root ps p h e = elim (Option-cases (paths.resolve r)) [
  | inl f ↦ absurd (ground arith)
  | inr (q, f) ↦ elim (Option-cases (resolve_all paths roots)) [
    | inl g ↦ absurd (ground arith)
    | inr (qs, g) ↦ let later = resolve_all-snoc paths roots root qs p g e in ground (arith, later)
  ]
]

record IsStored (paths : Paths) (s : Scope) : Type 0 where
  reads : resolve_all paths (s.fields.sandbox_dir ∷ s.fields.read_roots) ≡ some s.read_resolved
  writes : resolve_all paths (s.fields.sandbox_dir ∷ s.fields.write_roots) ≡ some s.write_resolved

from_dict-IsStored :
    (paths : Paths) (d : ScopeData) (s : Scope) → from_dict paths d ≡ some s → IsStored paths s
unfolding from_dict
from_dict-IsStored paths d s h =
    elim (Option-cases (resolve_all paths (d.sandbox_dir ∷ d.read_roots))) [
      | inl e ↦ absurd (ground arith)
      | inr (rs, e) ↦ elim (Option-cases (resolve_all paths (d.sandbox_dir ∷ d.write_roots))) [
        | inl f ↦ absurd (ground arith)
        | inr (ws, f) ↦ ground arith
      ]
    ]

module _ (paths : Paths)
    (stable : (path : String) (p : FilePath)
      → paths.resolve path ≡ some p
      → paths.resolve (paths.text (parent p)) ≡ some (parent p)) where
  grant_read_path-IsStored :
      (path : String) (s s' : Scope)
      → grant_read_path paths path s ≡ some s'
      → IsStored paths s
      → IsStored paths s'
  unfolding grant_read_path
  grant_read_path-IsStored path s s' h stored = elim (Option-cases (paths.resolve path)) [
    | inl e ↦ absurd (ground arith)
    | inr (p, e) ↦
        let longer =
          resolve_all-snoc paths (s.fields.sandbox_dir ∷ s.fields.read_roots)
            (paths.text (parent p)) s.read_resolved (parent p) stored.reads (stable path p e) in
        let was_reads = stored.reads in let was_writes = stored.writes in ground arith
  ]

  grant_write_path-IsStored :
      (path : String) (s s' : Scope)
      → grant_write_path paths path s ≡ some s'
      → IsStored paths s
      → IsStored paths s'
  unfolding grant_write_path
  grant_write_path-IsStored path s s' h stored = elim (Option-cases (paths.resolve path)) [
    | inl e ↦ absurd (ground arith)
    | inr (p, e) ↦
        let longer =
          resolve_all-snoc paths (s.fields.sandbox_dir ∷ s.fields.write_roots)
            (paths.text (parent p)) s.write_resolved (parent p) stored.writes (stable path p e) in
        let was_reads = stored.reads in let was_writes = stored.writes in ground arith
  ]

  Granted-IsStored : {s : Scope} → Granted paths s → IsStored paths s
  Granted-IsStored {s} (made d e) = from_dict-IsStored paths d s e
  Granted-IsStored {s} (reads {s = old} path g e) =
      grant_read_path-IsStored path old s e (Granted-IsStored g)
  Granted-IsStored {s} (writes {s = old} path g e) =
      grant_write_path-IsStored path old s e (Granted-IsStored g)

  -- Where the parent of a resolved path resolves to itself, a scope that has been created and granted
  -- any paths is read back unchanged from what `to_dict` stores of it.
  pub from_dict-to_dict : {s : Scope} → Granted paths s → from_dict paths (to_dict s) ≡ some s
  unfolding from_dict to_dict
  from_dict-to_dict {s} g =
      let stored = Granted-IsStored g in
      let was_reads = stored.reads in let was_writes = stored.writes in ground arith
