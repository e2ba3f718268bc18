-- ===== src/Examples/Files.antt =====
-- A run whose sandbox is `/run`, in a file system where a text is a name below the root.
use phylum.Common.{
  String, ◌≡◌, ◌≢◌, refl, false, true, Option, some, List, [], ◌∷◌, ◌==◌, if◌then◌else◌, arith,
  eq_iff, Bool-cases, inl, inr,
}
use mathlib.Core.Path.{subst}
use phylum.FilesystemScope.{
  FilePath, Paths, Scope, parent, drop_last, from_dict, to_dict, create, allows, grant_read_path,
}
use phylum.FilesystemScope.Access.{IsCovered, allows-IsCovered, grant_read_path-allows}
use phylum.FilesystemScope.Grants.{made, reads, from_dict-to_dict}

abbrev below_root : List String → FilePath
below_root names = record { anchor = "/"; names = names }

abbrev find_path : String → Option FilePath
find_path s = some (below_root (if s == "/" then [] else s ∷ []))

abbrev show_path : FilePath → String
show_path p = elim p.names [ [] ↦ "/" | name ∷ names ↦ name ]

abbrev paths : Paths
paths = record {
  resolve = find_path;
  text = show_path;
  lower = λ s. s;
  rstrip_slashes = λ s. s;
  is_network_path = λ s. false;
  allowed_roots = [];
}

abbrev scope : Scope
scope = record {
  fields = record {
    request_id = "one";
    sandbox_dir = "run";
    read_roots = "run" ∷ [];
    write_roots = "run" ∷ [];
    extra_read_paths = [];
  };
  read_resolved = below_root ("run" ∷ []) ∷ below_root ("run" ∷ []) ∷ [];
  write_resolved = below_root ("run" ∷ []) ∷ below_root ("run" ∷ []) ∷ [];
}

created : create paths "one" "run" [] [] ≡ some scope
unfolding create
created = refl

writes_inside : allows paths scope "run" "write" ≡ true
unfolding allows
writes_inside = refl

allows-IsCovered_example :
    (p : FilePath) × (paths.resolve "run" ≡ some p) × IsCovered paths scope p "write"
allows-IsCovered_example = allows-IsCovered paths scope "run" "write" writes_inside

abbrev granted : Scope
granted = record scope {
  fields = record (scope.fields) { extra_read_paths = "notes" ∷ []; read_roots = "run" ∷ "/" ∷ [] };
  read_resolved = below_root ("run" ∷ []) ∷ below_root ("run" ∷ []) ∷ below_root [] ∷ [];
}

grants : grant_read_path paths "notes" scope ≡ some granted
unfolding grant_read_path
grants = refl

notes_there : ◌≢◌ {A = String} "notes" ""
notes_there e = ground (arith, eq_iff "notes" "")

grant_read_path-allows_example : allows paths granted "notes" "delete" ≡ true
grant_read_path-allows_example =
    grant_read_path-allows paths scope granted "notes" "delete" notes_there grants

stable :
    (path : String) (p : FilePath)
    → paths.resolve path ≡ some p
    → paths.resolve (paths.text (parent p)) ≡ some (parent p)
unfolding parent drop_last
stable path p h =
    let same : below_root (if path == "/" then [] else path ∷ []) ≡ p = cc in
    subst (λ q. paths.resolve (paths.text (parent q)) ≡ some (parent q)) same
      (elim (Bool-cases (path == "/")) [ inl e ↦ rw e refl | inr e ↦ rw e refl ])

was_made : from_dict paths (to_dict scope) ≡ some scope
unfolding from_dict to_dict
was_made = refl

from_dict-to_dict_example : from_dict paths (to_dict granted) ≡ some granted
from_dict-to_dict_example =
    from_dict-to_dict paths stable (reads "notes" (made (to_dict scope) was_made) grants)
