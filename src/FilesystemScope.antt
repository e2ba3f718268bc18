-- ===== src/FilesystemScope.antt =====
-- core/filesystem_scope.py: `RunFilesystemScope`, and the functions of tools/tool_filesystem.py that
-- decide which paths an action may touch. The file system and the operations of `Path` and `str` are
-- given by a `Paths`. A set of paths is a list of its members in some order, perhaps with repetitions.
pub mod Grants
pub mod Access
use Prim.Native.String
use text.Mathlib.Text.{starts_with}
use phylum.Common.{
  String, Bool, true, false, not, Option, none, some, List, [], ◌∷◌, ◌++◌, ◌&&◌, ◌||◌, ◌==◌,
  if◌then◌else◌, any, one_of, truthy,
}

-- A path as `pathlib` reads it: its anchor, such as a drive, and the names below it.
pub record FilePath : Type 0 where
  pub anchor : String
  pub names : List String

-- `resolve` is `none` where `Path(…).resolve()` raises. `text` is `str` of a resolved path, and
-- `rstrip_slashes` is `rstrip("\\/")`. `is_network_path` reads the text only: it strips the blanks,
-- reads `/` as `\` and tests for the prefix `\\`.
pub record Paths : Type 0 where
  pub resolve : String → Option FilePath
  pub text : FilePath → String
  pub lower : String → String
  pub rstrip_slashes : String → String
  pub is_network_path : String → Bool
  pub allowed_roots : List String

unfoldable pub is_prefix : List String → List String → Bool
is_prefix [] ys = true
is_prefix (x ∷ xs) [] = false
is_prefix (x ∷ xs) (y ∷ ys) = let rest = is_prefix xs ys in if x == y then rest else false

-- `root == path or root in path.parents`.
unfoldable pub is_under : FilePath → FilePath → Bool
unfolding is_prefix
is_under root path = root.anchor == path.anchor && is_prefix root.names path.names

unfoldable pub drop_last : List String → List String
drop_last [] = []
drop_last (x ∷ []) = []
drop_last (x ∷ y ∷ xs) = x ∷ drop_last (y ∷ xs)

-- `path.parent`, which is the path itself at the anchor.
unfoldable pub parent : FilePath → FilePath
unfolding drop_last
parent path = record path { names = drop_last path.names }

unfoldable pub same_names : List String → List String → Bool
same_names [] [] = true
same_names [] (y ∷ ys) = false
same_names (x ∷ xs) [] = false
same_names (x ∷ xs) (y ∷ ys) = let rest = same_names xs ys in if x == y then rest else false

-- `path in paths`, where the paths are equal part by part.
unfoldable pub is_member : FilePath → List FilePath → Bool
unfolding same_names
is_member path paths = any (λ p. p.anchor == path.anchor && same_names p.names path.names) paths

abbrev pub mutating_actions : List String
mutating_actions =
    "write" ∷ "delete" ∷ "move" ∷ "mkdir" ∷ "copy" ∷ "organize_directory" ∷ "organize_downloads"
    ∷ "organize_desktop" ∷ "clean_temp" ∷ "create_structure" ∷ "undo" ∷ []

abbrev pub read_actions : List String
read_actions =
    "read" ∷ "list" ∷ "stat" ∷ "find_files" ∷ "detect_duplicates" ∷ "organize_directory" ∷ []

abbrev pub network_readonly_actions : List String
network_readonly_actions = "read" ∷ "list" ∷ "stat" ∷ "find_files" ∷ []

-- The fields of the dataclass, which `to_dict` writes.
pub record ScopeData : Type 0 where
  pub request_id : String
  pub sandbox_dir : String
  pub read_roots : List String
  pub write_roots : List String
  pub extra_read_paths : List String

pub record Scope : Type 0 where
  pub fields : ScopeData
  pub read_resolved : List FilePath
  pub write_resolved : List FilePath

unfoldable pub to_dict : Scope → ScopeData
to_dict s = s.fields

module _ (paths : Paths) where
  unfoldable pub resolve_all : List String → Option (List FilePath)
  resolve_all [] = some []
  resolve_all (root ∷ roots) = elim (paths.resolve root) [
    | none ↦ none
    | some p ↦ elim (resolve_all roots) [ none ↦ none | some ps ↦ some (p ∷ ps) ]
  ]

  -- The constructor with `__post_init__`, which is also `from_dict`; `none` where it raises.
  unfoldable pub from_dict : ScopeData → Option Scope
  unfolding resolve_all
  from_dict d = elim (resolve_all (d.sandbox_dir ∷ d.read_roots)) [
    | none ↦ none
    | some reads ↦ elim (resolve_all (d.sandbox_dir ∷ d.write_roots)) [
      | none ↦ none
      | some writes ↦ some (record { fields = d; read_resolved = reads; write_resolved = writes })
    ]
  ]

  unfoldable pub grant_read_path : String → Scope → Option Scope
  unfolding parent is_member
  grant_read_path path s = elim (paths.resolve path) [
    | none ↦ none
    | some p ↦
        let resolved = paths.text p in
        let extra = s.fields.extra_read_paths in
        let extra' = if one_of resolved extra then extra else extra ++ resolved ∷ [] in
        some (
          if is_member (parent p) s.read_resolved
          then record s { fields = record (s.fields) { extra_read_paths = extra' } }
          else record s {
            fields = record (s.fields) {
              extra_read_paths = extra';
              read_roots = s.fields.read_roots ++ paths.text (parent p) ∷ [];
            };
            read_resolved = s.read_resolved ++ parent p ∷ [];
          })
  ]

  unfoldable pub grant_write_path : String → Scope → Option Scope
  unfolding parent is_member
  grant_write_path path s = elim (paths.resolve path) [
    | none ↦ none
    | some p ↦ some (
        if is_member (parent p) s.write_resolved then s else record s {
          fields = record (s.fields) {
            write_roots = s.fields.write_roots ++ paths.text (parent p) ∷ [];
          };
          write_resolved = s.write_resolved ++ parent p ∷ [];
        })
  ]

  -- `resolved_str == extra or resolved_str.startswith(extra.rstrip("\\/") + "\\")`, for some extra.
  unfoldable pub under_extra : List String → FilePath → Bool
  under_extra extras p =
      any
        (λ extra.
          paths.text p == extra
          || starts_with (paths.text p) (String.◌++◌ (paths.rstrip_slashes extra) "\\"))
        extras

  -- `_path_under`.
  unfoldable pub path_under : Scope → String → List FilePath → Bool
  unfolding is_under under_extra
  path_under s path roots = elim (paths.resolve path) [
    | none ↦ false
    | some p ↦ any (λ root. is_under root p) roots || under_extra s.fields.extra_read_paths p
  ]

  unfoldable pub allows : Scope → String → String → Bool
  unfolding path_under
  allows s path action =
      let lowered = paths.lower action in
      if path == ""
      then false
      else if one_of lowered mutating_actions
      then path_under s path s.write_resolved
      else if one_of lowered read_actions || one_of lowered network_readonly_actions
      then path_under s path s.read_resolved || path_under s path s.write_resolved
      else path_under s path s.write_resolved

  unfoldable pub allows_dest : Scope → String → String → Bool
  unfolding allows
  allows_dest s dest action =
      allows s dest (if one_of action mutating_actions then action else "write")

  -- `_is_allowed_path`: a root that cannot be resolved is passed over.
  unfoldable pub is_allowed_path : String → Bool
  unfolding is_under
  is_allowed_path path = elim (paths.resolve path) [
    | none ↦ false
    | some p ↦
        any (λ root. elim (paths.resolve root) [ none ↦ false | some r ↦ is_under r p ])
          paths.allowed_roots
  ]

  unfoldable pub is_allowed_path_for_action : String → String → Bool
  unfolding is_allowed_path
  is_allowed_path_for_action path action =
      if paths.is_network_path path
      then one_of action network_readonly_actions
      else is_allowed_path path

  -- `scope` is the scope that is bound to the run, if there is one.
  unfoldable pub is_path_allowed_for_run : Option Scope → String → String → Bool → Bool
  unfolding allows is_allowed_path_for_action
  is_path_allowed_for_run none path action allow_outside = is_allowed_path_for_action path action
  is_path_allowed_for_run (some s) path action allow_outside =
      if allows s path action
      then true
      else if not allow_outside
      then false
      else is_allowed_path_for_action path action

  unfoldable pub grant_all : (String → Scope → Option Scope) → List String → Scope → Option Scope
  grant_all grant [] s = some s
  grant_all grant (path ∷ rest) s = elim (grant path s) [
    | none ↦ none
    | some s' ↦ grant_all grant rest s'
  ]

  -- `create_run_filesystem_scope` after it has made the directory `sandbox_dir`; the lists are the
  -- roots of the run's inputs.
  unfoldable pub create : String → String → List String → List String → Option Scope
  unfolding from_dict grant_all grant_read_path grant_write_path
  create request_id sandbox_dir reads writes =
      elim (from_dict (record {
        request_id = request_id;
        sandbox_dir = sandbox_dir;
        read_roots = sandbox_dir ∷ [];
        write_roots = sandbox_dir ∷ [];
        extra_read_paths = [];
      })) [
        | none ↦ none
        | some s ↦ elim (grant_all grant_read_path reads s) [
          | none ↦ none
          | some s' ↦ grant_all grant_write_path writes s'
        ]
      ]
