-- ===== src/Examples/Policies.antt =====
-- Verdicts of the policy on commands and files.
use phylum.Common.{
  String, ◌≡◌, ◌≢◌, refl, true, false, not, none, some, [], ◌∷◌, ◌&&◌, ◌||◌, ◌==◌, arith, eq_iff,
  any, find?, is_some,
}
use phylum.RiskClassifier.{
  medium, TextOps, classify, is_low, is_high, matches_safe, matches_risk, safe_inspection_rules,
  risk_rules,
}
use phylum.RiskClassifier.Levels.{classify-level}
use phylum.Policy.{
  Task, Metadata, Grant, PolicyEnv, single, allow, given, evaluate, conclude, relax, path_check,
  matching_grant,
}
use phylum.FilesystemScope.{Paths, is_allowed_path_for_action}
use phylum.Policy.Sandbox.{with_paths, IsInside, evaluate-IsInside}
use phylum.Policy.Approvals.{IsCovered, evaluate-IsCovered}

-- Patterns that match only the whole text.
abbrev texts : TextOps
texts = record {
  search = λ pattern text. pattern == text;
  sub = λ pattern text. text;
  lower = λ text. text;
  strip = λ text. text;
  strip_of = λ chars text. text;
}

abbrev writes_files : Metadata
writes_files = record {
  mutates_state = true;
  double_confirm = false;
  approval_mode = single;
  target_fields = "path" ∷ [];
  effect_kind = none;
  reversibility = none;
}

abbrev env : PolicyEnv
env = record {
  action_metadata = λ tool action. writes_files;
  supported_tools = "shell" ∷ "filesystem" ∷ "notes" ∷ [];
  is_allowed_path = λ path mode. path == "/work/a";
  texts = texts;
}

abbrev grant : Grant
grant = record {
  grant_id = "grant_1";
  status = "active";
  scope = "run_scope";
  family = none;
  tool = some "notes";
  max_risk_level = some medium;
}

abbrev note : Task
note = record {
  tool = "notes";
  action = "write";
  params = record { fields = []; require_admin = false };
}

abbrev command : Task
command = record {
  tool = "shell";
  action = "run";
  params = record { fields = ("command", "ls") ∷ []; require_admin = true };
}

abbrev file : Task
file = record {
  tool = "filesystem";
  action = "write";
  params = record { fields = ("path", "/etc/passwd") ∷ []; require_admin = false };
}

classify-level_example :
    (is_high (classify texts "ls").level ≡ (
      not (is_some (find? (matches_safe texts "ls") safe_inspection_rules))
      && any (λ r. matches_risk texts "ls" r && is_high r.level) risk_rules))
    × (is_low (classify texts "ls").level ≡ (
        is_some (find? (matches_safe texts "ls") safe_inspection_rules)
        || not (any (λ r. matches_risk texts "ls" r && not (is_low r.level)) risk_rules)))
classify-level_example = classify-level texts "ls"

evaluate-IsCovered_example :
    IsCovered (grant ∷ []) note writes_files (evaluate env "local" (grant ∷ []) note).risk grant
unfolding evaluate conclude relax path_check matching_grant
evaluate-IsCovered_example = evaluate-IsCovered env "local" (grant ∷ []) note grant refl

ls_there : ◌≢◌ {A = String} "ls" ""
ls_there e = ground (arith, eq_iff "ls" "")

abbrev flat : Paths
flat = record {
  resolve = λ s. some (record { anchor = "/"; names = s ∷ [] });
  text = λ p. "";
  lower = λ s. s;
  rstrip_slashes = λ s. s;
  is_network_path = λ s. false;
  allowed_roots = "a" ∷ [];
}

abbrev reader : PolicyEnv
reader = record env {
  action_metadata = λ tool action. record writes_files { mutates_state = false };
}

abbrev read_a : Task
read_a = record file {
  action = "read";
  params = record (file.params) { fields = ("path", "a") ∷ [] };
}

passes : (evaluate (with_paths reader flat) "local" (grant ∷ []) read_a).status ≡ allow
unfolding evaluate conclude relax is_allowed_path_for_action
passes = refl

evaluate-IsInside_example :
    ((path : String) → given "path" read_a.params ≡ some path → IsInside flat "read" path)
    × ((dest : String) → given "dest" read_a.params ≡ some dest → IsInside flat "read" dest)
evaluate-IsInside_example =
    evaluate-IsInside reader flat "local" (grant ∷ []) read_a refl ((λ e. ground arith), tt) passes
