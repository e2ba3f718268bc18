-- ===== src/Policy.antt =====
-- safety/policy_engine.py: `PolicyEngine`. The registry's table of tools and the paths that the
-- filesystem scope allows are the engine's collaborators, given by a `PolicyEnv`.
pub mod Approvals
pub mod Sandbox
use phylum.Common.{
  ℕ, String, Bool, true, false, not, Option, none, some, List, [], ◌∷◌, ◌++◌, ◌&&◌, ◌||◌, ◌==◌,
  if◌then◌else◌, leb, ltb, one_of, truthy, is_text, is_some, any, find?, filter, map, non_empty,
  text_in, or_else,
}
use phylum.RiskClassifier.{
  Level, low, medium, high, Risk, TextOps, classify, normalize_command, is_low, is_high,
}
use phylum.Common.Dict.{Dict, get}

-- RISK_ORDER.
unfoldable pub risk_order : Level → ℕ
risk_order low = 0
risk_order medium = 1
risk_order high = 2

pub data Mode : Type 0 where
  no_approval single double : Mode

unfoldable pub wants_approval : Mode → Bool
wants_approval no_approval = false
wants_approval _ = true

pub record Metadata : Type 0 where
  pub mutates_state : Bool
  pub double_confirm : Bool
  pub approval_mode : Mode
  pub target_fields : List String
  pub effect_kind : Option String
  pub reversibility : Option String

-- `params`: the texts among them, and the truth of `require_admin`.
pub record Params : Type 0 where
  pub fields : Dict String
  pub require_admin : Bool

pub record Task : Type 0 where
  pub tool : String
  pub action : String
  pub params : Params

-- `max_risk_level` is `none` where it is missing or no level; the default is medium then.
pub record Grant : Type 0 where
  pub grant_id : String
  pub status : String
  pub scope : String
  pub family : Option String
  pub tool : Option String
  pub max_risk_level : Option Level

pub record PolicyEnv : Type 0 where
  pub action_metadata : String → String → Metadata
  pub supported_tools : List String
  pub is_allowed_path : String → String → Bool
  pub texts : TextOps

pub data Effect : Type 0 where
  acts : String → String → List (String × String) → Effect
  access_outside_sandbox : String → Effect
  run_command : String → Level → Bool → Effect

pub data Status : Type 0 where
  allow deny require_approval : Status

pub data Reason : Type 0 where
  passed covered unsupported command_missing needs_approval : Reason

pub record Approval : Type 0 where
  pub mode : Mode
  pub effects : List Effect
  pub reversibility : Option String

pub record Verdict : Type 0 where
  pub status : Status
  pub reason : Reason
  pub requires_approval : Bool
  pub risk : Risk
  pub approval : Option Approval
  pub grant : Option Grant

abbrev pub desktop_tools : List String
desktop_tools = "desktop" ∷ "windows_ui" ∷ "browser" ∷ "office" ∷ []

abbrev pub workspace_tools : List String
workspace_tools = "filesystem" ∷ "share_discovery" ∷ "document_intelligence" ∷ []

-- INTERACTIVE_DESKTOP_BLOCKLIST.
unfoldable pub is_blocklisted : String → String → Bool
is_blocklisted tool action =
    tool == "desktop"
    && one_of action
        ("close_window" ∷ "kill_process" ∷ "clipboard_set" ∷ "notify" ∷ "service_action" ∷ [])

pub data Family : Type 0 where
  interactive_desktop workspace_access : Family
  of_tool : String → Family

unfoldable pub grant_family : String → Family
grant_family tool =
    if one_of tool desktop_tools
    then interactive_desktop
    else if one_of tool workspace_tools
    then workspace_access
    else of_tool tool

-- `params.get(name)`, where it is truthy.
unfoldable pub given : String → Params → Option String
unfolding get
given name p = let found = get name p.fields in if truthy found then found else none

abbrev pub command_of : Params → String
command_of p = or_else (get "command" p.fields) ""

-- Whether the family of the grant has the task.
unfoldable pub family_allows : Task → Metadata → Grant → Bool
unfolding is_blocklisted
family_allows t m g =
    if is_text g.family "interactive_desktop"
    then one_of t.tool desktop_tools && not (is_blocklisted t.tool t.action)
    else if is_text g.family "workspace_access"
    then one_of t.tool workspace_tools && not m.mutates_state
    else is_text g.tool t.tool

unfoldable pub grant_allows : Task → Metadata → Risk → Grant → Bool
unfolding risk_order family_allows
grant_allows t m risk g =
    (g.status == "active")
    && ((g.scope == "run_scope")
        && (not m.double_confirm
            && (leb (risk_order risk.level)
                  (elim g.max_risk_level [ none ↦ 1 | some l ↦ risk_order l ])
                && (not t.params.require_admin && family_allows t m g))))

unfoldable pub matching_grant : List Grant → Task → Metadata → Risk → Option Grant
unfolding grant_allows
matching_grant grants t m risk = find? (grant_allows t m risk) grants

-- What the checks before the grants have decided.
pub record Pending : Type 0 where
  pub requires : Bool
  pub mode : Mode
  pub risk : Risk
  pub effects : List Effect

module _ (env : PolicyEnv) where
  unfoldable pub risk_for : Task → Metadata → Risk
  risk_for t m =
      if t.tool == "shell"
      then classify env.texts (command_of t.params)
      else if t.tool == "desktop" && t.action == "service_action"
      then record { level = high; tags = t.tool ∷ "service" ∷ [] }
      else if m.double_confirm
      then record { level = high; tags = t.tool ∷ "destructive" ∷ [] }
      else if m.mutates_state
      then record { level = medium; tags = t.tool ∷ [] }
      else record { level = low; tags = t.tool ∷ [] }

  unfoldable pub targets : List String → Params → List (String × String)
  unfolding get
  targets [] p = []
  targets (f ∷ fs) p =
      let rest = targets fs p in elim (get f p.fields) [ none ↦ rest | some v ↦ (f, v) ∷ rest ]

  unfoldable pub predicted_effects : Task → Metadata → List Effect
  unfolding targets
  predicted_effects t m =
      acts t.tool (if truthy m.effect_kind then or_else m.effect_kind t.action else t.action)
        (targets m.target_fields t.params)
      ∷ []

  -- `if path and not is_allowed_path_for_action(path, action)`.
  unfoldable pub refused_path : String → Option String → List String
  refused_path action path = elim path [
    | none ↦ []
    | some p ↦ if env.is_allowed_path p action then [] else p ∷ []
  ]

  unfoldable pub outside_sandbox : Task → List String
  unfolding refused_path given
  outside_sandbox t =
      if t.tool == "filesystem"
      then refused_path t.action (given "path" t.params)
        ++ refused_path t.action (given "dest" t.params)
      else []

  -- The metadata's mode, and the rule for paths outside the sandbox.
  unfoldable pub path_check : Task → Metadata → Pending
  unfolding outside_sandbox risk_for predicted_effects wants_approval
  path_check t m =
      if non_empty (outside_sandbox t)
      then record {
        requires = true;
        mode = if m.double_confirm then double else single;
        risk = record { level = high; tags = "filesystem" ∷ "sandbox" ∷ [] };
        effects = predicted_effects t m ++ map access_outside_sandbox (outside_sandbox t);
      }
      else record {
        requires = wants_approval m.approval_mode;
        mode = m.approval_mode;
        risk = risk_for t m;
        effects = predicted_effects t m;
      }

  -- Outside the agentic mode an inspection needs no approval, except outside the sandbox.
  unfoldable pub relax : String → Task → Metadata → Pending → Pending
  unfolding outside_sandbox
  relax runtime_mode t m p =
      if not (runtime_mode == "agentic")
        && (not m.mutates_state && (not (t.tool == "shell") && not (non_empty (outside_sandbox t))))
      then record p { requires = false }
      else p

  -- The rules for a shell command that is there.
  unfoldable pub shell_check : String → Task → Pending → Pending
  unfolding is_low is_high
  shell_check runtime_mode t p =
      let risk = classify env.texts (command_of t.params) in
      record {
        requires = not (is_low risk.level) || t.params.require_admin;
        mode =
            if is_high risk.level
            then double
            else if t.params.require_admin
            then single
            else p.mode;
        risk = risk;
        effects =
            run_command (normalize_command env.texts (command_of t.params)) risk.level
              t.params.require_admin
            ∷ [];
      }

  -- The grants, and the verdict.
  unfoldable pub conclude : List Grant → Task → Metadata → Pending → Verdict
  conclude grants t m p =
      if p.requires
      then elim (matching_grant grants t m p.risk) [
        | none ↦ record {
          status = require_approval;
          reason = needs_approval;
          requires_approval = true;
          risk = p.risk;
          approval =
              some (record { mode = p.mode; effects = p.effects; reversibility = m.reversibility });
          grant = none;
        }
        | some g ↦ record {
          status = allow;
          reason = covered;
          requires_approval = false;
          risk = p.risk;
          approval = none;
          grant = some g;
        }
      ]
      else record {
        status = allow;
        reason = passed;
        requires_approval = false;
        risk = p.risk;
        approval = none;
        grant = none;
      }

  abbrev pub denied : Reason → Risk → Verdict
  denied why risk = record {
    status = deny;
    reason = why;
    requires_approval = false;
    risk = risk;
    approval = none;
    grant = none;
  }

  unfoldable pub evaluate : String → List Grant → Task → Verdict
  evaluate runtime_mode grants t =
      let m = env.action_metadata t.tool t.action in
      if not (one_of t.tool env.supported_tools)
      then denied unsupported (record { level = high; tags = "unsupported" ∷ [] })
      else if not (t.tool == "shell")
      then conclude grants t m (relax runtime_mode t m (path_check t m))
      else if command_of t.params == ""
      then denied command_missing (classify env.texts (command_of t.params))
      else conclude grants t m (shell_check runtime_mode t (path_check t m))

  unfoldable pub supports_run_scope : Task → Bool
  unfolding outside_sandbox risk_for is_high is_low
  supports_run_scope t =
      let m = env.action_metadata t.tool t.action in
      not m.double_confirm
      && (not (is_high (risk_for t m).level)
          && (not
                (t.tool == "shell" && (not (is_low (risk_for t m).level) || t.params.require_admin))
              && (not (non_empty (outside_sandbox t)) && mode_ok m.approval_mode)))
    where
      mode_ok : Mode → Bool
      mode_ok double = false
      mode_ok _ = true
