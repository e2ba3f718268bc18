-- ===== src/RiskClassifier.antt =====
-- safety/risk_classifier.py: the two tables of rules, `normalize_command` and `classify`. Python's `re`
-- and methods of `str` are given by a `TextOps`.
pub mod Levels
use phylum.Common.{
  String, Bool, true, false, not, List, [], ◌∷◌, ◌++◌, ◌&&◌, ◌||◌, ◌==◌, if◌then◌else◌, any, find?,
  Option, none, some, non_empty, distinct,
}

pub data Level : Type 0 where
  low medium high : Level

unfoldable pub is_low : Level → Bool
is_low low = true
is_low _ = false

unfoldable pub is_high : Level → Bool
is_high high = true
is_high _ = false

-- `search pattern text` is `re.search(pattern, text, re.IGNORECASE)`, and `sub pattern text` is
-- `re.sub(pattern, "", text, flags=re.IGNORECASE)`; `strip_of chars text` is `text.strip(chars)`.
pub record TextOps : Type 0 where
  pub search : String → String → Bool
  pub sub : String → String → String
  pub lower : String → String
  pub strip : String → String
  pub strip_of : String → String → String

-- A set of tags is a list without repetitions, in some order.
pub record Risk : Type 0 where
  pub level : Level
  pub tags : List String

pub record SafeRule : Type 0 where
  pub pattern : String
  pub tags : List String

pub record Rule : Type 0 where
  pub pattern : String
  pub level : Level
  pub tags : List String

unfoldable pub safe_inspection_rules : List SafeRule
safe_inspection_rules =
    record { pattern = "^(get-date|pwd|get-location|whoami|hostname)\\b"; tags = "inspection" ∷ [] }
    ∷ record { pattern = "^(dir|ls|get-childitem)\\b"; tags = "inspection" ∷ "filesystem" ∷ [] }
    ∷ record { pattern = "^(echo|write-output)\\b"; tags = "inspection" ∷ [] }
    ∷ record { pattern = "^(type|get-content)\\b"; tags = "inspection" ∷ "filesystem" ∷ [] }
    ∷ record {
      pattern = "^(get-process|get-service|get-command|get-psdrive|get-smbshare)\\b";
      tags = "inspection" ∷ "system" ∷ [];
    }
    ∷ record {
      pattern = "^(get-printer|get-printerport|get-printerdriver)\\b";
      tags = "inspection" ∷ "printer" ∷ [];
    }
    ∷ record { pattern = "^(python|py|node|npm|pip)\\s+--version\\b"; tags = "inspection" ∷ [] }
    ∷ record { pattern = "^net\\s+use\\b"; tags = "inspection" ∷ "network" ∷ [] }
    ∷ []

unfoldable pub risk_rules : List Rule
risk_rules =
    record {
      pattern =
          "\\b(format(?!-table\\b)(?!-list\\b)|shutdown|stop-computer|restart-computer|diskpart)\\b";
      level = high;
      tags = "destructive" ∷ "system" ∷ [];
    }
    ∷ record {
      pattern = "\\b(remove-item|del|erase|rm|rmdir|rd)\\b.*(\\-recurse|\\-force|/s|[A-Za-z]:\\\\)";
      level = high;
      tags = "destructive" ∷ "filesystem" ∷ [];
    }
    ∷ record {
      pattern =
          "\\b(reg\\s+(add|delete|deletevalue)|sc\\s+delete|bcdedit|takeown|icacls|cipher\\s+/w)\\b";
      level = high;
      tags = "system" ∷ "registry" ∷ [];
    }
    ∷ record {
      pattern = "\\b(net\\s+user|net\\s+localgroup)\\b";
      level = high;
      tags = "accounts" ∷ "system" ∷ [];
    }
    ∷ record {
      pattern = "\\b(choco|winget)\\s+(install|upgrade|uninstall)\\b";
      level = medium;
      tags = "installer" ∷ "system" ∷ [];
    }
    ∷ record {
      pattern =
          "\\b(msiexec\\s+/i|python\\s+-m\\s+pip\\s+(install|uninstall|install\\s+--upgrade)|py\\s+-m\\s+pip\\s+(install|uninstall|install\\s+--upgrade))\\b";
      level = medium;
      tags = "installer" ∷ [];
    }
    ∷ record {
      pattern = "\\b(curl|wget|invoke-webrequest|start-bitstransfer|certutil\\b.*-urlcache)\\b";
      level = medium;
      tags = "network" ∷ [];
    }
    ∷ record {
      pattern =
          "\\b(start-process|new-item|set-content|add-content|copy-item|move-item|rename-item)\\b";
      level = medium;
      tags = "mutation" ∷ [];
    }
    ∷ record { pattern = "\\b(powershell|cmd)(?:\\.exe)?\\b|\\|"; level = low; tags = "shell" ∷ [] }
    ∷ []

unfoldable pub is_medium : Level → Bool
is_medium medium = true
is_medium _ = false

-- `if p_level == "medium" and level != "high": level = "medium"`.
unfoldable pub raise : Level → Level → Level
unfolding is_high is_medium
raise level found = if is_medium found && not (is_high level) then medium else level

-- The two ways in which `classify` ends: a safe rule, or what the loop has gathered.
unfoldable pub report : Option SafeRule → Level × List String → Risk
report (some r) found = record { level = low; tags = distinct (r.tags ++ "shell" ∷ []) }
report none found = record {
  level = found.0;
  tags = distinct (if non_empty found.1 then found.1 else "shell" ∷ []);
}

module _ (ops : TextOps) where
  unfoldable pub normalize_command : String → String
  normalize_command command =
      let one =
        ops.sub "^\\s*(powershell|pwsh)(?:\\.exe)?\\s+(-command|-c)\\s+" (ops.strip command) in
      let two = ops.sub "^\\s*cmd(?:\\.exe)?\\s+/c\\s+" one in ops.strip_of "\"' " (ops.strip two)

  unfoldable pub matches_safe : String → SafeRule → Bool
  unfolding normalize_command
  matches_safe command r = ops.search r.pattern (ops.lower (normalize_command command))

  unfoldable pub matches_risk : String → Rule → Bool
  unfolding normalize_command
  matches_risk command r = ops.search r.pattern (normalize_command command)

  -- The loop over the rules, from the level and the tags that it has so far. A high rule ends it.
  unfoldable pub scan : String → Level → List String → List Rule → Level × List String
  unfolding is_high
  scan command level tags [] = (level, tags)
  scan command level tags (r ∷ rs) =
      let rest = scan command (raise level r.level) (tags ++ r.tags) rs in
      let skipped = scan command level tags rs in
      if matches_risk command r
      then if is_high r.level then (high, tags ++ r.tags) else rest
      else skipped

  unfoldable pub classify : String → Risk
  classify command =
      report (find? (matches_safe command) safe_inspection_rules) (scan command low [] risk_rules)
