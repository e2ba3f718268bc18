-- ===== src/RiskClassifier/Levels.antt =====
-- The level that `classify` gives a command, from the rules of the two tables that it matches.
use phylum.Common.{
  String, true, false, not, List, [], ◌∷◌, ◌++◌, ◌&&◌, ◌||◌, any, find?, Option, none, some, ◌≡◌,
  refl, ap, ◌∙◌, Bool-cases, inl, inr, is_some, arith,
}
use phylum.RiskClassifier.{
  Level, low, medium, high, is_low, is_high, is_medium, raise, TextOps, Rule, SafeRule, report,
  risk_rules, safe_inspection_rules, matches_safe, matches_risk, scan, classify,
}

raise-is_high : (level found : Level) → is_high (raise level found) ≡ is_high level
unfolding raise is_high is_medium
raise-is_high low low = refl
raise-is_high low medium = refl
raise-is_high low high = refl
raise-is_high medium low = refl
raise-is_high medium medium = refl
raise-is_high medium high = refl
raise-is_high high low = refl
raise-is_high high medium = refl
raise-is_high high high = refl

raise-is_low :
    (level found : Level)
    → is_high found ≡ false
    → is_low (raise level found) ≡ (is_low level && is_low found)
unfolding raise is_low is_high is_medium
raise-is_low low low h = refl
raise-is_low low medium h = refl
raise-is_low low high h = ground arith
raise-is_low medium low h = refl
raise-is_low medium medium h = refl
raise-is_low medium high h = refl
raise-is_low high low h = refl
raise-is_low high medium h = refl
raise-is_low high high h = refl

high-not_low : (l : Level) → is_high l ≡ true → is_low l ≡ false
unfolding is_low is_high
high-not_low low h = ground arith
high-not_low medium h = refl
high-not_low high h = refl

report-is_high :
    (o : Option SafeRule) (found : Level × List String)
    → is_high (report o found).level ≡ (not (is_some o) && is_high found.0)
unfolding report is_high
report-is_high none found = refl
report-is_high (some r) found = refl

report-is_low :
    (o : Option SafeRule) (found : Level × List String)
    → is_low (report o found).level ≡ (is_some o || is_low found.0)
unfolding report is_low
report-is_low none found = refl
report-is_low (some r) found = refl

module _ (ops : TextOps) (command : String) where
  scan-is_high :
      (level : Level) (tags : List String) (rs : List Rule)
      → is_high (scan ops command level tags rs).0
        ≡ (is_high level || any (λ r. matches_risk ops command r && is_high r.level) rs)
  unfolding scan
  scan-is_high level tags [] = ground arith
  scan-is_high level tags (r ∷ rs) =
      let taken = scan-is_high (raise level r.level) (tags ++ r.tags) rs in
      let skipped = scan-is_high level tags rs in
      let same = raise-is_high level r.level in
      elim (Bool-cases (matches_risk ops command r)) [
        | inl e ↦ elim (Bool-cases (is_high r.level)) [
          | inl h ↦ rw (e, h) (ground arith)
          | inr h ↦ rw (e, h) (ground arith)
        ]
        | inr e ↦ rw e (ground arith)
      ]

  scan-is_low :
      (level : Level) (tags : List String) (rs : List Rule)
      → is_low (scan ops command level tags rs).0
        ≡ (is_low level && not (any (λ r. matches_risk ops command r && not (is_low r.level)) rs))
  unfolding scan
  scan-is_low level tags [] = ground arith
  scan-is_low level tags (r ∷ rs) =
      let taken = scan-is_low (raise level r.level) (tags ++ r.tags) rs in
      let skipped = scan-is_low level tags rs in
      elim (Bool-cases (matches_risk ops command r)) [
        | inl e ↦ elim (Bool-cases (is_high r.level)) [
          | inl h ↦ let l = high-not_low r.level h in rw (e, h, l) (ground arith)
          | inr h ↦ let same = raise-is_low level r.level h in rw (e, h) (ground arith)
        ]
        | inr e ↦ rw e (ground arith)
      ]

  -- The level of a command is high exactly where it matches no rule of the safe table and matches a
  -- high rule of the other, and low exactly where it matches a safe rule or no rule that is medium or
  -- high.
  pub classify-level :
      (is_high (classify ops command).level ≡ (
        not (is_some (find? (matches_safe ops command) safe_inspection_rules))
        && any (λ r. matches_risk ops command r && is_high r.level) risk_rules))
      × (is_low (classify ops command).level ≡ (
          is_some (find? (matches_safe ops command) safe_inspection_rules)
          || not (any (λ r. matches_risk ops command r && not (is_low r.level)) risk_rules)))
  unfolding classify is_high is_low
  classify-level =
      let rule = find? (matches_safe ops command) safe_inspection_rules in
      let found = scan ops command low [] risk_rules in
      (
        report-is_high rule found
            ∙ ap (λ b. not (is_some rule) && b) (scan-is_high low [] risk_rules),
        report-is_low rule found ∙ ap (λ b. is_some rule || b) (scan-is_low low [] risk_rules),
      )
