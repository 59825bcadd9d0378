-- ===== src/NetShield/Radix/Runs.antt =====
-- A filter of two rules, one below the other.
use holy_blocker.Shared.Texts.{split_dots}
use holy_blocker.NetShield.Radix.Longest.{path_eq}
use holy_blocker.Shared.{text_eq}
use holy_blocker.NetShield.Radix.Longest.{rule_for-from_rules, longest, rule_in}
use holy_blocker.NetShield.Radix.{[], allow, some, block, from_rules, rule_for, Rules}
use holy_blocker.Shared.{◌∷◌, ◌≡◌, codes}

abbrev rules : Rules
rules = (codes "example.com", block) ∷ (codes "ok.example.com", allow) ∷ []

rule_for-from_rules_example : rule_for (from_rules rules) (codes "a.ok.example.com") ≡ some allow
unfolding longest rule_in split_dots path_eq text_eq
rule_for-from_rules_example = rule_for-from_rules rules (codes "a.ok.example.com")
