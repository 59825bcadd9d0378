-- ===== src/NetShield/Keyword/Runs.antt =====
-- Tokens of an application's name.
use holy_blocker.Shared.{refl, text_eq}
use holy_blocker.NetShield.Keyword.Token.{normalize_token-token, IsTokenByte}
use holy_blocker.NetShield.Keyword.Rules.{keyword_rules-IsRuleSet, IsRuleSet}
use holy_blocker.NetShield.Utf8.{lower}
use holy_blocker.NetShield.Keyword.{
  some, false, stoplist, keyword_rules, [], member, codes, is_ascii_alphanumeric, Bytes, token_of,
  normalize_token,
}
use holy_blocker.Shared.{◌≡◌, All, ◌∷◌, ◌≤◌, List}

normalize_token-token_example :
    (5 ≤ 11)
    × All IsTokenByte (codes "examplegame")
    × (member (codes "examplegame") stoplist ≡ false)
    × (normalize_token (codes "examplegame") ≡ some (codes "examplegame"))
unfolding normalize_token token_of is_ascii_alphanumeric lower text_eq
normalize_token-token_example = normalize_token-token (codes "Example Game") refl

abbrev raws : List Bytes
raws = codes "Example Game" ∷ codes "chat" ∷ codes "Other-One" ∷ codes "example game" ∷ []

keyword_rules-IsRuleSet_example : IsRuleSet raws (keyword_rules raws)
keyword_rules-IsRuleSet_example = keyword_rules-IsRuleSet raws
