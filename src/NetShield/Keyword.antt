-- ===== src/NetShield/Keyword.antt =====
-- packages/net-shield/src/keyword.rs: keyword rules. The public suffix list of the `psl` crate is the
-- parameters `registrable`, its `domain_str`, and `under_private_suffix`. The letters and digits of
-- ASCII are single bytes in a text, so the filter over characters is one over bytes.
pub mod Token
pub mod Rules
mod Runs
use mathlib.Core.Option
use holy_blocker.Shared.Texts.{split_dots}
use holy_blocker.NetShield.Utf8.{lower}
use holy_blocker.Shared.{
  any, take, member, drop, ltb, not, ◌-◌, ◌==◌, text_eq, some, false, ◌&&◌, ◌||◌, length, none,
  true, if◌then◌else◌, leb, [], Option, ◌∷◌, Bool, codes, Bytes, List, ℕ,
}

abbrev pub min_token_len : ℕ
min_token_len = 5

abbrev pub stoplist : List Bytes
stoplist =
    codes "browser"
    ∷ codes "calculator"
    ∷ codes "calendar"
    ∷ codes "camera"
    ∷ codes "chat"
    ∷ codes "clock"
    ∷ codes "cloud"
    ∷ codes "drive"
    ∷ codes "email"
    ∷ codes "files"
    ∷ codes "games"
    ∷ codes "line"
    ∷ codes "mail"
    ∷ codes "maps"
    ∷ codes "media"
    ∷ codes "meta"
    ∷ codes "mobile"
    ∷ codes "music"
    ∷ codes "news"
    ∷ codes "notes"
    ∷ codes "phone"
    ∷ codes "photo"
    ∷ codes "photos"
    ∷ codes "search"
    ∷ codes "settings"
    ∷ codes "shop"
    ∷ codes "store"
    ∷ codes "translate"
    ∷ codes "video"
    ∷ codes "videos"
    ∷ codes "weather"
    ∷ codes "world"
    ∷ []

pub data KeywordMatch : Type 0 where
  exact contains_token : KeywordMatch

-- `char::is_ascii_alphanumeric`
unfoldable pub is_ascii_alphanumeric : ℕ → Bool
is_ascii_alphanumeric c =
    (leb b'a' c && leb c b'z') || ((leb b'A' c && leb c b'Z') || (leb b'0' c && leb c b'9'))

token_of : Bytes → Bytes
token_of [] = []
token_of (c ∷ raw) =
    let rest = token_of raw in if is_ascii_alphanumeric c then lower c ∷ rest else rest

-- The binary search finds a token exactly when the sorted list has it.
pub normalize_token : Bytes → Option Bytes
normalize_token raw =
    let token = token_of raw in
    if leb min_token_len (length token) && not (member token stoplist) then some token else none

-- The order of texts by their bytes.
text_leb : Bytes → Bytes → Bool
text_leb [] b = true
text_leb (x ∷ a) [] = false
text_leb (x ∷ a) (y ∷ b) = ltb x y || (x == y && text_leb a b)

usable_tokens : List Bytes → List Bytes
usable_tokens [] = []
usable_tokens (raw ∷ raws) =
    let rest = usable_tokens raws in elim (normalize_token raw) [ none ↦ rest | some t ↦ t ∷ rest ]

insert_sorted : Bytes → List Bytes → List Bytes
insert_sorted t [] = t ∷ []
insert_sorted t (u ∷ us) = if text_leb t u then t ∷ u ∷ us else u ∷ insert_sorted t us

sort_texts : List Bytes → List Bytes
sort_texts [] = []
sort_texts (t ∷ ts) = insert_sorted t (sort_texts ts)

-- `Vec::dedup`: of equal neighbours the first stays.
dedup_from : Bytes → List Bytes → List Bytes
dedup_from t [] = t ∷ []
dedup_from t (u ∷ us) = if text_eq t u then dedup_from t us else t ∷ dedup_from u us

dedup : List Bytes → List Bytes
dedup [] = []
dedup (t ∷ ts) = dedup_from t ts

-- `KeywordRules::new`
pub keyword_rules : List Bytes → List Bytes
keyword_rules raws = dedup (sort_texts (usable_tokens raws))

-- `text.split_once('.')`
pub split_at_dot : Bytes → Option (Bytes × Bytes)
split_at_dot [] = none
split_at_dot (b ∷ text) =
    if b == b'.'
    then some ([], text)
    else Option.map (λ (p : Bytes × Bytes). (b ∷ p.0, p.1)) (split_at_dot text)

-- `text.strip_suffix(suffix)`
pub strip_suffix : Bytes → Bytes → Option Bytes
strip_suffix text suffix =
    let front = length text - length suffix in
    if leb (length suffix) (length text) && text_eq (drop front text) suffix
    then some (take front text)
    else none

-- `text.starts_with(token)` and `text.contains(token)`
pub starts_with : Bytes → Bytes → Bool
starts_with text [] = true
starts_with [] (x ∷ token) = false
starts_with (y ∷ text) (x ∷ token) = x == y && starts_with text token

pub contains : Bytes → Bytes → Bool
contains [] token = starts_with [] token
contains (b ∷ text) token = starts_with (b ∷ text) token || contains text token

module _ (registrable : Bytes → Option Bytes) (under_private_suffix : Bytes → Bool) where
  -- The tests behind the public suffix list, on the registrable domain.
  match_below : List Bytes → Bytes → Bytes → Option KeywordMatch
  match_below tokens normalized domain = elim (split_at_dot domain) [
    | none ↦ none
    | some (own_label, suffix) ↦ elim (strip_suffix normalized suffix) [
      | none ↦ none
      | some front ↦ elim (strip_suffix front (b'.' ∷ [])) [
        | none ↦ none
        | some below_suffix ↦
            if member own_label tokens
            then some exact
            else if any (λ label. any (contains label) tokens) (split_dots below_suffix)
            then some contains_token
            else none
      ]
    ]
  ]

  -- `KeywordRules::matches`
  pub keyword_matches : List Bytes → Bytes → Option KeywordMatch
  keyword_matches [] normalized = none
  keyword_matches (t ∷ tokens) normalized =
      if under_private_suffix normalized then none else elim (registrable normalized) [
        | none ↦ none
        | some domain ↦ match_below (t ∷ tokens) normalized domain
      ]
