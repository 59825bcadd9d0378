-- ===== src/DomainBlocklist/PersonalName.antt =====
-- packages/domain-blocklist/src/merge.rs, `flag_personal_name`: a label that may be a person's name.
use holy_blocker.NetShield.Keyword.{starts_with}
use holy_blocker.Shared.Texts.{onto_first}
use holy_blocker.Shared.{
  inr, inl, length, Bool-cases, false, ◌&&◌, ◌||◌, arith, codes, true, leb, ◌==◌, [], ◌≡◌,
  if◌then◌else◌, Bool, List, Bytes, ℕ, ◌∷◌, refl,
}

is_separator : ℕ → Bool
is_separator b = b == b'-' || (b == b'.' || b == b'_')

is_ascii_alphabetic : ℕ → Bool
is_ascii_alphabetic b = (leb b'a' b && leb b b'z') || (leb b'A' b && leb b b'Z')

-- `split(['-', '.', '_'])`
split_separators : Bytes → List Bytes
split_separators [] = [] ∷ []
split_separators (b ∷ label) =
    let rest = split_separators label in if is_separator b then [] ∷ rest else onto_first b rest

non_empty : List Bytes → List Bytes
non_empty [] = []
non_empty ([] ∷ tokens) = non_empty tokens
non_empty ((b ∷ token) ∷ tokens) = (b ∷ token) ∷ non_empty tokens

all_alphabetic : Bytes → Bool
all_alphabetic [] = true
all_alphabetic (b ∷ token) = is_ascii_alphabetic b && all_alphabetic token

tokens_alphabetic : List Bytes → Bool
tokens_alphabetic [] = true
tokens_alphabetic (token ∷ tokens) = all_alphabetic token && tokens_alphabetic tokens

pub flag_personal_name : Bytes → Bool
flag_personal_name second_level_label =
    let tokens = non_empty (split_separators second_level_label) in
    if starts_with second_level_label (codes "xn--")
    then false
    else (leb 2 (length tokens) && leb (length tokens) 4) && tokens_alphabetic tokens

tokens_alphabetic-non_empty :
    (tokens : List Bytes) → tokens_alphabetic (non_empty tokens) ≡ tokens_alphabetic tokens
unfolding tokens_alphabetic non_empty all_alphabetic
tokens_alphabetic-non_empty [] = refl
tokens_alphabetic-non_empty ([] ∷ tokens) = ground (arith, tokens_alphabetic-non_empty tokens)
tokens_alphabetic-non_empty ((b ∷ token) ∷ tokens) =
    ground (arith, tokens_alphabetic-non_empty tokens)

tokens_alphabetic-empty :
    (tokens : List Bytes) → tokens_alphabetic ([] ∷ tokens) ≡ tokens_alphabetic tokens
unfolding tokens_alphabetic all_alphabetic
tokens_alphabetic-empty tokens = ground arith

tokens_alphabetic-onto_first :
    (b : ℕ) (tokens : List Bytes)
    → tokens_alphabetic (onto_first b tokens) ≡ true
    → (is_ascii_alphabetic b ≡ true) × (tokens_alphabetic tokens ≡ true)
unfolding tokens_alphabetic all_alphabetic
tokens_alphabetic-onto_first b [] h = ground (arith, h)
tokens_alphabetic-onto_first b (t ∷ tokens) h = ground (arith, h)

-- Whether every byte is a letter or a separator.
abbrev name_bytes : Bytes → Bool
name_bytes [] = true
name_bytes (b ∷ label) = (is_ascii_alphabetic b || is_separator b) && name_bytes label

split_separators-name_bytes :
    (label : Bytes) → tokens_alphabetic (split_separators label) ≡ true → name_bytes label ≡ true
unfolding split_separators
split_separators-name_bytes [] h = refl
split_separators-name_bytes (b ∷ label) h = elim (Bool-cases (is_separator b)) [
  | inl e ↦ ground (
    arith,
    e,
    split_separators-name_bytes label,
    tokens_alphabetic-empty (split_separators label),
    h,
  )
  | inr e ↦ ground (
    arith,
    e,
    split_separators-name_bytes label,
    tokens_alphabetic-onto_first b (split_separators label),
    h,
  )
]

-- A label that is flagged holds letters and separators only.
flag_personal_name-name_bytes :
    (label : Bytes) → flag_personal_name label ≡ true → name_bytes label ≡ true
unfolding flag_personal_name
flag_personal_name-name_bytes label h = ground (
  arith,
  h,
  tokens_alphabetic-non_empty (split_separators label),
  split_separators-name_bytes label,
)
