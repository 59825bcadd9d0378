-- ===== src/DomainNormalize.antt =====
-- packages/domain-normalize: the comparison key of a domain, and the scope that a rule may have. The
-- UTS #46 pass of the `idna` crate is the parameter `to_ascii`, the public suffix list of the `psl`
-- crate the parameter `registrable`.
pub mod Key
mod Runs
use holy_blocker.Shared.Texts.{split_dots}
use holy_blocker.Shared.{
  text_eq, ltb, [], some, member, length, none, ◌==◌, if◌then◌else◌, Option, ◌∷◌, List, Bytes, ℕ,
}

abbrev pub max_label_len : ℕ
max_label_len = 63

abbrev pub max_name_len : ℕ
max_name_len = 253

pub data NormalizeError : Type 0 where
  empty_domain invalid_idna label_too_long name_too_long : NormalizeError

pub data Normalized : Type 0 where
  key : Bytes → Normalized
  failed : NormalizeError → Normalized

-- `domain.strip_suffix('.').unwrap_or(domain)`
unfoldable pub strip_dot : Bytes → Bytes
strip_dot [] = []
strip_dot (b ∷ []) = if b == b'.' then [] else b ∷ []
strip_dot (b ∷ c ∷ text) = b ∷ strip_dot (c ∷ text)

-- The loop over the labels: the first label that is refused decides.
unfoldable pub label_error : List Bytes → Option NormalizeError
label_error [] = none
label_error (label ∷ labels) =
    if length label == 0
    then some invalid_idna
    else if ltb max_label_len (length label)
    then some label_too_long
    else label_error labels

-- The checks behind the UTS #46 pass.
unfoldable pub check_ascii : Bytes → Normalized
check_ascii ascii =
    if length ascii == 0 then failed empty_domain else elim (label_error (split_dots ascii)) [
      | some e ↦ failed e
      | none ↦ if ltb max_name_len (length ascii) then failed name_too_long else key ascii
    ]

unfoldable pub normalize : (Bytes → Option Bytes) → Bytes → Normalized
normalize to_ascii domain =
    let trimmed = strip_dot domain in
    if length trimmed == 0
    then failed empty_domain
    else elim (to_ascii trimmed) [ none ↦ failed invalid_idna | some ascii ↦ check_ascii ascii ]

pub data RuleScope : Type 0 where
  apex exact_host : RuleScope

pub classify_scope : (Bytes → Option Bytes) → Bytes → List Bytes → Option RuleScope
classify_scope registrable normalized denylist =
    if member normalized denylist then none else elim (registrable normalized) [
      | some domain ↦ if text_eq domain normalized then some apex else some exact_host
      | none ↦ some exact_host
    ]
