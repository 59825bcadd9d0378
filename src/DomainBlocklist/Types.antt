-- ===== src/DomainBlocklist/Types.antt =====
-- packages/domain-blocklist/src/types.rs. The text of a license is a list of code points.
use holy_blocker.DomainNormalize.{RuleScope}
use holy_blocker.Shared.{
  ◌==◌, [], ◌||◌, if◌then◌else◌, ◌&&◌, refl, reverse, ◌∷◌, leb, List, ℕ, ◌≡◌, Bool, Bytes, true,
  false,
}
use holy_blocker.NetShield.Utf8.{lower}

pub data SourceId : Type 0 where
  steven_black hagezi ut1 : SourceId

pub data Category : Type 0 where
  adult gambling dating : Category

pub record MergedEntry : Type 0 where
  pub domain : Bytes
  pub scope : RuleScope
  pub sources : List SourceId
  pub categories : List Category

pub record SourceSnapshot : Type 0 where
  pub source : SourceId
  pub revision : Bytes
  pub license : List ℕ
  pub fetched_at : ℕ

-- `SourceId::eq`
abbrev pub same_source : SourceId → SourceId → Bool
same_source steven_black steven_black = true
same_source hagezi hagezi = true
same_source ut1 ut1 = true
same_source _ _ = false

pub same_source→eq : (s t : SourceId) → same_source s t ≡ true → s ≡ t
same_source→eq steven_black steven_black h = refl
same_source→eq hagezi hagezi h = refl
same_source→eq ut1 ut1 h = refl
same_source→eq steven_black hagezi h = cc
same_source→eq steven_black ut1 h = cc
same_source→eq hagezi steven_black h = cc
same_source→eq hagezi ut1 h = cc
same_source→eq ut1 steven_black h = cc
same_source→eq ut1 hagezi h = cc

-- `Category::eq`
abbrev pub same_category : Category → Category → Bool
same_category adult adult = true
same_category gambling gambling = true
same_category dating dating = true
same_category _ _ = false

pub data ScopeHint : Type 0 where
  no_hint apex_hint : ScopeHint

pub record RawEntry : Type 0 where
  pub domain : Bytes
  pub source : SourceId
  pub category : Category
  pub scope_hint : ScopeHint

-- `char::is_whitespace`, the property White_Space of Unicode.
is_whitespace : ℕ → Bool
is_whitespace c =
    (leb 9 c && leb c 13)
    || (c == 32
        || (c == 0x85
            || (c == 0xa0
                || (c == 0x1680
                    || ((leb 0x2000 c && leb c 0x200a)
                        || (c == 0x2028
                            || (c == 0x2029 || (c == 0x202f || (c == 0x205f || c == 0x3000)))))))))

trim_start : List ℕ → List ℕ
trim_start [] = []
trim_start (c ∷ text) = if is_whitespace c then trim_start text else c ∷ text

-- `str::trim`
trim : List ℕ → List ℕ
trim text = reverse (trim_start (reverse (trim_start text)))

-- `str::eq_ignore_ascii_case`
eq_ignore_ascii_case : List ℕ → List ℕ → Bool
eq_ignore_ascii_case [] [] = true
eq_ignore_ascii_case (c ∷ text) (d ∷ other) = lower c == lower d && eq_ignore_ascii_case text other
eq_ignore_ascii_case _ _ = false

-- `LicenseId::spdx_matches`
pub spdx_matches : List ℕ → List ℕ → Bool
spdx_matches license other = eq_ignore_ascii_case (trim license) (trim other)
