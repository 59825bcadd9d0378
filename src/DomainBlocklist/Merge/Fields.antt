-- ===== src/DomainBlocklist/Merge/Fields.antt =====
-- How the fields of an entry grow with each raw entry, and tests on lists with the same items.
use holy_blocker.DomainNormalize.{apex, exact_host, RuleScope}
use holy_blocker.Shared.{refl}
use holy_blocker.DomainBlocklist.Types.{same_source, same_category}
use holy_blocker.DomainBlocklist.Gates.{has_source}
use holy_blocker.DomainBlocklist.Merge.{
  Category, SourceId, none, some, RawEntry, Option, same_category, ◌∷◌, any, MergedEntry, List,
  wider, Bytes, Bool, RuleScope, source_rank, category_rank, has_category, inserted, modified,
}
use holy_blocker.DomainBlocklist.Merge.ByDomain.{touched}
use holy_blocker.DomainBlocklist.Merge.Loop.{reads}
use holy_blocker.DomainBlocklist.Merge.Ranked.{any-push}
use holy_blocker.Shared.Listed.{Listed}
use holy_blocker.Shared.{[], inr, inl, Bool-cases, Bool-ext, arith, ◌↔◌, ◌||◌, false, ◌≡◌, true}
use holy_blocker.DomainBlocklist.Types.{same_source}
use holy_blocker.DomainBlocklist.Merge.Enums.{
  category_rank-inj, same_category_iff, source_rank-inj, same_source_iff,
}

abbrev pub is_apex : RuleScope → Bool
is_apex apex = true
is_apex exact_host = false

pub is_apex-inj : (s t : RuleScope) → is_apex s ≡ is_apex t → s ≡ t
is_apex-inj apex apex h = refl
is_apex-inj exact_host exact_host h = refl
is_apex-inj apex exact_host h = cc
is_apex-inj exact_host apex h = cc

is_apex-wider : (s t : RuleScope) → is_apex (wider s t) ≡ (is_apex t || is_apex s)
is_apex-wider apex t = ground arith
is_apex-wider exact_host apex = refl
is_apex-wider exact_host exact_host = refl

any-Listed :
    {A : Type 0} (f : A → Bool) (xs : List A)
    → (any f xs ≡ true) ↔ ((x : A) × Listed x xs × (f x ≡ true))
any-Listed f [] = (λ h. cc, λ h. absurd (h.1))
any-Listed f (x ∷ xs) = elim (Bool-cases (f x)) [
  | inl e ↦ (λ h. (x, inl refl, e), λ h. ground (arith, e))
  | inr e ↦ (
    λ h. let (y, l, t) = (any-Listed f xs).0 (ground (arith, h, e)) in (y, inr l, t),
    λ h. elim h.1 [
      | inl s ↦ absurd (ground (arith, e, h.2, s))
      | inr l ↦ ground (arith, (any-Listed f xs).1 (h.0, l, h.2))
    ],
  )
]

pub any-same_items :
    {A : Type 0} (f : A → Bool) (xs ys : List A)
    → ((x : A) → Listed x xs ↔ Listed x ys)
    → any f xs ≡ any f ys
any-same_items f xs ys h =
    Bool-ext (λ t. let (x, l, e) = (any-Listed f xs).0 t in (any-Listed f ys).1 (x, (h x).0 l, e))
      (λ t. let (x, l, e) = (any-Listed f ys).0 t in (any-Listed f xs).1 (x, (h x).1 l, e))

-- How each field of the entry grows.
pub source_law :
    (s : SourceId) (k : Bytes) (scope : RuleScope) (raw : RawEntry) (o : Option MergedEntry)
    → has_source s (touched k scope raw o).sources
      ≡ (reads (λ m. has_source s m.sources) o || same_source s raw.source)
unfolding modified inserted
source_law s k scope raw none = ground arith
source_law s k scope raw (some m) =
    any-push source_rank same_source same_source_iff source_rank-inj s raw.source m.sources

pub category_law :
    (c : Category) (k : Bytes) (scope : RuleScope) (raw : RawEntry) (o : Option MergedEntry)
    → has_category c (touched k scope raw o).categories
      ≡ (reads (λ m. has_category c m.categories) o || same_category c raw.category)
unfolding modified inserted
category_law c k scope raw none = ground arith
category_law c k scope raw (some m) =
    any-push category_rank same_category same_category_iff category_rank-inj c raw.category
      m.categories

pub scope_law :
    (k : Bytes) (scope : RuleScope) (raw : RawEntry) (o : Option MergedEntry)
    → is_apex (touched k scope raw o).scope ≡ (reads (λ m. is_apex m.scope) o || is_apex scope)
unfolding modified inserted
scope_law k scope raw none = refl
scope_law k scope raw (some m) = is_apex-wider scope m.scope
