-- ===== src/DomainBlocklist/Merge.antt =====
-- packages/domain-blocklist/src/merge.rs: the entries of every source, normalized, scoped and united
-- by domain. The BTreeMap is the list of its values in the order of their domains, which are the keys.
use holy_blocker.DomainBlocklist.Types.{
  SourceId, Category, MergedEntry, RawEntry, ScopeHint, no_hint, apex_hint, same_category,
  steven_black, hagezi, ut1, adult, gambling, dating,
}
pub mod TextOrder
pub mod Ranked
pub mod ByDomain
pub mod Loop
pub mod Enums
pub mod Fields
pub mod Result
pub mod Output
mod Runs
use holy_blocker.DomainBlocklist.Gates.{has_source, normalized_all}
use holy_blocker.DomainNormalize.{
  RuleScope, apex, exact_host, normalize, key, failed, classify_scope,
}
use holy_blocker.Shared.{
  some, ltb, none, [], ◌++◌, any, leb, if◌then◌else◌, Option, Bool, ◌∷◌, ◌+◌, List, ℕ, Bytes,
}

-- `str::cmp`, byte by byte.
pub data Order : Type 0 where
  before same after : Order

pub text_order : Bytes → Bytes → Order
text_order [] [] = same
text_order [] (b ∷ y) = before
text_order (a ∷ x) [] = after
text_order (a ∷ x) (b ∷ y) =
    let rest = text_order x y in if ltb a b then before else if ltb b a then after else rest

-- The derived order of the two enums.
abbrev pub source_rank : SourceId → ℕ
source_rank steven_black = 0
source_rank hagezi = 1
source_rank ut1 = 2

abbrev pub category_rank : Category → ℕ
category_rank adult = 0
category_rank gambling = 1
category_rank dating = 2

-- `sort`, stable.
pub insert_ranked : {A : Type 0} → (A → ℕ) → A → List A → List A
insert_ranked rank x [] = x ∷ []
insert_ranked rank x (y ∷ ys) =
    let rest = insert_ranked rank x ys in if leb (rank x) (rank y) then x ∷ y ∷ ys else y ∷ rest

pub sort_ranked : {A : Type 0} → (A → ℕ) → List A → List A
sort_ranked rank [] = []
sort_ranked rank (x ∷ xs) = insert_ranked rank x (sort_ranked rank xs)

abbrev pub has_category : Category → List Category → Bool
has_category c = any (same_category c)

pub resolve_scope : (Bytes → Option Bytes) → Bytes → ScopeHint → List Bytes → Option RuleScope
resolve_scope registrable normalized scope_hint denylist =
    elim (classify_scope registrable normalized denylist) [
      | none ↦ none
      | some exact_host ↦ some exact_host
      | some apex ↦ elim scope_hint [ apex_hint ↦ some apex | no_hint ↦ some exact_host ]
    ]

pub record MergeReport : Type 0 where
  pub dropped_normalization_failed : ℕ
  pub dropped_shared_hosting_denylisted : ℕ
  pub dropped_ip_literal : ℕ

pub record MergeOutput : Type 0 where
  pub entries : List MergedEntry
  pub report : MergeReport

-- What the guards of the loop make of an entry.
pub data Judged : Type 0 where
  normalization_failed ip_literal shared_hosting_denylisted : Judged
  kept : Bytes → RuleScope → Judged

abbrev pub push_source : SourceId → List SourceId → List SourceId
push_source s sources = if has_source s sources then sources else sources ++ (s ∷ [])

abbrev pub push_category : Category → List Category → List Category
push_category c categories =
    if has_category c categories then categories else categories ++ (c ∷ [])

abbrev pub wider : RuleScope → RuleScope → RuleScope
wider apex scope = apex
wider exact_host scope = scope

-- `or_insert_with`
pub inserted : Bytes → RuleScope → RawEntry → MergedEntry
inserted domain scope raw = record {
  domain = domain;
  scope = scope;
  sources = raw.source ∷ [];
  categories = raw.category ∷ [];
}

-- `and_modify`
pub modified : RuleScope → RawEntry → MergedEntry → MergedEntry
modified scope raw merged = record {
  domain = merged.domain;
  scope = wider scope merged.scope;
  sources = push_source raw.source merged.sources;
  categories = push_category raw.category merged.categories;
}

pub enter : Bytes → RuleScope → RawEntry → List MergedEntry → List MergedEntry
enter domain scope raw [] = inserted domain scope raw ∷ []
enter domain scope raw (m ∷ by_domain) =
    let rest = enter domain scope raw by_domain in
    elim (text_order domain m.domain) [
      | before ↦ inserted domain scope raw ∷ m ∷ by_domain
      | same ↦ modified scope raw m ∷ by_domain
      | after ↦ m ∷ rest
    ]

-- The last loop.
pub tidy : List MergedEntry → List MergedEntry
tidy [] = []
tidy (m ∷ by_domain) =
    record {
      domain = m.domain;
      scope = m.scope;
      sources = sort_ranked source_rank m.sources;
      categories = sort_ranked category_rank m.categories;
    }
    ∷ tidy by_domain

count_failed : MergeReport → MergeReport
count_failed r = record {
  dropped_normalization_failed = r.dropped_normalization_failed + 1;
  dropped_shared_hosting_denylisted = r.dropped_shared_hosting_denylisted;
  dropped_ip_literal = r.dropped_ip_literal;
}

count_ip : MergeReport → MergeReport
count_ip r = record {
  dropped_normalization_failed = r.dropped_normalization_failed;
  dropped_shared_hosting_denylisted = r.dropped_shared_hosting_denylisted;
  dropped_ip_literal = r.dropped_ip_literal + 1;
}

count_denylisted : MergeReport → MergeReport
count_denylisted r = record {
  dropped_normalization_failed = r.dropped_normalization_failed;
  dropped_shared_hosting_denylisted = r.dropped_shared_hosting_denylisted + 1;
  dropped_ip_literal = r.dropped_ip_literal;
}

abbrev pub no_drops : MergeReport
no_drops = record {
  dropped_normalization_failed = 0;
  dropped_shared_hosting_denylisted = 0;
  dropped_ip_literal = 0;
}

-- The UTS #46 pass, the public suffix list, and the parser of IP addresses.
module _ (to_ascii : Bytes → Option Bytes) (registrable : Bytes → Option Bytes)
    (is_ip : Bytes → Bool) where
  pub judge : List Bytes → RawEntry → Judged
  judge denylist raw = elim (normalize to_ascii raw.domain) [
    | failed e ↦ normalization_failed
    | key k ↦
        if is_ip k then ip_literal else elim (resolve_scope registrable k raw.scope_hint denylist) [
          | none ↦ shared_hosting_denylisted
          | some scope ↦ kept k scope
        ]
  ]

  pub merge_loop : List Bytes → List RawEntry → List MergedEntry → MergeReport → MergeOutput
  merge_loop denylist [] by_domain report = record { entries = tidy by_domain; report = report }
  merge_loop denylist (raw ∷ raws) by_domain report = elim (judge denylist raw) [
    | normalization_failed ↦ merge_loop denylist raws by_domain (count_failed report)
    | ip_literal ↦ merge_loop denylist raws by_domain (count_ip report)
    | shared_hosting_denylisted ↦ merge_loop denylist raws by_domain (count_denylisted report)
    | kept domain scope ↦ merge_loop denylist raws (enter domain scope raw by_domain) report
  ]

  pub merge : List RawEntry → List Bytes → MergeOutput
  merge raws shared_hosting_denylist =
      merge_loop (normalized_all to_ascii shared_hosting_denylist) raws [] no_drops

pub filter_by_category : List MergedEntry → List Category → List MergedEntry
filter_by_category [] allowed = []
filter_by_category (e ∷ entries) allowed =
    let rest = filter_by_category entries allowed in
    if any (λ c. has_category c allowed) e.categories then e ∷ rest else rest
