-- ===== src/DomainBlocklist/Merge/Result.antt =====
-- What `merge` returns, and that it does not depend on the order of the raw entries.
use holy_blocker.Shared.{ap, sym, ◌∙◌, Option-cases, refl}
use holy_blocker.DomainBlocklist.Types.{same_source, same_category}
use holy_blocker.DomainBlocklist.Gates.{has_source}
use holy_blocker.DomainBlocklist.Merge.{
  Category, SourceId, none, some, RawEntry, Option, same_category, any, MergedEntry, List, Bytes,
  Bool, source_rank, category_rank, has_category, inserted, modified,
}
use holy_blocker.DomainBlocklist.Merge.Loop.{
  names, absorb, tidied, reads, absorb-reads, absorb-Keeps,
}
use holy_blocker.DomainBlocklist.Merge.Ranked.{
  sort-Climbs, Climbs-ext, any-sort, Differ-push, Differ, Climbs,
}
use holy_blocker.Shared.Listed.{Listed}
use holy_blocker.Shared.{inr, inl, arith, ◌↔◌, false, ◌≡◌, true}
use holy_blocker.DomainBlocklist.Types.{same_source}
use holy_blocker.DomainBlocklist.Merge.Enums.{
  category_rank-inj, same_category_iff, source_rank-inj, same_source_iff,
}
use mathlib.Core.Path.{subst}
use holy_blocker.DomainBlocklist.Merge.Fields.{
  is_apex, is_apex-inj, any-same_items, source_law, category_law, scope_law,
}

-- An entry whose sources and categories have no repetitions.
abbrev Plain : Bytes → MergedEntry → Type 0
Plain d m =
    (m.domain ≡ d)
    × Differ source_rank same_source same_source_iff source_rank-inj m.sources
    × Differ category_rank same_category same_category_iff category_rank-inj m.categories

module _ (to_ascii : Bytes → Option Bytes) (registrable : Bytes → Option Bytes)
    (is_ip : Bytes → Bool) (denylist : List Bytes) where
  -- What stands for a domain in the end: nothing if no raw entry is kept for it, and otherwise an
  -- entry with exactly the sources and categories of those entries, each once and in the order of
  -- its enum, and the scope of an apex exactly if one of them has it.
  unfoldable pub Describes : List RawEntry → Bytes → Option MergedEntry → Type 0
  Describes raws d none =
      any (names to_ascii registrable is_ip denylist d (λ raw scope. true)) raws ≡ false
  Describes raws d (some m) =
      (any (names to_ascii registrable is_ip denylist d (λ raw scope. true)) raws ≡ true)
      × (m.domain ≡ d)
      × (is_apex m.scope
          ≡ any (names to_ascii registrable is_ip denylist d (λ raw scope. is_apex scope)) raws)
      × ((s : SourceId)
          → has_source s m.sources
            ≡ any
                (names to_ascii registrable is_ip denylist d
                  (λ raw scope. same_source s raw.source))
                raws)
      × ((c : Category)
          → has_category c m.categories
            ≡ any
                (names to_ascii registrable is_ip denylist d
                  (λ raw scope. same_category c raw.category))
                raws)
      × Climbs source_rank same_source same_source_iff source_rank-inj m.sources
      × Climbs category_rank same_category same_category_iff category_rank-inj m.categories

  absorb-Plain :
      (d : Bytes) (raws : List RawEntry) (m : MergedEntry)
      → absorb to_ascii registrable is_ip denylist d raws none ≡ some m
      → Plain d m
  unfolding modified inserted
  absorb-Plain d raws =
      absorb-Keeps to_ascii registrable is_ip denylist (Plain d) d
        (λ scope raw m p. (
          p.0,
          Differ-push source_rank same_source same_source_iff source_rank-inj raw.source m.sources
              p.1,
          Differ-push category_rank same_category same_category_iff category_rank-inj raw.category
              m.categories p.2,
        ))
        (λ scope raw. (refl, (refl, tt), (refl, tt))) raws none (λ m e. cc)

  pub absorb-Describes :
      (raws : List RawEntry) (d : Bytes)
      → Describes raws d (tidied (absorb to_ascii registrable is_ip denylist d raws none))
  unfolding Describes
  absorb-Describes raws d =
      let o = absorb to_ascii registrable is_ip denylist d raws none in
      let there =
        absorb-reads to_ascii registrable is_ip denylist (λ m. true) (λ raw scope. true)
          (λ k scope raw o. ground arith) d raws none in
      elim (Option-cases o) [
        | inl e ↦ subst (λ t. Describes raws d (tidied t)) (sym e) (ground (arith, e, there))
        | inr (m, e) ↦
            let (named, distinct, distinct') = absorb-Plain d raws m e in
            let scopes =
              absorb-reads to_ascii registrable is_ip denylist (λ m. is_apex m.scope)
                (λ raw scope. is_apex scope) scope_law d raws none in
            subst (λ t. Describes raws d (tidied t)) (sym e)
              (
                ground (arith, e, there),
                named,
                ground (arith, e, scopes),
                λ s.
                    any-sort source_rank same_source same_source_iff source_rank-inj s m.sources
                    ∙ sym (ap (reads (λ n. has_source s n.sources)) e)
                    ∙ absorb-reads to_ascii registrable is_ip denylist (λ n. has_source s n.sources)
                        (λ raw scope. same_source s raw.source) (source_law s) d raws none,
                λ c.
                    any-sort category_rank same_category same_category_iff category_rank-inj c
                      m.categories
                    ∙ sym (ap (reads (λ n. has_category c n.categories)) e)
                    ∙ absorb-reads to_ascii registrable is_ip denylist
                        (λ n. has_category c n.categories)
                        (λ raw scope. same_category c raw.category) (category_law c) d raws none,
                sort-Climbs source_rank same_source same_source_iff source_rank-inj m.sources
                    distinct,
                sort-Climbs category_rank same_category same_category_iff category_rank-inj
                    m.categories distinct',
              )
      ]

  pub Describes-unique :
      (raws raws' : List RawEntry)
      → ((r : RawEntry) → Listed r raws ↔ Listed r raws')
      → (d : Bytes) (o o' : Option MergedEntry) → Describes raws d o
      → Describes raws' d o'
      → o ≡ o'
  unfolding Describes
  Describes-unique raws raws' items d none none h k = refl
  Describes-unique raws raws' items d none (some m) h k = ground (
    arith,
    h,
    k.0,
    any-same_items (names to_ascii registrable is_ip denylist d (λ raw scope. true)) raws raws'
        items,
  )
  Describes-unique raws raws' items d (some m) none h k = ground (
    arith,
    h.0,
    k,
    any-same_items (names to_ascii registrable is_ip denylist d (λ raw scope. true)) raws raws'
        items,
  )
  Describes-unique raws raws' items d (some m) (some n) h k =
      let (there, named, scoped, sourced, sorted, climbs, climbs') = h in
      let (there', named', scoped', sourced', sorted', climbs₂, climbs₂') = k in
      let scopes : m.scope ≡ n.scope =
        is_apex-inj m.scope n.scope (scoped ∙ (any-same_items _ raws raws' items ∙ sym scoped')) in
      let sources : m.sources ≡ n.sources =
        Climbs-ext source_rank same_source same_source_iff source_rank-inj m.sources n.sources
          climbs climbs₂
          (λ s. sourced s ∙ (any-same_items _ raws raws' items ∙ sym (sourced' s))) in
      let categories : m.categories ≡ n.categories =
        Climbs-ext category_rank same_category same_category_iff category_rank-inj m.categories
          n.categories climbs' climbs₂'
          (λ s. sorted s ∙ (any-same_items _ raws raws' items ∙ sym (sorted' s))) in
      cc (scopes, sources, categories, named, named')
