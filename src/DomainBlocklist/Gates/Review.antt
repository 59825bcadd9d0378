-- ===== src/DomainBlocklist/Gates/Review.antt =====
-- What stands in the review queue.
use holy_blocker.Shared.Listed.{Listed}
use holy_blocker.Shared.{
  leb→gt, ◌<◌, Bool-cases, sym, ◌∙◌, ap, text_eq_iff, Option-cases, ◌↔◌, ◌≡◌, Bytes, arith, inl,
  inr, some, [], ◌∷◌,
}
use holy_blocker.DomainBlocklist.Gates.{
  length, normalized_all, text_eq, Option, false_positive_hits, review_queue, entry_for, true,
  false, member, is_corroborated, hits_for, keep_open, MergedEntry, List, FalsePositiveHit,
}

abbrev pub hit_of : Bytes → MergedEntry → FalsePositiveHit
hit_of domain e = record { domain = domain; scope = e.scope; sources = e.sources }

keep_open-Listed :
    (excluded : List Bytes) (hit : FalsePositiveHit) (hits : List FalsePositiveHit)
    → Listed hit (keep_open excluded hits)
      ↔ (Listed hit hits × (is_corroborated hit ≡ false) × (member hit.domain excluded ≡ false))
unfolding keep_open
keep_open-Listed excluded hit [] = (λ h. absurd h, λ h. absurd h.0)
keep_open-Listed excluded hit (x ∷ hits) = ground (arith, keep_open-Listed excluded hit hits)

this_hit :
    (merged : List MergedEntry) (hit : FalsePositiveHit) (d : Bytes) (x y : MergedEntry)
    → entry_for d merged ≡ some x
    → hit.domain ≡ d
    → entry_for hit.domain merged ≡ some y
    → hit ≡ hit_of hit.domain y
    → hit ≡ hit_of d x
this_hit merged hit d x y e dom f same =
    let one : y ≡ x = cc (e, dom, f) in
    same ∙ ap (λ (z : MergedEntry). hit_of hit.domain z) one ∙ ap (λ (t : Bytes). hit_of t x) dom

hits_for-Listed :
    (merged : List MergedEntry) (hit : FalsePositiveHit) (domains : List Bytes)
    → Listed hit (hits_for merged domains) ↔ (
        (member hit.domain domains ≡ true)
        × (e : MergedEntry) × (entry_for hit.domain merged ≡ some e)
        × (hit ≡ hit_of hit.domain e))
unfolding hits_for
hits_for-Listed merged hit [] = (λ h. absurd h, λ h. cc (h.0))
hits_for-Listed merged hit (d ∷ domains) = elim (Option-cases (entry_for d merged)) [
  | inl e ↦ ground (
    arith,
    e,
    hits_for-Listed merged hit domains,
    text_eq_iff hit.domain d,
    ap (λ (t : Bytes). entry_for t merged),
  )
  | inr (x, e) ↦
      rw (e, hits_for)
        (
          λ h. elim h [
            | inl same ↦
                let dom : hit.domain ≡ d = ap (λ (t : FalsePositiveHit). t.domain) same in
                (
                  ground (arith, (text_eq_iff hit.domain d).1 dom),
                  x,
                  ap (λ (t : Bytes). entry_for t merged) dom ∙ e,
                  same ∙ ap (λ (t : Bytes). hit_of t x) (sym dom),
                )
            | inr later ↦
                let ih = (hits_for-Listed merged hit domains).0 later in
                (ground (arith, ih.0), ih.1, ih.2, ih.3)
          ],
          λ h. elim (Bool-cases (text_eq hit.domain d)) [
            | inl same ↦
                inl (this_hit merged hit d x h.1 e ((text_eq_iff hit.domain d).0 same) h.2 h.3)
            | inr other ↦
                inr (
                  (hits_for-Listed merged hit domains).1
                    (ground (arith, other, h.0), h.1, h.2, h.3))
          ],
        )
]

-- The review queue holds exactly the hits whose domain is a normalized control name and has an
-- entry, with the scope and the sources of that entry, fewer than two sources, and a domain that is
-- not among the normalized exclusions.
pub review_queue-Listed :
    (to_ascii : Bytes → Option Bytes) (merged : List MergedEntry) (control exclusions : List Bytes)
    (hit : FalsePositiveHit)
    → Listed hit (review_queue to_ascii merged control exclusions) ↔ (
        ((member hit.domain (normalized_all to_ascii control) ≡ true)
          × (e : MergedEntry) × (entry_for hit.domain merged ≡ some e)
          × (hit ≡ hit_of hit.domain e))
        × (length hit.sources < 2)
        × (member hit.domain (normalized_all to_ascii exclusions) ≡ false))
unfolding review_queue false_positive_hits is_corroborated
review_queue-Listed to_ascii merged control exclusions hit =
    let queue =
      keep_open-Listed (normalized_all to_ascii exclusions) hit
        (hits_for merged (normalized_all to_ascii control)) in
    let all_hits = hits_for-Listed merged hit (normalized_all to_ascii control) in
    (
      λ h. let (l, few, out) = queue.0 h in (all_hits.0 l, leb→gt 2 (length hit.sources) few, out),
      λ h. queue.1 (all_hits.1 h.0, ground (arith, h.1), h.2),
    )
