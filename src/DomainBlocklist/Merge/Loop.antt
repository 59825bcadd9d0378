-- ===== src/DomainBlocklist/Merge/Loop.antt =====
-- What the loop makes of one domain, read off the raw entries that are kept for it.
use holy_blocker.DomainBlocklist.Merge.{
  inserted, modified, enter, count_denylisted, count_ip, any, count_failed, MergeReport, RawEntry,
  ◌∷◌, sort_ranked, RuleScope, Bool, some, MergedEntry, List, Bytes, Option, Judged, kept,
  normalization_failed, ip_literal, shared_hosting_denylisted, judge, merge_loop, source_rank,
  category_rank, tidy,
}
use holy_blocker.DomainBlocklist.Merge.ByDomain.{
  value_at-enter, enter-Ascending, Ascending, Precedes, value_at, touched,
}
use holy_blocker.Shared.{
  Option-cases, Bool-cases, text_eq_iff, refl, arith, ◌&&◌, inr, [], none, ◌||◌, if◌then◌else◌,
  text_eq, inl, false, ◌⊎◌, ◌≡◌,
}
use mathlib.Core.Path.{subst}

pub Judged-cases :
    (j : Judged)
    → (j ≡ normalization_failed)
      ⊎ ((j ≡ ip_literal)
          ⊎ ((j ≡ shared_hosting_denylisted)
              ⊎ ((k : Bytes) × (scope : RuleScope) × (j ≡ kept k scope))))
Judged-cases normalization_failed = inl refl
Judged-cases ip_literal = inr (inl refl)
Judged-cases shared_hosting_denylisted = inr (inr (inl refl))
Judged-cases (kept k scope) = inr (inr (inr (k, scope, refl)))

abbrev pub tidied : Option MergedEntry → Option MergedEntry
tidied none = none
tidied (some m) = some (record {
  domain = m.domain;
  scope = m.scope;
  sources = sort_ranked source_rank m.sources;
  categories = sort_ranked category_rank m.categories;
})

value_at-tidy : (d : Bytes) (ms : List MergedEntry) → value_at d (tidy ms) ≡ tidied (value_at d ms)
unfolding value_at tidy
value_at-tidy d [] = refl
value_at-tidy d (m ∷ ms) = ground (arith, value_at-tidy d ms)

Precedes-tidy : (d : Bytes) (ms : List MergedEntry) → Precedes d ms → Precedes d (tidy ms)
unfolding tidy
Precedes-tidy d [] h = tt
Precedes-tidy d (m ∷ ms) h = (h.0, Precedes-tidy d ms h.1)

Ascending-tidy : (ms : List MergedEntry) → Ascending ms → Ascending (tidy ms)
unfolding tidy
Ascending-tidy [] h = tt
Ascending-tidy (m ∷ ms) h = (Precedes-tidy m.domain ms h.0, Ascending-tidy ms h.1)

-- Whether an entry, if there is one, has a property.
abbrev pub reads : (MergedEntry → Bool) → Option MergedEntry → Bool
reads f none = false
reads f (some m) = f m

module _ (to_ascii : Bytes → Option Bytes) (registrable : Bytes → Option Bytes)
    (is_ip : Bytes → Bool) (denylist : List Bytes) where
  -- Whether a raw entry is kept for the domain, and passes the test with its scope.
  unfoldable pub names : Bytes → (RawEntry → RuleScope → Bool) → RawEntry → Bool
  names d test raw = elim (judge to_ascii registrable is_ip denylist raw) [
    | kept k scope ↦ text_eq d k && test raw scope
    | _ ↦ false
  ]

  -- The loop as one domain sees it.
  pub absorb : Bytes → List RawEntry → Option MergedEntry → Option MergedEntry
  absorb d [] o = o
  absorb d (raw ∷ raws) o = elim (judge to_ascii registrable is_ip denylist raw) [
    | kept k scope ↦ absorb d raws (if text_eq d k then some (touched k scope raw o) else o)
    | _ ↦ absorb d raws o
  ]

  pub merge_loop-Ascending :
      (raws : List RawEntry) (ms : List MergedEntry) (r : MergeReport)
      → Ascending ms
      → Ascending (merge_loop to_ascii registrable is_ip denylist raws ms r).entries
  unfolding merge_loop
  merge_loop-Ascending [] ms r h = Ascending-tidy ms h
  merge_loop-Ascending (raw ∷ raws) ms r h =
      elim (Judged-cases (judge to_ascii registrable is_ip denylist raw)) [
        | inl e ↦ rw (e, merge_loop) (merge_loop-Ascending raws ms (count_failed r) h)
        | inr (inl e) ↦ rw (e, merge_loop) (merge_loop-Ascending raws ms (count_ip r) h)
        | inr (inr (inl e)) ↦
            rw (e, merge_loop) (merge_loop-Ascending raws ms (count_denylisted r) h)
        | inr (inr (inr (k, scope, e))) ↦
            rw (e, merge_loop)
              (merge_loop-Ascending raws (enter k scope raw ms) r
                (enter-Ascending k scope raw ms h))
      ]

  pub value_at-merge_loop :
      (raws : List RawEntry) (ms : List MergedEntry) (r : MergeReport) (d : Bytes)
      → Ascending ms
      → value_at d (merge_loop to_ascii registrable is_ip denylist raws ms r).entries
        ≡ tidied (absorb d raws (value_at d ms))
  unfolding merge_loop absorb
  value_at-merge_loop [] ms r d h = value_at-tidy d ms
  value_at-merge_loop (raw ∷ raws) ms r d h =
      elim (Judged-cases (judge to_ascii registrable is_ip denylist raw)) [
        | inl e ↦ rw (e, merge_loop, absorb) (value_at-merge_loop raws ms (count_failed r) d h)
        | inr (inl e) ↦ rw (e, merge_loop, absorb) (value_at-merge_loop raws ms (count_ip r) d h)
        | inr (inr (inl e)) ↦
            rw (e, merge_loop, absorb) (value_at-merge_loop raws ms (count_denylisted r) d h)
        | inr (inr (inr (k, scope, e))) ↦
            let later =
              value_at-merge_loop raws (enter k scope raw ms) r d
                (enter-Ascending k scope raw ms h) in
            let entered = value_at-enter k scope raw ms d h in
            ground (arith, e, later, entered, text_eq_iff d k)
      ]

  -- A property that grows with each raw entry by a test, read at the end.
  pub absorb-reads :
      (f : MergedEntry → Bool) (test : RawEntry → RuleScope → Bool)
      → ((k : Bytes) (scope : RuleScope) (raw : RawEntry) (o : Option MergedEntry)
          → f (touched k scope raw o) ≡ (reads f o || test raw scope))
      → (d : Bytes) (raws : List RawEntry) (o : Option MergedEntry)
      → reads f (absorb d raws o) ≡ (reads f o || any (names d test) raws)
  unfolding absorb names
  absorb-reads f test law d [] o = ground arith
  absorb-reads f test law d (raw ∷ raws) o =
      elim (Judged-cases (judge to_ascii registrable is_ip denylist raw)) [
        | inl e ↦ ground (arith, e, absorb-reads f test law d raws o)
        | inr (inl e) ↦ ground (arith, e, absorb-reads f test law d raws o)
        | inr (inr (inl e)) ↦ ground (arith, e, absorb-reads f test law d raws o)
        | inr (inr (inr (k, scope, e))) ↦
            let there = absorb-reads f test law d raws (some (touched k scope raw o)) in
            let away = absorb-reads f test law d raws o in
            ground (arith, e, there, away, law k scope raw o)
      ]

  -- A predicate that holds of a new entry and of one that is touched holds at the end.
  pub absorb-Keeps :
      (P : MergedEntry → Type 0) (d : Bytes)
      → ((scope : RuleScope) (raw : RawEntry) (m : MergedEntry) → P m → P (modified scope raw m))
      → ((scope : RuleScope) (raw : RawEntry) → P (inserted d scope raw))
      → (raws : List RawEntry) (o : Option MergedEntry) → ((m : MergedEntry) → o ≡ some m → P m)
      → (m : MergedEntry) → absorb d raws o ≡ some m
      → P m
  unfolding absorb
  absorb-Keeps P d step new [] o h m e = h m e
  absorb-Keeps P d step new (raw ∷ raws) o h m end =
      elim (Judged-cases (judge to_ascii registrable is_ip denylist raw)) [
        | inl e ↦ absorb-Keeps P d step new raws o h m (rw (e, absorb) at end)
        | inr (inl e) ↦ absorb-Keeps P d step new raws o h m (rw (e, absorb) at end)
        | inr (inr (inl e)) ↦ absorb-Keeps P d step new raws o h m (rw (e, absorb) at end)
        | inr (inr (inr (k, scope, e))) ↦ elim (Bool-cases (text_eq d k)) [
          | inr other ↦ absorb-Keeps P d step new raws o h m (rw (e, absorb, other) at end)
          | inl here ↦
              let same_domain : d ≡ k = (text_eq_iff d k).0 here in
              let moved : (n : MergedEntry) → some (touched k scope raw o) ≡ some n → P n =
                λ n entered. elim (Option-cases o) [
                  | inl none_yet ↦
                      subst P (ground (arith, entered, none_yet, same_domain)) (new scope raw)
                  | inr (x, seen) ↦
                      subst P (ground (arith, entered, seen)) (step scope raw x (h x seen))
                ] in
              absorb-Keeps P d step new raws (some (touched k scope raw o)) moved m
                (rw (e, absorb, here) at end)
        ]
      ]
