-- ===== src/DomainBlocklist/Merge/Output.antt =====
-- The output of `merge`.
use holy_blocker.DomainBlocklist.Merge.{
  enter, no_drops, MergedEntry, count_denylisted, ◌∷◌, count_ip, RawEntry, count_failed, List, Bool,
  Option, ◌+◌, Bytes, ℕ, judge, merge, merge_loop, MergeReport, kept,
}
use holy_blocker.DomainBlocklist.Gates.{normalized_all}
use holy_blocker.DomainBlocklist.Merge.ByDomain.{Ascending-ext, Ascending, value_at}
use holy_blocker.DomainBlocklist.Merge.Loop.{
  value_at-merge_loop, merge_loop-Ascending, Judged-cases,
}
use holy_blocker.DomainBlocklist.Merge.Result.{absorb-Describes, Describes-unique, Describes}
use holy_blocker.Shared.Listed.{Listed}
use holy_blocker.Shared.{sym, inr, inl, arith, length, [], ◌≡◌, ◌↔◌}
use mathlib.Core.Path.{subst}

abbrev pub dropped_of : MergeReport → ℕ
dropped_of r =
    r.dropped_normalization_failed + (r.dropped_shared_hosting_denylisted + r.dropped_ip_literal)

module _ (to_ascii : Bytes → Option Bytes) (registrable : Bytes → Option Bytes)
    (is_ip : Bytes → Bool) where
  -- The raw entries that are kept for some domain.
  unfoldable pub count_kept : List Bytes → List RawEntry → ℕ
  count_kept denylist [] = 0
  count_kept denylist (raw ∷ raws) = elim (judge to_ascii registrable is_ip denylist raw) [
    | kept k scope ↦ 1 + count_kept denylist raws
    | _ ↦ count_kept denylist raws
  ]

  merge_loop-counts :
      (denylist : List Bytes) (raws : List RawEntry) (ms : List MergedEntry) (r : MergeReport)
      → dropped_of (merge_loop to_ascii registrable is_ip denylist raws ms r).report
          + count_kept denylist raws
        ≡ dropped_of r + length raws
  unfolding merge_loop count_kept count_failed count_ip count_denylisted
  merge_loop-counts denylist [] ms r = ground arith
  merge_loop-counts denylist (raw ∷ raws) ms r =
      elim (Judged-cases (judge to_ascii registrable is_ip denylist raw)) [
        | inl e ↦
            rw (e, merge_loop, count_kept)
              (omega (arith, merge_loop-counts denylist raws ms (count_failed r)))
        | inr (inl e) ↦
            rw (e, merge_loop, count_kept)
              (omega (arith, merge_loop-counts denylist raws ms (count_ip r)))
        | inr (inr (inl e)) ↦
            rw (e, merge_loop, count_kept)
              (omega (arith, merge_loop-counts denylist raws ms (count_denylisted r)))
        | inr (inr (inr (k, scope, e))) ↦
            rw (e, merge_loop, count_kept)
              (omega (arith, merge_loop-counts denylist raws (enter k scope raw ms) r))
      ]

  -- The entries that are returned ascend strictly by their domains, and for each domain the raw
  -- entries that are kept for it say what stands there: nothing, if there are none, and otherwise
  -- one entry with exactly their sources and categories, each once and in the order of its enum,
  -- whose scope is an apex exactly if one of them has that scope. Each raw entry is kept or counted
  -- by the report.
  pub merge-Describes :
      (raws : List RawEntry) (shared_hosting_denylist : List Bytes)
      → Ascending (merge to_ascii registrable is_ip raws shared_hosting_denylist).entries
        × ((d : Bytes)
            → Describes to_ascii registrable is_ip
                (normalized_all to_ascii shared_hosting_denylist)
                raws
                d
                (value_at d
                  (merge to_ascii registrable is_ip raws shared_hosting_denylist).entries))
        × (dropped_of (merge to_ascii registrable is_ip raws shared_hosting_denylist).report
              + count_kept (normalized_all to_ascii shared_hosting_denylist) raws
            ≡ length raws)
  unfolding merge value_at
  merge-Describes raws shared_hosting_denylist =
      let denylist = normalized_all to_ascii shared_hosting_denylist in
      (
        merge_loop-Ascending to_ascii registrable is_ip denylist raws [] no_drops tt,
        λ d.
            subst (Describes to_ascii registrable is_ip denylist raws d)
              (sym (value_at-merge_loop to_ascii registrable is_ip denylist raws [] no_drops d tt))
              (absorb-Describes to_ascii registrable is_ip denylist raws d),
        omega (arith, merge_loop-counts denylist raws [] no_drops),
      )

  -- Two lists of the same raw entries, in any order and with any repetitions, are merged into the
  -- same list of entries.
  pub merge-any_order :
      (raws raws' : List RawEntry) (shared_hosting_denylist : List Bytes)
      → ((r : RawEntry) → Listed r raws ↔ Listed r raws')
      → (merge to_ascii registrable is_ip raws shared_hosting_denylist).entries
        ≡ (merge to_ascii registrable is_ip raws' shared_hosting_denylist).entries
  merge-any_order raws raws' shared_hosting_denylist items =
      let denylist = normalized_all to_ascii shared_hosting_denylist in
      let (ascends, tells, counted) = merge-Describes raws shared_hosting_denylist in
      let (ascends', tells', counted') = merge-Describes raws' shared_hosting_denylist in
      Ascending-ext (merge to_ascii registrable is_ip raws shared_hosting_denylist).entries
        (merge to_ascii registrable is_ip raws' shared_hosting_denylist).entries ascends ascends'
        (λ d.
          Describes-unique to_ascii registrable is_ip denylist raws raws' items d
            (value_at d (merge to_ascii registrable is_ip raws shared_hosting_denylist).entries)
            (value_at d (merge to_ascii registrable is_ip raws' shared_hosting_denylist).entries)
            (tells d) (tells' d))
