-- ===== src/DomainBlocklist/Merge/Runs.antt =====
-- Two entries for one domain, one of them a wildcard.
use holy_blocker.DomainBlocklist.Types.{steven_black, hagezi, adult, gambling, no_hint, apex_hint}
use holy_blocker.DomainBlocklist.Gates.{normalized_all}
use holy_blocker.Shared.Listed.{Listed}
use holy_blocker.DomainBlocklist.Merge.{some, [], Bool, Option, ◌∷◌, RawEntry, Bytes, merge}
use holy_blocker.DomainBlocklist.Merge.ByDomain.{value_at, Ascending}
use holy_blocker.Shared.{◌+◌, inr, inl, ◌≡◌, ◌↔◌, false, codes}
use holy_blocker.DomainBlocklist.Merge.Result.{Describes}
use holy_blocker.DomainBlocklist.Merge.Output.{
  merge-Describes, count_kept, dropped_of, merge-any_order,
}

abbrev as_is : Bytes → Option Bytes
as_is text = some text

abbrev no_ip : Bytes → Bool
no_ip text = false

abbrev wild : RawEntry
wild = record {
  domain = codes "a.org.";
  source = hagezi;
  category = gambling;
  scope_hint = apex_hint;
}

abbrev plain : RawEntry
plain = record {
  domain = codes "a.org";
  source = steven_black;
  category = adult;
  scope_hint = no_hint;
}

merge-Describes_example :
    Ascending (merge as_is as_is no_ip (wild ∷ plain ∷ []) []).entries
    × ((d : Bytes)
        → Describes as_is as_is no_ip
            (normalized_all as_is [])
            (wild ∷ plain ∷ [])
            d
            (value_at d (merge as_is as_is no_ip (wild ∷ plain ∷ []) []).entries))
    × (dropped_of (merge as_is as_is no_ip (wild ∷ plain ∷ []) []).report
          + count_kept as_is as_is no_ip (normalized_all as_is []) (wild ∷ plain ∷ [])
        ≡ 2)
merge-Describes_example = merge-Describes as_is as_is no_ip (wild ∷ plain ∷ []) []

swapped : (r : RawEntry) → Listed r (wild ∷ plain ∷ []) ↔ Listed r (plain ∷ wild ∷ plain ∷ [])
swapped r = (
  λ h. elim h [ inl e ↦ inr (inl e) | inr k ↦ inr (inr k) ],
  λ h. elim h [ inl e ↦ inr (inl e) | inr k ↦ k ],
)

merge-any_order_example :
    (merge as_is as_is no_ip (wild ∷ plain ∷ []) []).entries
    ≡ (merge as_is as_is no_ip (plain ∷ wild ∷ plain ∷ []) []).entries
merge-any_order_example =
    merge-any_order as_is as_is no_ip (wild ∷ plain ∷ []) (plain ∷ wild ∷ plain ∷ []) [] swapped
