-- ===== src/DomainBlocklist/Merge/ByDomain.antt =====
-- The map from domains to entries: entering a raw entry changes what stands for its domain and
-- keeps the order, and the order makes the list of values a function of the map.
use holy_blocker.DomainBlocklist.Merge.{
  some, RawEntry, none, RuleScope, ◌∷◌, Option, MergedEntry, List, Bytes, before, text_order, enter,
  inserted, modified,
}
use holy_blocker.DomainBlocklist.Merge.TextOrder.{
  text_order_self, text_order_same, text_order_flip, text_order-before, text_order_trans,
  text_order_cases,
}
use holy_blocker.Shared.{
  ◌∙◌, refl, text_eq_iff, sym, text_eq_self, inr, text_eq, inl, arith, if◌then◌else◌, [],
  Bool-cases, ◌≡◌,
}
use mathlib.Core.Path.{subst}

unfoldable pub value_at : Bytes → List MergedEntry → Option MergedEntry
value_at d [] = none
value_at d (m ∷ ms) = if text_eq d m.domain then some m else value_at d ms

abbrev pub Precedes : Bytes → List MergedEntry → Type 0
Precedes d [] = Unit
Precedes d (m ∷ ms) = (text_order d m.domain ≡ before) × Precedes d ms

abbrev pub Ascending : List MergedEntry → Type 0
Ascending [] = Unit
Ascending (m ∷ ms) = Precedes m.domain ms × Ascending ms

abbrev pub touched : Bytes → RuleScope → RawEntry → Option MergedEntry → MergedEntry
touched d scope raw none = inserted d scope raw
touched d scope raw (some m) = modified scope raw m

pub Precedes-trans :
    (d e : Bytes) (ms : List MergedEntry) → text_order d e ≡ before → Precedes e ms → Precedes d ms
Precedes-trans d e [] h k = tt
Precedes-trans d e (m ∷ ms) h k = (text_order_trans d e m.domain h k.0, Precedes-trans d e ms h k.1)

-- A domain before all others of the map is not in it.
pub Precedes-none : (d : Bytes) (ms : List MergedEntry) → Precedes d ms → value_at d ms ≡ none
unfolding value_at
Precedes-none d [] h = refl
Precedes-none d (m ∷ ms) h =
    ground (arith, text_order-before d m.domain h.0, Precedes-none d ms h.1)

Precedes-enter :
    (d : Bytes) (scope : RuleScope) (raw : RawEntry) (e : Bytes) (ms : List MergedEntry)
    → text_order e d ≡ before
    → Precedes e ms
    → Precedes e (enter d scope raw ms)
unfolding enter inserted modified
Precedes-enter d scope raw e [] h k = (h, tt)
Precedes-enter d scope raw e (m ∷ ms) h k = elim (text_order_cases d m.domain) [
  | inl o ↦ ground (arith, o, h, k)
  | inr o ↦ elim o [
    | inl o ↦ ground (arith, o, h, k)
    | inr o ↦ ground (arith, o, h, k, Precedes-enter d scope raw e ms h k.1)
  ]
]

pub enter-Ascending :
    (d : Bytes) (scope : RuleScope) (raw : RawEntry) (ms : List MergedEntry)
    → Ascending ms
    → Ascending (enter d scope raw ms)
unfolding enter inserted modified
enter-Ascending d scope raw [] h = (tt, tt)
enter-Ascending d scope raw (m ∷ ms) h = elim (text_order_cases d m.domain) [
  | inl o ↦ ground (arith, o, h, Precedes-trans d m.domain ms o h.0)
  | inr o ↦ elim o [
    | inl o ↦ ground (arith, o, h)
    | inr o ↦
        let flipped = (text_order_flip d m.domain).0 o in
        ground (
          arith,
          o,
          enter-Ascending d scope raw ms h.1,
          Precedes-enter d scope raw m.domain ms flipped h.0,
        )
  ]
]

pub value_at-enter :
    (d : Bytes) (scope : RuleScope) (raw : RawEntry) (ms : List MergedEntry) (e : Bytes)
    → Ascending ms
    → value_at e (enter d scope raw ms)
      ≡ (if text_eq e d then some (touched d scope raw (value_at d ms)) else value_at e ms)
unfolding value_at enter inserted modified
value_at-enter d scope raw [] e h = refl
value_at-enter d scope raw (m ∷ ms) e h = elim (text_order_cases d m.domain) [
  | inl o ↦ ground (
    arith,
    o,
    text_order-before d m.domain o,
    Precedes-none d ms (Precedes-trans d m.domain ms o h.0),
  )
  | inr o ↦ elim o [
    | inl o ↦ ground (arith, o, text_order_same d m.domain o, text_eq_self d)
    | inr o ↦
        let flipped = text_order-before m.domain d ((text_order_flip d m.domain).0 o) in
        ground (
          arith,
          o,
          value_at-enter d scope raw ms e h.1,
          flipped,
          text_eq_iff m.domain d,
          text_eq_iff d m.domain,
          text_eq_iff e d,
          text_eq_iff e m.domain,
        )
  ]
]

module _ (m n : MergedEntry) (ms ns : List MergedEntry) where
  value_at-behind :
      (d : Bytes)
      → Precedes m.domain ms
      → Precedes m.domain ns
      → m ≡ n
      → value_at d (m ∷ ms) ≡ value_at d (n ∷ ns)
      → value_at d ms ≡ value_at d ns
  unfolding value_at
  value_at-behind d h k heads agree = elim (Bool-cases (text_eq d m.domain)) [
    | inl e ↦
        subst (λ t. value_at t ms ≡ value_at t ns) (sym ((text_eq_iff d m.domain).0 e))
          (Precedes-none m.domain ms h ∙ sym (Precedes-none m.domain ns k))
    | inr e ↦ ground (arith, agree, e, heads)
  ]

-- A domain found behind one that precedes the map comes after it.
value_at-after :
    (d e : Bytes) (ms : List MergedEntry) (m : MergedEntry)
    → Precedes d ms
    → value_at e ms ≡ some m
    → text_order d e ≡ before
unfolding value_at
value_at-after d e [] m h seen = cc
value_at-after d e (n ∷ ms) m h seen = elim (Bool-cases (text_eq e n.domain)) [
  | inl same_domain ↦
      subst (λ t. text_order d t ≡ before) (sym ((text_eq_iff e n.domain).0 same_domain)) h.0
  | inr other ↦ value_at-after d e ms m h.1 (ground (arith, seen, other))
]

-- Two ascending lists that stand for the same map are the same list.
pub Ascending-ext :
    (ms ns : List MergedEntry)
    → Ascending ms
    → Ascending ns
    → ((d : Bytes) → value_at d ms ≡ value_at d ns)
    → ms ≡ ns
unfolding value_at
Ascending-ext [] [] h k agree = refl
Ascending-ext [] (n ∷ ns) h k agree = ground (arith, agree n.domain, text_eq_self n.domain)
Ascending-ext (m ∷ ms) [] h k agree = ground (arith, agree m.domain, text_eq_self m.domain)
Ascending-ext (m ∷ ms) (n ∷ ns) h k agree =
    let heads : m ≡ n = elim (Bool-cases (text_eq m.domain n.domain)) [
      | inl e ↦ ground (arith, agree m.domain, text_eq_self m.domain, e)
      | inr e ↦
          let first =
            value_at-after n.domain m.domain ns m k.0
              (ground (arith, agree m.domain, text_eq_self m.domain, e)) in
          let second = value_at-after m.domain n.domain ms n h.0 (
            ground (
              arith,
              agree n.domain,
              text_eq_self n.domain,
              e,
              text_eq_iff m.domain n.domain,
              text_eq_iff n.domain m.domain,
            )) in
          ground (
            arith,
            text_order_trans m.domain n.domain m.domain second first,
            text_order_self m.domain,
          )
    ] in
    let behind = subst (λ t. Precedes t.domain ns) (sym heads) k.0 in
    let rest =
      Ascending-ext ms ns h.1 k.1 (λ d. value_at-behind m n ms ns d h.0 behind heads (agree d)) in
    ground (arith, heads, rest)
