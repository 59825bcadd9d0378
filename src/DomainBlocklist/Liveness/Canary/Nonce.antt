-- ===== src/DomainBlocklist/Liveness/Canary/Nonce.antt =====
-- The name of a dead control that is accepted is a DNS name below its base.
use holy_blocker.Shared.Texts.{split_dots-cons, split_dots}
use holy_blocker.NetShield.Keyword.{is_ascii_alphanumeric}
use holy_blocker.Shared.{
  refl, ==→eq, Option-cases, ◌+◌, ◌≤◌, ◌++◌, All, ◌↔◌, ◌≡◌, Bytes, arith, inl, inr, [], ◌∷◌, some,
  none,
}
use holy_blocker.DomainBlocklist.Liveness.Canary.{
  base_domain_not_ldh, false, octets_of, length, nonce_ok, true, List, sized_name, all_bytes,
  is_ldh_byte, base_error, is_ldh_label, nonce_dead_control,
}

-- A label of 1 to 63 letters, digits and hyphens.
abbrev pub IsLdhLabel : Bytes → Type 0
IsLdhLabel label = (is_ldh_label label ≡ true) × (length label ≤ 63)

base_error-none : (labels : List Bytes) → (base_error labels ≡ none) ↔ All IsLdhLabel labels
unfolding base_error
base_error-none [] = ground arith
base_error-none (label ∷ labels) = ground (arith, base_error-none labels)

empty_base :
    (base : Bytes) → length base ≡ 0 → base_error (split_dots base) ≡ some base_domain_not_ldh
unfolding split_dots base_error is_ldh_label
empty_base [] h = refl
empty_base (b ∷ base) h = absurd (omega arith)

dot-not-ldh : is_ldh_byte b'.' ≡ false
unfolding is_ldh_byte is_ascii_alphanumeric
dot-not-ldh = refl

split_dots-ldh :
    (nonce base : Bytes)
    → all_bytes is_ldh_byte nonce ≡ true
    → split_dots (nonce ++ (b'.' ∷ base)) ≡ nonce ∷ split_dots base
unfolding all_bytes split_dots
split_dots-ldh [] base h = refl
split_dots-ldh (b ∷ nonce) base h = ground (
  arith,
  split_dots-ldh nonce base,
  dot-not-ldh,
  ==→eq b b'.',
  split_dots-cons b (nonce ++ (b'.' ∷ base)),
)

-- A dead control is built exactly from a nonce that is one label of 1 to 63 letters, digits and
-- hyphens and a base domain of such labels, if the name takes at most 255 octets on the wire; it is
-- the nonce as one more label in front of the base.
pub nonce_dead_control-ok :
    (base nonce name : Bytes)
    → (nonce_dead_control base nonce ≡ nonce_ok name) ↔ (
        (name ≡ nonce ++ (b'.' ∷ base))
        × (split_dots name ≡ nonce ∷ split_dots base)
        × IsLdhLabel nonce
        × All IsLdhLabel (split_dots base)
        × (octets_of (nonce ∷ split_dots base) + 1 ≤ 255))
unfolding nonce_dead_control sized_name is_ldh_label
nonce_dead_control-ok base nonce name = elim (Option-cases (base_error (split_dots base))) [
  | inl e ↦
      ground
        (arith, e, base_error-none (split_dots base), empty_base base, split_dots-ldh nonce base)
  | inr (x, e) ↦ ground (arith, e, base_error-none (split_dots base))
]
