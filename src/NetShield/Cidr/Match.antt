-- ===== src/NetShield/Cidr/Match.antt =====
-- Which addresses an entry covers, and which entry decides.
use holy_blocker.Shared.Bits.{all_below, below, below, bit_and-field, bit_or-shifted, bit_and-zero}
use native.Mathlib.Nat.{mod-eq_of_lt, div-lt_iff_lt-mul, one-le-pow}
use holy_blocker.NetShield.Radix.{FilterAction}
use holy_blocker.NetShield.Cidr.{
  bit_and, ◌+◌, ℕ, IpAddr, v4, v6, ip_to_u128, max_len, shift, shl_ones, mask_of, entry_of, matches,
}
use holy_blocker.Shared.{
  inr, inl, ap, Bool-cases, ==_iff, ◌≢◌, ◌⊎◌, ◌↔◌, ◌≤◌, arith, refl, true, ◌/◌, ◌==◌, ==→eq, ◌<◌,
  ◌*◌, ◌-◌, ◌^◌, ◌≡◌,
}

-- The mask of a prefix that leaves `host` bits free has ones in the bits above.
shl_ones-table : all_below 129 (λ host. shl_ones host == (2 ^ (128 - host) - 1) * 2 ^ host) ≡ true
unfolding shl_ones all_below
shl_ones-table = refl

shl_ones-field : (host : ℕ) → host < 129 → shl_ones host ≡ (2 ^ (128 - host) - 1) * 2 ^ host
shl_ones-field host h = ==→eq _ _ (below 129 _ shl_ones-table host h)

split_128-table : all_below 129 (λ host. 2 ^ (128 - host) * 2 ^ host == 2 ^ 128) ≡ true
unfolding all_below
split_128-table = refl

-- The bits above the host bits fit the rest of a 128-bit number.
net_bits-lt : (bits host : ℕ) → host < 129 → bits < 2 ^ 128 → bits / 2 ^ host < 2 ^ (128 - host)
net_bits-lt bits host h fits =
    let whole = ==→eq _ _ (below 129 _ split_128-table host h) in
    (div-lt_iff_lt-mul (one-le-pow host 2 (omega arith))).1 (rw whole fits)

masked :
    (bits host : ℕ)
    → host < 129
    → bits < 2 ^ 128
    → bit_and bits (shl_ones host) ≡ bits / 2 ^ host * 2 ^ host
masked bits host h fits = rw (
  shl_ones-field host h,
  bit_and-field (128 - host) host bits,
  mod-eq_of_lt (net_bits-lt bits host h fits),
)

-- The low `host` bits of an address of at most `max_len` bits are free.
same_product : (q r n : ℕ) → 0 < n → q * n ≡ r * n → q ≡ r
same_product q r n h e = grind arith

-- The number of an address fits its 128 bits.
unfoldable pub IsAddr : IpAddr → Type 0
IsAddr (v4 v) = v < 2 ^ 32
IsAddr (v6 v) = v < 2 ^ 128

ip_to_u128-v4 : (v : ℕ) → v < 2 ^ 32 → ip_to_u128 (v4 v) ≡ 0xffff_0000_0000 + v
unfolding ip_to_u128
ip_to_u128-v4 v h = bit_or-shifted 32 0xffff v h

ip_to_u128_bound : (addr : IpAddr) → IsAddr addr → ip_to_u128 addr < 2 ^ 128
unfolding IsAddr
ip_to_u128_bound (v4 v) h = rw (ip_to_u128-v4 v h) (omega arith)
ip_to_u128_bound (v6 v) h = unfold ip_to_u128 in h

free_bits :
    (addr : IpAddr) (prefix_len : ℕ)
    → prefix_len ≤ max_len addr
    → 128 - (prefix_len + shift addr) ≡ max_len addr - prefix_len
free_bits (v4 v) prefix_len h = omega arith
free_bits (v6 v) prefix_len h = omega arith

max_len-bound : (addr : IpAddr) → max_len addr ≤ 128
max_len-bound (v4 v) = omega arith
max_len-bound (v6 v) = omega arith

mask_of-pos :
    (addr : IpAddr) (prefix_len : ℕ)
    → prefix_len ≤ max_len addr
    → prefix_len ≢ 0
    → mask_of addr prefix_len ≡ shl_ones (max_len addr - prefix_len)
unfolding mask_of
mask_of-pos addr prefix_len h p = ground (arith, free_bits addr prefix_len h)

mask_of-zero : (addr : IpAddr) → mask_of addr 0 ≡ 0
unfolding mask_of
mask_of-zero addr = refl

==-mul : (q r n : ℕ) → 0 < n → ((q * n == r * n) ≡ true) ↔ (q ≡ r)
==-mul q r n h = (λ e. same_product q r n h (==→eq _ _ e), λ e. (==_iff _ _).1 (ap (λ t. t * n) e))

-- An entry with a length above zero covers exactly the addresses that agree with its own in the bits
-- above the host bits, in the 128-bit representation. An entry of length zero covers every address.
pub matches-entry_of :
    (addr other : IpAddr) (prefix_len : ℕ) (action : FilterAction)
    → IsAddr addr
    → IsAddr other
    → prefix_len ≤ max_len addr
    → (matches (ip_to_u128 other) (entry_of addr prefix_len action) ≡ true) ↔ (
        (prefix_len ≡ 0)
        ⊎ (ip_to_u128 other / 2 ^ (max_len addr - prefix_len)
            ≡ ip_to_u128 addr / 2 ^ (max_len addr - prefix_len)))
unfolding entry_of
matches-entry_of addr other prefix_len action ha ho fits = elim (Bool-cases (prefix_len == 0)) [
  | inl e ↦
      let zeroed = ==→eq prefix_len 0 e in
      (
        λ _. inl zeroed,
        λ _.
            rw
              (
                zeroed,
                mask_of-zero addr,
                bit_and-zero (ip_to_u128 other),
                bit_and-zero (ip_to_u128 addr),
              )
              refl,
      )
  | inr e ↦
      let host = max_len addr - prefix_len in
      let small : host < 129 = omega (arith, max_len-bound addr) in
      let some_bits : prefix_len ≢ 0 = ground arith in
      let cut =
        ==-mul (ip_to_u128 other / 2 ^ host) (ip_to_u128 addr / 2 ^ host) (2 ^ host)
          (one-le-pow host 2 (omega arith)) in
      rw
        (
          mask_of-pos addr prefix_len fits some_bits,
          masked (ip_to_u128 other) host small (ip_to_u128_bound other ho),
          masked (ip_to_u128 addr) host small (ip_to_u128_bound addr ha),
        )
        (λ h. inr (cut.0 h), λ h. elim h [ inl z ↦ absurd (some_bits z) | inr same ↦ cut.1 same ])
]
