-- ===== src/NetShield/Udp/Checksum.antt =====
-- The Internet checksum of RFC 1071: what `ones_complement_checksum` computes, and the words that a
-- receiver adds up.
use holy_blocker.Shared.Bits.{bit_and-low}
use holy_blocker.Shared.Buffer.{u16_at-u16_bytes, IsByte, IsU16, be16}
use holy_blocker.NetShield.Udp.{
  u16_at, u16_bytes, found, build_ipv4_udp, udp_checksum, pseudo_header, sum_runs,
  ones_complement_checksum, octets, Ipv4Addr, bit_and, length, suc, ◌+◌, ◌∷◌, ℕ, Bytes, add32,
  sum_words, fold_carries,
}
use holy_blocker.Shared.{
  ap, inr, ==→eq, inl, Bool-cases, drop, take, ◌==◌, ◌-◌, if◌then◌else◌, refl, zero, ◌/◌, arith, [],
  ◌%◌, ◌≡◌, ◌≤◌, ◌^◌, ◌*◌, ◌<◌, All,
}
use holy_blocker.NetShield.Udp.Layout.{
  build_ipv4_udp_lem, packet_bytes, udp_sum, header_sum, udp_bytes, header_bytes,
}

-- The sum of the sixteen-bit words of a run, with no bound.
abbrev pub words : Bytes → ℕ
words [] = 0
words (b ∷ []) = b * 256
words (hi ∷ lo ∷ run) = hi * 256 + lo + words run

-- The pseudo-header of RFC 768, for a datagram of `len` bytes.
abbrev pub udp_pseudo : Ipv4Addr → Ipv4Addr → ℕ → Bytes
udp_pseudo src dst len =
    src.a ∷ src.b ∷ src.c ∷ src.d ∷ dst.a ∷ dst.b ∷ dst.c ∷ dst.d ∷ 0 ∷ 17 ∷ u16_bytes len

-- A sum of words that is all ones when its carries are added back to it.
abbrev pub IsAllOnes : ℕ → Type 0
IsAllOnes total = (0 < total) × (total % 65535 ≡ 0)

words-bound : (run : Bytes) → All IsByte run → 2 * words run ≤ 65535 * (length run + 1)
words-bound [] h = omega arith
words-bound (b ∷ []) h = omega arith
words-bound (hi ∷ lo ∷ run) h = omega (arith, words-bound run h.1.1)

-- Below 2 ^ 32 the additions do not wrap.
sum_words-words :
    (sum : ℕ) (run : Bytes) → sum + words run < 2 ^ 32 → sum_words sum run ≡ sum + words run
unfolding sum_words
sum_words-words sum [] h = omega arith
sum_words-words sum (b ∷ []) h = omega arith
sum_words-words sum (hi ∷ lo ∷ run) h =
    let here : add32 sum (be16 hi lo) ≡ sum + be16 hi lo = omega arith in
    rw here (omega (arith, sum_words-words (sum + be16 hi lo) run (omega arith)))

-- One round of folding adds the two halves, and does not wrap.
folded : ℕ → ℕ
folded sum = add32 (bit_and sum 0xffff) (sum / 2 ^ 16)

folded_lem : (sum : ℕ) → sum < 2 ^ 32 → folded sum ≡ sum % 65536 + sum / 65536
unfolding folded
folded_lem sum h = omega (arith, bit_and-low 16 sum)

fold_carries-folded :
    (rounds sum : ℕ)
    → fold_carries (suc rounds) sum
      ≡ (if sum / 2 ^ 16 == 0 then sum else fold_carries rounds (folded sum))
unfolding fold_carries folded
fold_carries-folded rounds sum = ground arith

-- Folding the carries keeps the value modulo 65535 and whether it is zero.
fold_carries-mod : (rounds sum : ℕ) → sum < 2 ^ 32 → fold_carries rounds sum % 65535 ≡ sum % 65535
fold_carries-mod zero sum h = unfold fold_carries in refl
fold_carries-mod (suc rounds) sum h =
    ground (
      arith,
      fold_carries-folded rounds sum,
      folded_lem sum h,
      fold_carries-mod rounds (folded sum),
    )

fold_carries-pos : (rounds sum : ℕ) → 0 < sum → sum < 2 ^ 32 → 0 < fold_carries rounds sum
fold_carries-pos zero sum p h = unfold fold_carries in p
fold_carries-pos (suc rounds) sum p h =
    ground (
      arith,
      fold_carries-folded rounds sum,
      folded_lem sum h,
      fold_carries-pos rounds (folded sum),
    )

fold_carries-zero : (rounds : ℕ) → fold_carries rounds 0 ≡ 0
unfolding fold_carries
fold_carries-zero zero = refl
fold_carries-zero (suc rounds) = refl

-- Three rounds leave a sixteen-bit number.
fold_carries-IsU16 : (sum : ℕ) → sum < 2 ^ 32 → IsU16 (fold_carries 3 sum)
fold_carries-IsU16 sum h =
    let once = folded sum in
    let twice = folded once in
    let e1 = folded_lem sum h in
    let e2 = folded_lem once (omega (arith, e1)) in
    let e3 = folded_lem twice (omega (arith, e1, e2)) in
    let stop : fold_carries 0 (folded twice) ≡ folded twice = unfold fold_carries in refl in
    ground (
      arith,
      fold_carries-folded 2 sum,
      fold_carries-folded 1 once,
      fold_carries-folded 0 twice,
      stop,
      e1,
      e2,
      e3,
    )

-- What a run adds to the running sum.
record IsFolded (total r : ℕ) : Type 0 where
  small : IsU16 r
  same : r % 65535 ≡ total % 65535
  positive : 0 < total → 0 < r
  zeroed : total ≡ 0 → r ≡ 0

fold_run :
    (sum : ℕ) (run : Bytes)
    → sum + words run < 2 ^ 32
    → IsFolded (sum + words run) (fold_carries 3 (sum_words sum run))
fold_run sum run h = rw (sum_words-words sum run h) (record {
  small = fold_carries-IsU16 (sum + words run) h;
  same = fold_carries-mod 3 (sum + words run) h;
  positive = λ p. fold_carries-pos 3 (sum + words run) p h;
  zeroed = λ e. rw e (fold_carries-zero 3);
})

-- Adding the complement of what was folded gives all ones.
complement_accepted :
    (total r : ℕ)
    → IsFolded total r
    → ((total + (65535 - r % 65536)) % 65535 ≡ 0) × (0 < total + (65535 - r % 65536))
complement_accepted total r f = elim (Bool-cases (total == 0)) [
  | inl e ↦ omega (arith, f.small, f.same, f.zeroed (==→eq total 0 e), ==→eq total 0 e)
  | inr e ↦ let p : 0 < total = ground arith in omega (arith, f.small, f.same, f.positive p)
]

-- So does the complement with zero sent as all ones.
nonzero_accepted :
    (total r : ℕ)
    → IsFolded total r
    → let c : ℕ = 65535 - r % 65536 in
      let sent : ℕ = if c == 0 then 0xffff else c in
      ((total + sent) % 65535 ≡ 0) × (0 < total + sent) × IsU16 sent × (0 < sent)
nonzero_accepted total r f = ground (arith, complement_accepted total r f)

abbrev pub HasOctets : Ipv4Addr → Type 0
HasOctets ip = All IsByte (octets ip)

module _ (src dst : Ipv4Addr) (src_bytes : HasOctets src) (dst_bytes : HasOctets dst) where
  words-header :
      (t c : ℕ)
      → IsU16 c
      → words (header_bytes src dst t c []) ≡ words (header_bytes src dst t 0 []) + c
  words-header t c h = omega arith

  words-header_bound : (t : ℕ) → words (header_bytes src dst t 0 []) < 2 ^ 21
  words-header_bound t = omega arith

  header_accepted :
      (len : ℕ) → IsAllOnes (words (header_bytes src dst (28 + len) (header_sum src dst len) []))
  unfolding ones_complement_checksum sum_runs
  header_accepted len =
      let blank = header_bytes src dst (28 + len) 0 [] in
      let c = header_sum src dst len in
      let filled = header_bytes src dst (28 + len) c [] in
      let bound = words-header_bound (28 + len) in
      let sent = fold_run 0 blank (omega (arith, bound)) in
      let sum : words filled ≡ words blank + c = words-header (28 + len) c (omega arith) in
      let (ones, some) = complement_accepted (0 + words blank) _ sent in
      (omega (arith, sum, some), omega (arith, sum, ones))

  words-udp :
      (src_port dst_port len c : ℕ) (payload : Bytes)
      → IsU16 c
      → words (udp_bytes src_port dst_port len c payload)
        ≡ words (udp_bytes src_port dst_port len 0 payload) + c
  words-udp src_port dst_port len c payload h = omega arith

  words-udp_bound :
      (src_port dst_port len : ℕ) (payload : Bytes)
      → All IsByte payload
      → length payload ≤ 65507
      → words (udp_bytes src_port dst_port len 0 payload) < 2 ^ 32 - 2 ^ 20
  words-udp_bound src_port dst_port len payload bytes small =
      omega (arith, words-bound payload bytes)

  words-pseudo_bound : (len : ℕ) → words (udp_pseudo src dst len) < 2 ^ 21
  words-pseudo_bound len = omega arith

  -- The checksum of a datagram with the field zeroed, whose length is `len`.
  udp_checksum-fold :
      (udp : Bytes) (len : ℕ)
      → length udp ≡ len
      → udp_checksum src dst udp ≡ (
          let p = fold_carries 3 (sum_words 0 (pseudo_header src dst len)) in
          let c : ℕ = 65535 - fold_carries 3 (sum_words p udp) % 65536 in
          if c == 0 then 0xffff else c)
  unfolding ones_complement_checksum sum_runs udp_checksum
  udp_checksum-fold udp len e = rw e

  pseudo_header-udp_pseudo :
      (len : ℕ) → len < 65536 → pseudo_header src dst len ≡ udp_pseudo src dst len
  pseudo_header-udp_pseudo len h = let fits : len % 65536 ≡ len = omega arith in rw fits refl

  udp_accepted :
      (src_port dst_port : ℕ) (payload : Bytes)
      → All IsByte payload
      → length payload ≤ 65507
      → let len = 8 + length payload in
        let c = udp_sum src dst src_port dst_port payload in
        IsU16 c
        × (0 < c)
        × IsAllOnes
            (words (udp_pseudo src dst len) + words (udp_bytes src_port dst_port len c payload))
  unfolding ones_complement_checksum sum_runs
  udp_accepted src_port dst_port payload bytes small =
      let len = 8 + length payload in
      let blank = udp_bytes src_port dst_port len 0 payload in
      let c = udp_sum src dst src_port dst_port payload in
      let filled = udp_bytes src_port dst_port len c payload in
      let pseudo =
        rw (← pseudo_header-udp_pseudo len (omega arith)) at
          (fold_run 0 (udp_pseudo src dst len) (omega (arith, words-pseudo_bound len))) in
      let p = fold_carries 3 (sum_words 0 (pseudo_header src dst len)) in
      let bound = words-udp_bound src_port dst_port len payload bytes small in
      let sent = fold_run p blank (omega (arith, bound, pseudo.small)) in
      let stored = udp_checksum-fold blank len (omega arith) in
      let (ones, some, fits, nonzero) =
        rw (← stored) at (nonzero_accepted (p + words blank) _ sent) in
      let sum : words filled ≡ words blank + c = words-udp src_port dst_port len c payload fits in
      let same_words = ap words (pseudo_header-udp_pseudo len (omega arith)) in
      (
        fits,
        nonzero,
        (omega (arith, sum, nonzero), omega (arith, sum, ones, pseudo.same, same_words)),
      )

-- A receiver that adds up the sixteen-bit words of the IPv4 header gets all ones, and so does one that
-- adds up the words of the datagram behind those of the pseudo-header of RFC 768: the two addresses, a
-- zero byte, 17 for UDP, and the length of the datagram. The checksum field of the datagram is not
-- zero, which would mean that there is no checksum.
pub build_ipv4_udp-checksums :
    (src dst : Ipv4Addr) (src_port dst_port : ℕ) (payload : Bytes)
    → HasOctets src
    → HasOctets dst
    → All IsByte payload
    → length payload ≤ 65507
    → (packet : Bytes) × (build_ipv4_udp src dst src_port dst_port payload ≡ found packet)
      × IsAllOnes (words (take 20 packet))
      × IsAllOnes (words (udp_pseudo src dst (8 + length payload)) + words (drop 20 packet))
      × ((c : ℕ) × (u16_at packet 26 ≡ found c) × (0 < c))
build_ipv4_udp-checksums src dst src_port dst_port payload hs hd bytes small =
    let head = header_sum src dst (length payload) in
    let c = udp_sum src dst src_port dst_port payload in
    let (fits, nonzero, ones) = udp_accepted src dst hs hd src_port dst_port payload bytes small in
    (
      packet_bytes src dst src_port dst_port head c payload,
      build_ipv4_udp_lem src dst src_port dst_port payload small,
      header_accepted src dst hs hd (length payload),
      ones,
      (
        c,
        u16_at-u16_bytes (packet_bytes src dst src_port dst_port head c payload) 26 c payload fits
            refl,
        nonzero,
      ),
    )
