-- ===== src/NetShield/Udp/Layout.antt =====
-- What `build_ipv4_udp` writes, as one list.
use holy_blocker.Shared.{
  ◌∙◌, missing, ◌≤◌, refl, append-nil, ◌<◌, ap, ◌+◌, ◌%◌, ℕ, ◌∷◌, [], ◌++◌, ◌≡◌, Bytes, found,
  arith,
}
use holy_blocker.Shared.Buffer.{
  length-replicate, replicate-add, slice-drop, copy_to_lem, u16_bytes, copy_to, slice,
}
use holy_blocker.NetShield.Udp.{
  build_ipv4_udp, replicate, write_udp, udp_checksum, length, ones_complement_checksum, Ipv4Addr,
  octets, write_ipv4_header,
}

abbrev pub header_bytes : Ipv4Addr → Ipv4Addr → ℕ → ℕ → Bytes → Bytes
header_bytes src dst total_len checksum rest =
    0x45
    ∷ 0
    ∷ (u16_bytes total_len
        ++ (0 ∷ 0 ∷ 0 ∷ 0 ∷ 64 ∷ 17 ∷ (u16_bytes checksum ++ (octets src ++ (octets dst ++ rest)))))

abbrev zeros20 : Bytes → Bytes
zeros20 rest = 0 ∷ 0 ∷ 0 ∷ 0 ∷ 0 ∷ 0 ∷ 0 ∷ 0 ∷ 0 ∷ 0 ∷ 0 ∷ 0 ∷ 0 ∷ 0 ∷ 0 ∷ 0 ∷ 0 ∷ 0 ∷ 0 ∷ 0 ∷ rest

abbrev zeros8 : Bytes → Bytes
zeros8 rest = 0 ∷ 0 ∷ 0 ∷ 0 ∷ 0 ∷ 0 ∷ 0 ∷ 0 ∷ rest

write_ipv4_header_lem :
    (src dst : Ipv4Addr) (total_len : ℕ) (rest : Bytes)
    → write_ipv4_header src dst total_len (zeros20 rest)
      ≡ found (
          header_bytes src dst
            (total_len % 65536)
            (ones_complement_checksum (header_bytes src dst (total_len % 65536) 0 [] ∷ []))
            rest)
unfolding write_ipv4_header copy_to slice
write_ipv4_header_lem src dst total_len rest = ground arith

abbrev pub udp_bytes : ℕ → ℕ → ℕ → ℕ → Bytes → Bytes
udp_bytes src_port dst_port udp_len checksum payload =
    u16_bytes src_port
    ++ (u16_bytes dst_port ++ (u16_bytes udp_len ++ (u16_bytes checksum ++ payload)))

abbrev pub packet_bytes : Ipv4Addr → Ipv4Addr → ℕ → ℕ → ℕ → ℕ → Bytes → Bytes
packet_bytes src dst src_port dst_port header_sum sum payload =
    header_bytes src dst (28 + length payload) header_sum
      (udp_bytes src_port dst_port (8 + length payload) sum payload)

-- The checksums that the code stores.
abbrev pub header_sum : Ipv4Addr → Ipv4Addr → ℕ → ℕ
header_sum src dst len = ones_complement_checksum (header_bytes src dst (28 + len) 0 [] ∷ [])

abbrev pub udp_sum : Ipv4Addr → Ipv4Addr → ℕ → ℕ → Bytes → ℕ
udp_sum src dst src_port dst_port payload =
    udp_checksum src dst (udp_bytes src_port dst_port (8 + length payload) 0 payload)

module _ (src dst : Ipv4Addr) (total_len sum src_port dst_port : ℕ) (payload : Bytes) where
  -- The packet once the IPv4 header is written.
  abbrev framed : Bytes → Bytes
  framed = header_bytes src dst total_len sum

  abbrev udp_len : ℕ
  udp_len = 8 + length payload

  write_udp_lem :
      (old : Bytes)
      → length old ≡ length payload
      → udp_len < 65536
      → write_udp src dst src_port dst_port udp_len payload (framed (zeros8 old))
        ≡ found (
            framed (
              udp_bytes src_port dst_port udp_len
                (udp_checksum src dst (udp_bytes src_port dst_port udp_len 0 payload))
                payload))
  unfolding write_udp
  write_udp_lem old e small =
      let src2 = u16_bytes src_port in
      let dst2 = u16_bytes dst_port in
      let len2 = u16_bytes udp_len in
      let fits : udp_len % 65536 ≡ udp_len = omega arith in
      let tail6 = 0 ∷ 0 ∷ 0 ∷ 0 ∷ 0 ∷ 0 ∷ old in
      let tail4 = 0 ∷ 0 ∷ 0 ∷ 0 ∷ old in
      let head24 = framed (src2 ++ dst2) in
      let head26 = framed (src2 ++ (dst2 ++ len2)) in
      let head28 = framed (udp_bytes src_port dst_port udp_len 0 []) in
      let whole = framed (udp_bytes src_port dst_port udp_len 0 payload) in
      let udp = udp_bytes src_port dst_port udp_len 0 payload in
      ground (
        arith,
        fits,
        copy_to_lem (framed []) (0 ∷ 0 ∷ []) src2 tail6 20 refl refl,
        copy_to_lem (framed src2) (0 ∷ 0 ∷ []) dst2 tail4 22 refl refl,
        copy_to_lem head24 (0 ∷ 0 ∷ []) len2 (0 ∷ 0 ∷ old) 24 refl refl,
        rw (append-nil old, append-nil payload) at (copy_to_lem head28 old payload [] 28 refl e),
        slice-drop whole 20 (length whole) udp [] (rw append-nil) (omega arith) (omega arith),
        copy_to_lem head26 (0 ∷ 0 ∷ []) (u16_bytes (udp_checksum src dst udp)) payload 26 refl refl,
      )

-- `build_ipv4_udp` writes both headers with their checksums and then the payload, as long as the
-- packet fits the total-length field.
pub build_ipv4_udp_lem :
    (src dst : Ipv4Addr) (src_port dst_port : ℕ) (payload : Bytes)
    → length payload ≤ 65507
    → build_ipv4_udp src dst src_port dst_port payload
      ≡ found (
          packet_bytes src dst src_port dst_port
            (header_sum src dst (length payload))
            (udp_sum src dst src_port dst_port payload)
            payload)
unfolding build_ipv4_udp
build_ipv4_udp_lem src dst src_port dst_port payload small =
    let len = length payload in
    let blank : replicate (20 + (8 + len)) 0 ≡ zeros20 (zeros8 (replicate len 0)) =
      replicate-add 20 (8 + len) 0 ∙ ap zeros20 (replicate-add 8 len 0) in
    let total : 20 + (8 + len) ≡ 28 + len = omega arith in
    let fits : (28 + len) % 65536 ≡ 28 + len = omega arith in
    ground (
      arith,
      blank,
      total,
      fits,
      write_ipv4_header_lem src dst (20 + (8 + len)) (zeros8 (replicate len 0)),
      write_udp_lem src dst (28 + len) (header_sum src dst len) src_port dst_port payload
          (replicate len 0) (length-replicate len 0) (omega arith),
    )

pub build_ipv4_udp_too_long :
    (src dst : Ipv4Addr) (src_port dst_port : ℕ) (payload : Bytes)
    → 65507 < length payload
    → build_ipv4_udp src dst src_port dst_port payload ≡ missing
unfolding build_ipv4_udp
build_ipv4_udp_too_long src dst src_port dst_port payload long = ground arith
