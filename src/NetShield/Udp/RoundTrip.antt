-- ===== src/NetShield/Udp/RoundTrip.antt =====
-- `parse_ipv4_udp` on the packets that `build_ipv4_udp` writes, and on any buffer.
use holy_blocker.Shared.{
  sym, ap, ◌∙◌, leb→le, inl, leb→gt, inr, ◌⊎◌, Bool-cases, All, append-nil, ℕ, ◌+◌, ◌≤◌, ◌<◌, [],
  ◌≡◌, refl, Bytes, length, found, missing, arith, Safe,
}
use holy_blocker.Shared.Buffer.{
  u16_at-u16_bytes, slice-bytes, get_slice-bytes, u16_at-IsU16, IsByte, IsU16, byte_at, u16_at,
  slice, get_slice, slice-drop, byte_at-Safe, u16_at-Safe,
}
use holy_blocker.NetShield.Udp.{
  Outcome, leb, Ipv4Addr, Ipv4UdpDatagram, ipv4_at, parse_udp, parse_header, parse_ipv4_udp,
  build_ipv4_udp,
}
use holy_blocker.NetShield.Udp.Layout.{
  packet_bytes, udp_bytes, header_sum, udp_sum, build_ipv4_udp_lem, build_ipv4_udp_too_long,
}

parse_udp-udp_bytes :
    (src dst : Ipv4Addr) (src_port dst_port sum : ℕ) (payload : Bytes)
    → IsU16 src_port
    → IsU16 dst_port
    → length payload ≤ 65507
    → parse_udp src dst (udp_bytes src_port dst_port (8 + length payload) sum payload)
      ≡ found (record {
        src_ip = src;
        dst_ip = dst;
        src_port = src_port;
        dst_port = dst_port;
        payload = payload;
      })
unfolding parse_udp byte_at u16_at
parse_udp-udp_bytes src dst src_port dst_port sum payload hs hd small =
    let udp = udp_bytes src_port dst_port (8 + length payload) sum payload in
    ground
      (arith, slice-drop udp 8 (8 + length payload) payload [] (rw append-nil) refl (omega arith))

parse_ipv4_udp-packet_bytes :
    (src dst : Ipv4Addr) (src_port dst_port header_sum sum : ℕ) (payload : Bytes)
    → IsU16 src_port
    → IsU16 dst_port
    → length payload ≤ 65507
    → parse_ipv4_udp (packet_bytes src dst src_port dst_port header_sum sum payload)
      ≡ found (record {
        src_ip = src;
        dst_ip = dst;
        src_port = src_port;
        dst_port = dst_port;
        payload = payload;
      })
unfolding parse_ipv4_udp parse_header ipv4_at byte_at u16_at get_slice slice
parse_ipv4_udp-packet_bytes src dst src_port dst_port header_sum sum payload hs hd small =
    let packet = packet_bytes src dst src_port dst_port header_sum sum payload in
    let udp = udp_bytes src_port dst_port (8 + length payload) sum payload in
    ground (
      arith,
      slice-drop packet 20 (28 + length payload) udp [] (rw append-nil) (omega arith) (omega arith),
      parse_udp-udp_bytes src dst src_port dst_port sum payload hs hd small,
    )

-- What becomes of a datagram that is to be written: nothing where its payload is longer than 65507
-- bytes, and otherwise a packet of 28 more bytes than the payload, which the total-length field says
-- and which parses to the datagram.
unfoldable pub IsFramed : Ipv4UdpDatagram → Outcome Bytes → Type 0
IsFramed d built =
    ((65507 < length d.payload) × (built ≡ missing))
    ⊎ ((packet : Bytes) × (built ≡ found packet)
        × (length packet ≡ 28 + length d.payload)
        × (length packet ≤ 65535)
        × (u16_at packet 2 ≡ found (length packet))
        × (parse_ipv4_udp packet ≡ found d))

packet_bytes-total :
    (src dst : Ipv4Addr) (src_port dst_port header_sum sum : ℕ) (payload : Bytes)
    → length payload ≤ 65507
    → u16_at (packet_bytes src dst src_port dst_port header_sum sum payload) 2
      ≡ found (28 + length payload)
packet_bytes-total src dst src_port dst_port header_sum sum payload small =
    u16_at-u16_bytes (packet_bytes src dst src_port dst_port header_sum sum payload) 2
      (28 + length payload) _ (omega arith) refl

-- Building gives nothing where the payload is longer than 65507 bytes. Otherwise it gives a packet of
-- 28 more bytes than the payload, at most 65535; its total-length field says so, and parsing it gives
-- back the addresses, the ports and the payload.
pub parse_ipv4_udp-build_ipv4_udp :
    (src dst : Ipv4Addr) (src_port dst_port : ℕ) (payload : Bytes)
    → IsU16 src_port
    → IsU16 dst_port
    → IsFramed
        (record {
          src_ip = src;
          dst_ip = dst;
          src_port = src_port;
          dst_port = dst_port;
          payload = payload;
        })
        (build_ipv4_udp src dst src_port dst_port payload)
unfolding IsFramed
parse_ipv4_udp-build_ipv4_udp src dst src_port dst_port payload hs hd =
    let len = length payload in
    let head = header_sum src dst len in
    let sum = udp_sum src dst src_port dst_port payload in
    elim (Bool-cases (leb len 65507)) [
      | inr long ↦
          let long : 65507 < length payload = leb→gt len 65507 long in
          inl (long, build_ipv4_udp_too_long src dst src_port dst_port payload long)
      | inl fits ↦
          let small : length payload ≤ 65507 = leb→le len 65507 fits in
          let size : length (packet_bytes src dst src_port dst_port head sum payload) ≡ 28 + len =
            omega arith in
          inr (
            packet_bytes src dst src_port dst_port head sum payload,
            build_ipv4_udp_lem src dst src_port dst_port payload small,
            size,
            omega (arith, size),
            packet_bytes-total src dst src_port dst_port head sum payload small
                ∙ ap found (sym size),
            parse_ipv4_udp-packet_bytes src dst src_port dst_port head sum payload hs hd small,
          )
    ]

-- The bounds of a parsed datagram.
pub record IsBounded (packet : Bytes) (d : Ipv4UdpDatagram) : Type 0 where
  pub src_port_fits : IsU16 d.src_port
  pub dst_port_fits : IsU16 d.dst_port
  pub payload_fits : length d.payload + 28 ≤ 65535
  pub payload_inside : length d.payload + 28 ≤ length packet
  pub payload_bytes : All IsByte d.payload

parse_udp-IsBounded :
    (src dst : Ipv4Addr) (packet udp : Bytes)
    → All IsByte udp
    → length udp + 20 ≤ 65535
    → length udp + 20 ≤ length packet
    → Safe (IsBounded packet) (parse_udp src dst udp)
unfolding parse_udp
parse_udp-IsBounded src dst packet udp bytes fits inside = grind (arith, u16_at-IsU16, slice-bytes)

ipv4_at-Safe : (buf : Bytes) (i : ℕ) → i + 3 < length buf → Safe (λ _. Unit {0}) (ipv4_at buf i)
unfolding ipv4_at
ipv4_at-Safe buf i h = grind (arith, byte_at-Safe)

parse_header-IsBounded :
    (packet : Bytes) (ihl total_len : ℕ)
    → All IsByte packet
    → 20 ≤ ihl
    → ihl ≤ total_len
    → total_len ≤ length packet
    → total_len < 65536
    → Safe (IsBounded packet) (parse_header packet ihl total_len)
unfolding parse_header
parse_header-IsBounded packet ihl total_len bytes h20 hi ht hs =
    grind (arith, u16_at-Safe, byte_at-Safe, ipv4_at-Safe, get_slice-bytes, parse_udp-IsBounded)

-- On a buffer of bytes `parse_ipv4_udp` does not panic, and the datagram it finds has sixteen-bit
-- ports and a payload of bytes that lies inside the packet.
pub parse_ipv4_udp-IsBounded :
    (packet : Bytes) → All IsByte packet → Safe (IsBounded packet) (parse_ipv4_udp packet)
unfolding parse_ipv4_udp
parse_ipv4_udp-IsBounded packet bytes =
    grind (arith, byte_at-Safe, u16_at-IsU16, parse_header-IsBounded)
