-- ===== src/NetShield/Udp.antt =====
-- packages/net-shield/src/udp.rs: IPv4 and UDP framing for the TUN device. Bytes are numbers, an
-- address is its four octets, and a write goes into the buffer that the code allocates.
pub mod Layout
pub mod Checksum
pub mod RoundTrip
mod Runs
use holy_blocker.Shared.{
  ℕ, zero, suc, ◌+◌, ◌-◌, ◌*◌, ◌/◌, ◌%◌, ◌^◌, ◌&&◌, List, [], ◌∷◌, ◌++◌, Bytes, length, leb, ◌==◌,
  if◌then◌else◌, Outcome, found, ◌>>=◌, ◌>>◌, ensure, bit_and,
}
use holy_blocker.Shared.Buffer.{
  byte_at, u16_at, slice, get_slice, be16, u16_bytes, copy_to, replicate, checked_add,
}

-- tun.rs
abbrev pub proto_tcp : ℕ
proto_tcp = 6

abbrev pub proto_udp : ℕ
proto_udp = 17

abbrev pub ipv4_min_header_len : ℕ
ipv4_min_header_len = 20

abbrev pub udp_header_len : ℕ
udp_header_len = 8

abbrev pub ipv4_max_total_len : ℕ
ipv4_max_total_len = 65535

abbrev ipv4_flag_more_fragments : ℕ
ipv4_flag_more_fragments = 0x2000

abbrev ipv4_fragment_offset_mask : ℕ
ipv4_fragment_offset_mask = 0x1fff

abbrev default_ttl : ℕ
default_ttl = 64

-- `std::net::Ipv4Addr`
pub record Ipv4Addr : Type 0 where
  pub a : ℕ
  pub b : ℕ
  pub c : ℕ
  pub d : ℕ

abbrev pub octets : Ipv4Addr → Bytes
octets ip = ip.a ∷ ip.b ∷ ip.c ∷ ip.d ∷ []

pub record Ipv4UdpDatagram : Type 0 where
  pub src_ip : Ipv4Addr
  pub dst_ip : Ipv4Addr
  pub src_port : ℕ
  pub dst_port : ℕ
  pub payload : Bytes

-- `Ipv4Addr::new(buf[i], buf[i + 1], buf[i + 2], buf[i + 3])`
unfoldable pub ipv4_at : Bytes → ℕ → Outcome Ipv4Addr
ipv4_at buf i = do
  a ← byte_at buf i
  b ← byte_at buf (i + 1)
  c ← byte_at buf (i + 2)
  d ← byte_at buf (i + 3)
  found (record { a = a; b = b; c = c; d = d })

-- The part of `parse_ipv4_udp` behind the IPv4 header.
unfoldable pub parse_udp : Ipv4Addr → Ipv4Addr → Bytes → Outcome Ipv4UdpDatagram
parse_udp src_ip dst_ip udp = do
  ensure (leb udp_header_len (length udp))
  src_port ← u16_at udp 0
  dst_port ← u16_at udp 2
  udp_len ← u16_at udp 4
  ensure (leb udp_header_len udp_len && leb udp_len (length udp))
  payload ← slice udp udp_header_len udp_len
  found (record {
    src_ip = src_ip;
    dst_ip = dst_ip;
    src_port = src_port;
    dst_port = dst_port;
    payload = payload;
  })

-- The fields of the IPv4 header behind the total length.
unfoldable pub parse_header : Bytes → ℕ → ℕ → Outcome Ipv4UdpDatagram
parse_header packet ihl total_len = do
  frag ← u16_at packet 6
  ensure (bit_and frag ipv4_flag_more_fragments == 0 && bit_and frag ipv4_fragment_offset_mask == 0)
  protocol ← byte_at packet 9
  ensure (protocol == proto_udp)
  src_ip ← ipv4_at packet 12
  dst_ip ← ipv4_at packet 16
  udp ← get_slice packet ihl total_len
  parse_udp src_ip dst_ip udp

unfoldable pub parse_ipv4_udp : Bytes → Outcome Ipv4UdpDatagram
parse_ipv4_udp packet = do
  ensure (leb ipv4_min_header_len (length packet))
  version_ihl ← byte_at packet 0
  ensure (version_ihl / 2 ^ 4 == 4)
  let ihl = bit_and version_ihl 0x0f * 4
  ensure (leb ipv4_min_header_len ihl)
  total_len ← u16_at packet 2
  ensure (leb ihl total_len && leb total_len (length packet))
  parse_header packet ihl total_len

-- `sum += word` at 32 bits.
abbrev add32 : ℕ → ℕ → ℕ
add32 sum word = (sum + word) % 2 ^ 32

-- The two inner loops of `ones_complement_checksum`: the words of a run, an odd byte padded on the
-- right.
sum_words : ℕ → Bytes → ℕ
sum_words sum [] = sum
sum_words sum (b ∷ []) = add32 sum (b * 2 ^ 8)
sum_words sum (hi ∷ lo ∷ run) = sum_words (add32 sum (be16 hi lo)) run

-- `while sum >> 16 != 0`, for which three rounds are enough at 32 bits.
fold_carries : ℕ → ℕ → ℕ
fold_carries zero sum = sum
fold_carries (suc rounds) sum =
    let folded = fold_carries rounds (add32 (bit_and sum 0xffff) (sum / 2 ^ 16)) in
    if sum / 2 ^ 16 == 0 then sum else folded

sum_runs : ℕ → List Bytes → ℕ
sum_runs sum [] = sum
sum_runs sum (run ∷ runs) = sum_runs (fold_carries 3 (sum_words sum run)) runs

-- `!(sum as u16)` of the sum over all runs.
pub ones_complement_checksum : List Bytes → ℕ
ones_complement_checksum runs = 65535 - sum_runs 0 runs % 65536

-- The pseudo-header: both addresses, a zero octet, the protocol and the UDP length.
abbrev pub pseudo_header : Ipv4Addr → Ipv4Addr → ℕ → Bytes
pseudo_header src_ip dst_ip len =
    octets src_ip ++ (octets dst_ip ++ (0 ∷ proto_udp ∷ u16_bytes (len % 65536)))

pub udp_checksum : Ipv4Addr → Ipv4Addr → Bytes → ℕ
udp_checksum src_ip dst_ip udp =
    let sum = ones_complement_checksum (pseudo_header src_ip dst_ip (length udp) ∷ udp ∷ []) in
    if sum == 0 then 0xffff else sum

-- The IPv4 header, written into the zeroed packet, its checksum last.
write_ipv4_header : Ipv4Addr → Ipv4Addr → ℕ → Bytes → Outcome Bytes
write_ipv4_header src_ip dst_ip total_len packet = do
  packet ← copy_to packet 0 (0x45 ∷ [])
  packet ← copy_to packet 1 (0 ∷ [])
  packet ← copy_to packet 2 (u16_bytes (total_len % 65536))
  packet ← copy_to packet 4 (u16_bytes 0)
  packet ← copy_to packet 6 (u16_bytes 0)
  packet ← copy_to packet 8 (default_ttl ∷ [])
  packet ← copy_to packet 9 (proto_udp ∷ [])
  packet ← copy_to packet 12 (octets src_ip)
  packet ← copy_to packet 16 (octets dst_ip)
  header ← slice packet 0 ipv4_min_header_len
  copy_to packet 10 (u16_bytes (ones_complement_checksum (header ∷ [])))

-- The UDP header and the payload, written behind the IPv4 header, the checksum last.
write_udp : Ipv4Addr → Ipv4Addr → ℕ → ℕ → ℕ → Bytes → Bytes → Outcome Bytes
write_udp src_ip dst_ip src_port dst_port udp_len payload packet = do
  packet ← copy_to packet 20 (u16_bytes src_port)
  packet ← copy_to packet 22 (u16_bytes dst_port)
  packet ← copy_to packet 24 (u16_bytes (udp_len % 65536))
  packet ← copy_to packet 28 payload
  udp ← slice packet ipv4_min_header_len (length packet)
  copy_to packet 26 (u16_bytes (udp_checksum src_ip dst_ip udp))

pub build_ipv4_udp : Ipv4Addr → Ipv4Addr → ℕ → ℕ → Bytes → Outcome Bytes
build_ipv4_udp src_ip dst_ip src_port dst_port payload = do
  udp_len ← checked_add udp_header_len (length payload)
  total_len ← checked_add ipv4_min_header_len udp_len
  ensure (leb total_len ipv4_max_total_len)
  packet ← write_ipv4_header src_ip dst_ip total_len (replicate total_len 0)
  write_udp src_ip dst_ip src_port dst_port udp_len payload packet

unfoldable pub reply_to : Ipv4UdpDatagram → Bytes → Outcome Bytes
reply_to request payload =
    build_ipv4_udp request.dst_ip request.src_ip request.dst_port request.src_port payload
