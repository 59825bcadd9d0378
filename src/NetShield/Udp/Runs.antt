-- ===== src/NetShield/Udp/Runs.antt =====
-- A DNS-sized datagram through the framing of udp.rs.
use holy_blocker.Shared.{◌<◌, ◌+◌, drop, take, ◌≡◌, Bytes, Safe, codes, arith, found}
use holy_blocker.NetShield.Udp.{u16_at, ℕ, parse_ipv4_udp, build_ipv4_udp, Ipv4Addr}
use holy_blocker.NetShield.Udp.RoundTrip.{
  IsFramed, parse_ipv4_udp-IsBounded, parse_ipv4_udp-build_ipv4_udp, IsBounded,
}
use holy_blocker.NetShield.Udp.Checksum.{udp_pseudo, words, IsAllOnes, build_ipv4_udp-checksums}

abbrev client : Ipv4Addr
client = record { a = 10; b = 0; c = 0; d = 2 }

abbrev resolver : Ipv4Addr
resolver = record { a = 10; b = 0; c = 0; d = 1 }

parse_ipv4_udp-build_ipv4_udp_example :
    IsFramed
      (record {
        src_ip = client;
        dst_ip = resolver;
        src_port = 40000;
        dst_port = 53;
        payload = codes "ping";
      })
      (build_ipv4_udp client resolver 40000 53 (codes "ping"))
parse_ipv4_udp-build_ipv4_udp_example =
    parse_ipv4_udp-build_ipv4_udp client resolver 40000 53 (codes "ping") (omega arith)
      (omega arith)

parse_ipv4_udp-IsBounded_example :
    Safe
      (IsBounded (codes "not a packet, but long enough"))
      (parse_ipv4_udp (codes "not a packet, but long enough"))
parse_ipv4_udp-IsBounded_example =
    parse_ipv4_udp-IsBounded (codes "not a packet, but long enough") (ground arith)

build_ipv4_udp-checksums_example :
    (packet : Bytes) × (build_ipv4_udp client resolver 40000 53 (codes "ping") ≡ found packet)
    × IsAllOnes (words (take 20 packet))
    × IsAllOnes (words (udp_pseudo client resolver 12) + words (drop 20 packet))
    × ((c : ℕ) × (u16_at packet 26 ≡ found c) × (0 < c))
build_ipv4_udp-checksums_example =
    build_ipv4_udp-checksums client resolver 40000 53 (codes "ping") (ground arith) (ground arith)
      (ground arith) (omega arith)
