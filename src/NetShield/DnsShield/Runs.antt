-- ===== src/NetShield/DnsShield/Runs.antt =====
-- A query for www.example.com from 10.0.0.2, where example.com is blocked by a rule.
use holy_blocker.NetShield.DnsShield.Reply.{wrap_response-parse}
use holy_blocker.DomainNormalize.{normalize, strip_dot, check_ascii, label_error, key}
use holy_blocker.NetShield.Udp.{parse_ipv4_udp, parse_header, parse_udp, ipv4_at, Ipv4UdpDatagram}
use holy_blocker.Shared.Buffer.{u16_at, byte_at, slice, get_slice}
use holy_blocker.Shared.Texts.{split_dots}
use holy_blocker.Shared.{
  ◌++◌, [], refl, false, true, ◌∷◌, codes, member, ◌≡◌, Bytes, text_eq, found, none, inr,
}
use holy_blocker.Shared.{arith}
use holy_blocker.NetShield.Radix.{allow, from_rules, block}
use holy_blocker.NetShield.DnsShield.{
  some, inspect, Option, wrap_response, resolve, DnsVerdict, DnsShield,
}
use holy_blocker.NetShield.DnsShield.Verdict.{resolve-allowed, inspect-Justified, Justified}
use holy_blocker.NetShield.Udp.RoundTrip.{IsFramed}

abbrev same : Bytes → Option Bytes
same text = some text

abbrev shield : DnsShield
shield = record {
  explicit = from_rules ((codes "example.com", block) ∷ []);
  allowlist = codes "a.org" ∷ [];
  keywords = [];
  blocklist = none;
}

abbrev query : Bytes
query =
    0
    ∷ 7
    ∷ 1
    ∷ 0
    ∷ 0
    ∷ 1
    ∷ 0
    ∷ 0
    ∷ 0
    ∷ 0
    ∷ 0
    ∷ 0
    ∷ 3
    ∷ (codes "www" ++ (7 ∷ (codes "example" ++ (3 ∷ (codes "com" ++ (0 ∷ 0 ∷ 1 ∷ 0 ∷ 1 ∷ []))))))

abbrev packet : Bytes
packet =
    0x45 ∷ 0 ∷ 0 ∷ 61 ∷ 0 ∷ 0 ∷ 0 ∷ 0 ∷ 64 ∷ 17 ∷ 0 ∷ 0 ∷ 10 ∷ 0 ∷ 0 ∷ 2 ∷ 10 ∷ 0 ∷ 0 ∷ 1 ∷ 156 ∷ 64
    ∷ 0 ∷ 53 ∷ 0 ∷ 41 ∷ 0 ∷ 0 ∷ query

abbrev datagram : Ipv4UdpDatagram
datagram = record {
  src_ip = record { a = 10; b = 0; c = 0; d = 2 };
  dst_ip = record { a = 10; b = 0; c = 0; d = 1 };
  src_port = 40000;
  dst_port = 53;
  payload = query;
}

packet_parsed : parse_ipv4_udp packet ≡ found datagram
unfolding parse_ipv4_udp parse_header parse_udp ipv4_at u16_at byte_at slice get_slice
packet_parsed = refl

inspect-Justified_example :
    (v : DnsVerdict) × (inspect same same (λ _. false) shield packet ≡ found v)
    × Justified same same (λ _. false) shield packet v
inspect-Justified_example = inspect-Justified same same (λ _. false) shield packet (ground arith)

text_self : member (codes "a.org") shield.allowlist ≡ true
unfolding text_eq
text_self = refl

x_normalized : normalize same (codes "x.a.org.") ≡ key (codes "x.a.org")
unfolding normalize strip_dot check_ascii label_error split_dots
x_normalized = refl

resolve-allowed_example : resolve same same (λ _. false) shield (codes "x.a.org.") ≡ allow
resolve-allowed_example =
    resolve-allowed same same (λ _. false) shield (codes "x.a.org.") (codes "x.a.org") x_normalized
      (inr (codes "x", codes "a.org", refl, text_self))

wrap_response-parse_example :
    IsFramed
      (record {
        src_ip = datagram.dst_ip;
        dst_ip = datagram.src_ip;
        src_port = 53;
        dst_port = 40000;
        payload = codes "answer";
      })
      (wrap_response packet (codes "answer"))
wrap_response-parse_example =
    wrap_response-parse packet datagram (codes "answer") (ground arith) packet_parsed
