-- ===== src/NetShield/Tun/Runs.antt =====
-- Three TCP packets from 10.0.0.2: a ClientHello, a request to port 80, and one cut short.
use holy_blocker.NetShield.Radix
use holy_blocker.NetShield.Utf8.{is_utf8}
use holy_blocker.NetShield.Cidr.{v4}
use holy_blocker.NetShield.Radix.{block}
use holy_blocker.Shared.Buffer.{u16_at, byte_at, slice, replicate, u16_bytes}
use holy_blocker.Shared.{
  panicked, true, List, ◌↔◌, ◌≡◌, Bool, ◌++◌, Bytes, ℕ, found, ◌∷◌, [], refl, arith, codes,
}
use holy_blocker.NetShield.Tun.{
  be_number, ports_at, ports, parse_ipv4_packet, RawPacket, process_packet, parse_packet, NetShield,
  PacketSink,
}
use holy_blocker.NetShield.Sni.ClientHello.{record_bytes, IsSendable, Hello}
use holy_blocker.NetShield.Tun.Action.{IsCut}
use holy_blocker.NetShield.Tun.Packet.{
  Called, process_packet-IsCut, process_packet-hostname, process_packet-Stepped, Stepped,
}

-- A sink that lists the calls it gets.
abbrev listing : PacketSink (List ℕ)
listing = record {
  drop_packet = λ pkt calls. 0 ∷ calls;
  pass_packet = λ pkt calls. 1 ∷ calls;
  redirect_to_proxy = λ pkt proxy_port calls. proxy_port ∷ calls;
}

abbrev shield : NetShield
shield = record {
  domain_filter = Radix.from_rules ((codes "example.com", block) ∷ []);
  ip_filter = [];
}

-- The IP header of a TCP packet to 1.2.3.4, and the ports.
abbrev front : ℕ → Bytes → Bytes
front dst_port behind =
    0x45
    ∷ 0
    ∷ 0
    ∷ 40
    ∷ 0
    ∷ 0
    ∷ 0
    ∷ 0
    ∷ 64
    ∷ 6
    ∷ 0
    ∷ 0
    ∷ 10
    ∷ 0
    ∷ 0
    ∷ 2
    ∷ 1
    ∷ 2
    ∷ 3
    ∷ 4
    ∷ 156
    ∷ 64
    ∷ (u16_bytes dst_port ++ behind)

abbrev tcp_rest : Bytes
tcp_rest = 0 ∷ 0 ∷ 0 ∷ 1 ∷ 0 ∷ 0 ∷ 0 ∷ 1 ∷ 0x50 ∷ 0x18 ∷ 1 ∷ 0 ∷ 0 ∷ 0 ∷ 0 ∷ 0 ∷ []

abbrev to_port : ℕ → Bytes → RawPacket
to_port dst_port behind = record {
  bytes = front dst_port behind;
  src_ip = v4 167772162;
  dst_ip = v4 16909060;
  src_port = 40000;
  dst_port = dst_port;
  protocol = 6;
}

abbrev hello : Hello
hello = record {
  opening = replicate 34 3;
  session_id = [];
  cipher_suites = 0x13 ∷ 0x01 ∷ [];
  compression = 0 ∷ [];
  others = [];
  name = codes "example.com";
  behind = [];
}

hello-IsSendable : IsSendable hello
unfolding is_utf8
hello-IsSendable = record {
  opening_size = refl;
  session_id_fits = omega arith;
  cipher_suites_fit = omega arith;
  compression_fits = omega arith;
  others_fit = tt;
  record_fits = omega arith;
  name_text = refl;
}

hello_parsed :
    parse_ipv4_packet (front 443 tcp_rest ++ record_bytes 3 1 hello [])
    ≡ found (to_port 443 (tcp_rest ++ record_bytes 3 1 hello []))
unfolding parse_ipv4_packet ports ports_at be_number u16_at byte_at slice
hello_parsed = refl

first_byte : byte_at (front 443 tcp_rest ++ record_bytes 3 1 hello []) 0 ≡ found 0x45
unfolding byte_at
first_byte = refl

offset_byte : byte_at (front 443 tcp_rest ++ record_bytes 3 1 hello []) 32 ≡ found 0x50
unfolding byte_at
offset_byte = refl

process_packet-hostname_example :
    (after : List ℕ) × (process_packet shield
        (front 443 tcp_rest ++ record_bytes 3 1 hello [])
        listing
        8080
        []
      ≡ found (true, after))
    × Called shield listing 8080
        (Radix.lookup shield.domain_filter (codes "example.com"))
        (to_port 443 (tcp_rest ++ record_bytes 3 1 hello []))
        []
        after
process_packet-hostname_example =
    process_packet-hostname shield listing 8080 (front 443 tcp_rest) 3 1 hello []
      (to_port 443 (tcp_rest ++ record_bytes 3 1 hello [])) 0x45 0x50 [] hello-IsSendable
      hello_parsed refl refl first_byte offset_byte refl

web_parsed : parse_packet (front 80 []) ≡ found (to_port 80 [])
unfolding parse_packet parse_ipv4_packet ports ports_at be_number u16_at byte_at slice
web_parsed = refl

web-whole : ¬ IsCut (front 80 [])
web-whole c = ground (arith, web_parsed, c.parsed, c.https)

process_packet-Stepped_example :
    (r : Bool × List ℕ) × (process_packet shield (front 80 []) listing 8080 [] ≡ found r)
    × Stepped shield listing 8080 (front 80 []) [] r
process_packet-Stepped_example =
    process_packet-Stepped shield listing 8080 (front 80 []) [] web-whole

process_packet-IsCut_example :
    (process_packet shield (front 443 []) listing 8080 [] ≡ panicked) ↔ IsCut (front 443 [])
process_packet-IsCut_example = process_packet-IsCut shield listing 8080 (front 443 []) []
