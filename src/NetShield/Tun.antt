-- ===== src/NetShield/Tun.antt =====
-- packages/net-shield/src/tun.rs and lib.rs: the addresses and ports of a packet, and the filter
-- loop's step on one packet. The sink is a parameter: its state, and the three calls of the trait.
pub mod Parse
pub mod Action
pub mod Packet
mod Runs
use mathlib.Core.Option
use holy_blocker.Shared.{
  ◌^◌, [], ◌/◌, false, ◌&&◌, bit_and, ◌||◌, leb, ◌+◌, true, length, ◌==◌, ensure, ◌*◌, Bool, ◌>>=◌,
  if◌then◌else◌, ◌>>◌, ◌∷◌, List, Outcome, Bytes, ℕ, panicked, missing, found,
}
use holy_blocker.NetShield.Radix
use holy_blocker.NetShield.Cidr
use holy_blocker.NetShield.Radix.{TrieNode, FilterAction, block, allow, proxy}
use holy_blocker.NetShield.Udp.{proto_tcp, proto_udp}
use holy_blocker.NetShield.Cidr.{v4, v6, IpAddr, CidrEntry}
use holy_blocker.Shared.Buffer.{slice, u16_at, byte_at, get_slice}
use holy_blocker.NetShield.Sni.{extract_sni}

abbrev pub port_http : ℕ
port_http = 80

abbrev pub port_https : ℕ
port_https = 443

pub record RawPacket : Type 0 where
  pub bytes : Bytes
  pub src_ip : IpAddr
  pub dst_ip : IpAddr
  pub src_port : ℕ
  pub dst_port : ℕ
  pub protocol : ℕ

-- The trait `PacketSink` over a state `S`.
pub record PacketSink {ℓ} (S : Type ℓ) : Type ℓ where
  pub drop_packet : RawPacket → S → S
  pub pass_packet : RawPacket → S → S
  pub redirect_to_proxy : RawPacket → ℕ → S → S

-- The number that big-endian bytes make.
be_number : ℕ → Bytes → ℕ
be_number n [] = n
be_number n (b ∷ bytes) = be_number (n * 256 + b) bytes

ports_at : Bytes → ℕ → Outcome (ℕ × ℕ)
ports_at buf start = do
  ensure (leb (start + 4) (length buf))
  src ← u16_at buf start
  dst ← u16_at buf (start + 2)
  found (src, dst)

-- `let (src_port, dst_port) = ...`, for a transport header at `start`.
ports : Bytes → ℕ → ℕ → Outcome (ℕ × ℕ)
ports buf protocol start =
    if protocol == proto_tcp || protocol == proto_udp then ports_at buf start else found (0, 0)

pub parse_ipv4_packet : Bytes → Outcome RawPacket
parse_ipv4_packet buf = do
  ensure (leb 20 (length buf))
  first ← byte_at buf 0
  ensure (first / 2 ^ 4 == 4)
  let ihl = bit_and first 0x0f * 4
  ensure (leb (ihl + 4) (length buf))
  protocol ← byte_at buf 9
  src_ip ← slice buf 12 16
  dst_ip ← slice buf 16 20
  (src_port, dst_port) ← ports buf protocol ihl
  found (record {
    bytes = buf;
    src_ip = v4 (be_number 0 src_ip);
    dst_ip = v4 (be_number 0 dst_ip);
    src_port = src_port;
    dst_port = dst_port;
    protocol = protocol;
  })

pub parse_ipv6_packet : Bytes → Outcome RawPacket
parse_ipv6_packet buf = do
  ensure (leb 40 (length buf))
  first ← byte_at buf 0
  ensure (first / 2 ^ 4 == 6)
  next_header ← byte_at buf 6
  src_ip ← slice buf 8 24
  dst_ip ← slice buf 24 40
  (src_port, dst_port) ← ports buf next_header 40
  found (record {
    bytes = buf;
    src_ip = v6 (be_number 0 src_ip);
    dst_ip = v6 (be_number 0 dst_ip);
    src_port = src_port;
    dst_port = dst_port;
    protocol = next_header;
  })

-- `if let Some(p) = first { p } else if let Some(p) = second { p }`
abbrev or_parse {ℓ} : {A : Type ℓ} → Outcome A → Outcome A → Outcome A
or_parse (found a) m = found a
or_parse missing m = m
or_parse panicked m = panicked

pub parse_packet : Bytes → Outcome RawPacket
parse_packet raw = or_parse (parse_ipv4_packet raw) (parse_ipv6_packet raw)

pub dispatch {ℓ} : {S : Type ℓ} → PacketSink S → RawPacket → FilterAction → ℕ → S → S
dispatch sink pkt block proxy_port = sink.drop_packet pkt
dispatch sink pkt allow proxy_port = sink.pass_packet pkt
dispatch sink pkt proxy proxy_port = sink.redirect_to_proxy pkt proxy_port

pub record NetShield : Type 0 where
  pub domain_filter : TrieNode
  pub ip_filter : List CidrEntry

-- `raw.get(start..)`
pub get_from : Bytes → ℕ → Outcome Bytes
get_from raw start = get_slice raw start (length raw)

-- The action by the server name where there is one, and by the address otherwise.
pub by_name : NetShield → RawPacket → Outcome Bytes → Outcome FilterAction
by_name shield pkt (found hostname) = found (Radix.lookup shield.domain_filter hostname)
by_name shield pkt missing = found (Cidr.lookup shield.ip_filter pkt.dst_ip)
by_name shield pkt panicked = panicked

-- The branch of TCP to port 443; the IP header is measured as that of IPv4.
https_action : NetShield → RawPacket → Bytes → Outcome FilterAction
https_action shield pkt raw = do
  first ← byte_at raw 0
  let ihl = bit_and first 0x0f * 4
  offset ← byte_at raw (ihl + 12)
  by_name shield pkt (get_from raw (ihl + offset / 2 ^ 4 * 4) >>= extract_sni)

pub action_of : NetShield → RawPacket → Bytes → Outcome FilterAction
action_of shield pkt raw =
    let https = https_action shield pkt raw in
    if pkt.protocol == proto_tcp && pkt.dst_port == port_https
    then https
    else if pkt.protocol == proto_tcp && pkt.dst_port == port_http
    then found (Cidr.lookup shield.ip_filter pkt.dst_ip)
    else found allow

-- The result and the sink's state, for a packet that parses or not.
process_parsed {ℓ} :
    {S : Type ℓ} → NetShield → Bytes → PacketSink S → ℕ → S → Outcome RawPacket → Outcome (Bool × S)
process_parsed shield raw sink proxy_port s (found pkt) = do
  action ← action_of shield pkt raw
  found (true, dispatch sink pkt action proxy_port s)
process_parsed shield raw sink proxy_port s missing = found (false, s)
process_parsed shield raw sink proxy_port s panicked = panicked

pub process_packet {ℓ} :
    {S : Type ℓ} → NetShield → Bytes → PacketSink S → ℕ → S → Outcome (Bool × S)
process_packet shield raw sink proxy_port s =
    process_parsed shield raw sink proxy_port s (parse_packet raw)
