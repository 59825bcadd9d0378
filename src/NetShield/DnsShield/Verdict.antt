-- ===== src/NetShield/DnsShield/Verdict.antt =====
-- What the DNS filter does with a packet.
use holy_blocker.Shared.{
  true, member, Safe-ne-panicked, Outcome-cases, ==→eq, false, Bool-cases, ◌==◌, ◌⊎◌, inl, inr,
  refl, ◌≢◌, Safe-found, All, ◌≡◌, Bool, Option, ℕ, Bytes, arith,
}
use holy_blocker.NetShield.Radix.{allow, proxy, FilterAction, block}
use holy_blocker.NetShield.Udp.{parse_ipv4_udp, Ipv4UdpDatagram}
use holy_blocker.NetShield.Dns.{parse_query_with_end, DnsQuestion, parse_query}
use holy_blocker.NetShield.DnsShield.{
  none, key, normalize, ignore, resolve_normalized, missing, DnsVerdict, forward, blocked, resolve,
  verdict, inspect, found, DnsShield,
}
use holy_blocker.NetShield.Udp.RoundTrip.{parse_ipv4_udp-IsBounded}
use holy_blocker.Shared.Buffer.{IsByte}
use holy_blocker.NetShield.Dns.Query.{parse_query_with_end-EndsIn}
use holy_blocker.NetShield.Blocklist.Allowed.{resolve_action-allowed, Below}
use holy_blocker.NetShield.DnsShield.Reply.{blocked_reply-IsReply, parse_query_found, IsReply}

verdict-forward :
    (d : Ipv4UdpDatagram) (name : Bytes) (action : FilterAction)
    → action ≢ block
    → verdict d name action ≡ found (forward name d.payload)
unfolding verdict
verdict-forward d name block h = absurd (h refl)
verdict-forward d name allow h = refl
verdict-forward d name proxy h = refl

is_block : (action : FilterAction) → (action ≡ block) ⊎ (action ≢ block)
is_block block = inl refl
is_block allow = inr (λ e. cc)
is_block proxy = inr (λ e. cc)

module _ (to_ascii registrable : Bytes → Option Bytes) (under_private_suffix : Bytes → Bool)
    (shield : DnsShield) where
  -- A query for a name that the rules block is answered, on the device, by a refusal of this query
  -- in a packet back to the client.
  pub inspect-IsReply :
      (packet : Bytes) (d : Ipv4UdpDatagram) (question : DnsQuestion) (end : ℕ)
      → All IsByte packet
      → parse_ipv4_udp packet ≡ found d
      → d.dst_port ≡ 53
      → parse_query_with_end d.payload ≡ found (question, end)
      → resolve to_ascii registrable under_private_suffix shield question.name ≡ block
      → (reply : Bytes) × (inspect to_ascii registrable under_private_suffix shield packet
          ≡ found (blocked question.name reply))
        × IsReply d end reply
  unfolding inspect verdict
  inspect-IsReply packet d question end bytes framed port parsed action =
      let ok = Safe-found _ _ (parse_ipv4_udp-IsBounded packet bytes) framed in
      let (reply, sent, good) = blocked_reply-IsReply packet d ok parsed in
      (reply, ground (arith, framed, port, parse_query_found d.payload parsed, action, sent), good)

  -- A query for any other name is forwarded, its payload unchanged.
  pub inspect-forward :
      (packet : Bytes) (d : Ipv4UdpDatagram) (question : DnsQuestion) (end : ℕ)
      → parse_ipv4_udp packet ≡ found d
      → d.dst_port ≡ 53
      → parse_query_with_end d.payload ≡ found (question, end)
      → resolve to_ascii registrable under_private_suffix shield question.name ≢ block
      → inspect to_ascii registrable under_private_suffix shield packet
        ≡ found (forward question.name d.payload)
  unfolding inspect verdict
  inspect-forward packet d question end framed port parsed action =
      let sent = verdict-forward d question.name _ action in
      ground (arith, framed, port, parse_query_found d.payload parsed, sent)

  -- What a verdict says of the packet.
  pub Justified : Bytes → DnsVerdict → Type 0
  Justified packet ignore =
      (d : Ipv4UdpDatagram) (question : DnsQuestion) (end : ℕ)
      → parse_ipv4_udp packet ≡ found d
      → d.dst_port ≡ 53
      → parse_query_with_end d.payload ≢ found (question, end)
  Justified packet (blocked name reply) =
      (d : Ipv4UdpDatagram) × (question : DnsQuestion) × (end : ℕ) × (parse_ipv4_udp packet
        ≡ found d)
      × (d.dst_port ≡ 53)
      × (parse_query_with_end d.payload ≡ found (question, end))
      × (name ≡ question.name)
      × (resolve to_ascii registrable under_private_suffix shield name ≡ block)
      × IsReply d end reply
  Justified packet (forward name query) =
      (d : Ipv4UdpDatagram) × (question : DnsQuestion) × (end : ℕ) × (parse_ipv4_udp packet
        ≡ found d)
      × (d.dst_port ≡ 53)
      × (parse_query_with_end d.payload ≡ found (question, end))
      × (name ≡ question.name)
      × (resolve to_ascii registrable under_private_suffix shield name ≢ block)
      × (query ≡ d.payload)

  Explained : Bytes → Type 0
  Explained packet =
      (v : DnsVerdict) × (inspect to_ascii registrable under_private_suffix shield packet ≡ found v)
      × Justified packet v

  no_packet : (packet : Bytes) → parse_ipv4_udp packet ≡ missing → Explained packet
  unfolding inspect Explained Justified
  no_packet packet e = (ignore, rw e, λ d question end found_it. cc)

  other_port :
      (packet : Bytes) (d : Ipv4UdpDatagram)
      → parse_ipv4_udp packet ≡ found d
      → (d.dst_port == 53) ≡ false
      → Explained packet
  unfolding inspect Explained Justified
  other_port packet d e port = (
    ignore,
    rw (e, port),
    λ d' question end framed at_53 parsed. ground (arith, e, framed, at_53, port),
  )

  no_query :
      (packet : Bytes) (d : Ipv4UdpDatagram)
      → parse_ipv4_udp packet ≡ found d
      → d.dst_port ≡ 53
      → parse_query_with_end d.payload ≡ missing
      → Explained packet
  unfolding inspect Explained Justified parse_query
  no_query packet d e port nothing = (
    ignore,
    ground (arith, e, port, nothing),
    λ d' question end framed at_53 parsed. ground (arith, e, framed, nothing, parsed),
  )

  query_found :
      (packet : Bytes) (d : Ipv4UdpDatagram) (question : DnsQuestion) (end : ℕ)
      → All IsByte packet
      → parse_ipv4_udp packet ≡ found d
      → d.dst_port ≡ 53
      → parse_query_with_end d.payload ≡ found (question, end)
      → Explained packet
  unfolding Explained Justified
  query_found packet d question end bytes framed port parsed =
      elim (is_block (resolve to_ascii registrable under_private_suffix shield question.name)) [
        | inl blocks ↦
            let (reply, out, good) =
              inspect-IsReply packet d question end bytes framed port parsed blocks in
            (
              blocked question.name reply,
              out,
              (d, question, end, framed, port, parsed, refl, blocks, good),
            )
        | inr other ↦ (
          forward question.name d.payload,
          inspect-forward packet d question end framed port parsed other,
          (d, question, end, framed, port, parsed, refl, other, refl),
        )
      ]

  datagram_found :
      (packet : Bytes) (d : Ipv4UdpDatagram)
      → All IsByte packet
      → parse_ipv4_udp packet ≡ found d
      → Explained packet
  datagram_found packet d bytes framed = elim (Bool-cases (d.dst_port == 53)) [
    | inr other ↦ other_port packet d framed other
    | inl dns ↦
        let port = ==→eq d.dst_port 53 dns in
        elim (Outcome-cases (parse_query_with_end d.payload)) [
          | inl ((question, end), parsed) ↦
              query_found packet d question end bytes framed port parsed
          | inr (inl nothing) ↦ no_query packet d framed port nothing
          | inr (inr panic) ↦
              absurd (Safe-ne-panicked _ _ (parse_query_with_end-EndsIn d.payload) panic)
        ]
  ]

  -- Every packet of bytes gets a verdict, without a panic. A blocked name is one that a query of the
  -- packet to port 53 asks for and that the rules block, and the reply is a refusal of this query,
  -- addressed back to the client; a forwarded name is one that such a query asks for and the rules do
  -- not block, and the forwarded bytes are the payload; an ignored packet holds no query to port 53.
  pub inspect-Justified :
      (packet : Bytes)
      → All IsByte packet
      → (v : DnsVerdict) × (inspect to_ascii registrable under_private_suffix shield packet
          ≡ found v)
        × Justified packet v
  unfolding Explained
  inspect-Justified packet bytes = elim (Outcome-cases (parse_ipv4_udp packet)) [
    | inl (d, framed) ↦ datagram_found packet d bytes framed
    | inr (inl nothing) ↦ no_packet packet nothing
    | inr (inr panic) ↦ absurd (Safe-ne-panicked _ _ (parse_ipv4_udp-IsBounded packet bytes) panic)
  ]

  -- A name that normalizes to an entry of the allowlist, or to a name below one, is allowed whatever
  -- the other rules and the blocklist say.
  pub resolve-allowed :
      (name normalized : Bytes)
      → normalize to_ascii name ≡ key normalized
      → (member normalized shield.allowlist ≡ true) ⊎ Below shield.allowlist normalized
      → resolve to_ascii registrable under_private_suffix shield name ≡ allow
  unfolding resolve resolve_normalized
  resolve-allowed name normalized e listed =
      let wins =
        resolve_action-allowed registrable under_private_suffix normalized shield.allowlist
          shield.explicit shield.keywords none listed in
      ground (arith, e, wins)
