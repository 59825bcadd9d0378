-- ===== src/NetShield/Tun/Packet.antt =====
-- The step of the filter loop on one packet.
use holy_blocker.NetShield.Radix
use holy_blocker.Shared.{
  ◌%◌, drop-append_len, length-append, ◌++◌, Safe-ne-panicked, ◌↔◌, Outcome-cases, inr, inl, ◌⊎◌,
  ◌/◌, missing, ◌*◌, ◌+◌, refl, ◌≡◌, Bytes, ℕ, arith, panicked,
}
use holy_blocker.Shared.Buffer.{get_slice, first, byte_at}
use holy_blocker.NetShield.Tun.{
  parse_ipv4_packet, dispatch, true, process_parsed, false, Bool, process_packet, PacketSink, found,
  length, NetShield, action_of, https_action, bit_and, get_from, by_name, RawPacket, parse_packet,
}
use holy_blocker.NetShield.Radix.{FilterAction, block, allow, proxy}
use holy_blocker.NetShield.Sni.ClientHello.{
  extract_sni-record_bytes, record_bytes, IsSendable, Hello,
}
use holy_blocker.NetShield.Tun.Action.{IsCut, Chosen, IsDecided, action_of-cases, cut_action}
use holy_blocker.NetShield.Tun.Parse.{take-all, parse_packet-Kept}
use holy_blocker.Shared.Bits.{bit_and-low}

module _ {ℓ} {S : Type ℓ} (shield : NetShield) (sink : PacketSink S) (proxy_port : ℕ) where
  IsCut-panicked :
      (raw : Bytes) (s : S) → IsCut raw → process_packet shield raw sink proxy_port s ≡ panicked
  unfolding process_packet process_parsed
  IsCut-panicked raw s c = rw (c.parsed, cut_action shield raw c)

  -- The one call of the sink that an action asks for, and the state that it leaves.
  pub Called : FilterAction → RawPacket → S → S → Type ℓ
  Called block pkt s after = after ≡ sink.drop_packet pkt s
  Called allow pkt s after = after ≡ sink.pass_packet pkt s
  Called proxy pkt s after = after ≡ sink.redirect_to_proxy pkt proxy_port s

  dispatch-Called :
      (action : FilterAction) (pkt : RawPacket) (s : S)
      → Called action pkt s (dispatch sink pkt action proxy_port s)
  unfolding Called dispatch
  dispatch-Called block pkt s = refl
  dispatch-Called allow pkt s = refl
  dispatch-Called proxy pkt s = refl

  -- What a step did: nothing where the packet does not parse, and otherwise the call of the sink for
  -- the action to choose.
  pub Stepped : Bytes → S → Bool × S → Type ℓ
  Stepped raw s (handled, after) =
      ((parse_packet raw ≡ missing) × (handled ≡ false) × (after ≡ s))
      ⊎ ((pkt : RawPacket) × (action : FilterAction) × (parse_packet raw ≡ found pkt)
          × Chosen shield raw pkt action
          × (handled ≡ true)
          × Called action pkt s after)

  parsed-Stepped :
      (raw : Bytes) (s : S) (pkt : RawPacket)
      → parse_packet raw ≡ found pkt
      → IsCut raw
        ⊎ ((r : Bool × S) × (process_packet shield raw sink proxy_port s ≡ found r)
            × Stepped raw s r)
  unfolding Stepped IsDecided process_packet process_parsed
  parsed-Stepped raw s pkt parsed = elim (action_of-cases shield raw pkt parsed) [
    | inl c ↦ inl c
    | inr (action, e, chosen) ↦ inr (
      (true, dispatch sink pkt action proxy_port s),
      rw (parsed, e),
      inr (pkt, action, parsed, chosen, refl, dispatch-Called action pkt s),
    )
  ]

  step-cases :
      (raw : Bytes) (s : S)
      → IsCut raw
        ⊎ ((r : Bool × S) × (process_packet shield raw sink proxy_port s ≡ found r)
            × Stepped raw s r)
  unfolding Stepped process_packet process_parsed
  step-cases raw s = elim (Outcome-cases (parse_packet raw)) [
    | inl (pkt, parsed) ↦ parsed-Stepped raw s pkt parsed
    | inr (inl e) ↦ inr ((false, s), rw e, inl (e, refl, refl))
    | inr (inr panic) ↦ absurd (Safe-ne-panicked _ _ (parse_packet-Kept raw) panic)
  ]

  -- A step panics exactly on a TCP packet to port 443 that ends at or before the byte with the
  -- length of its TCP header; the IP header is measured by the low bits of the first byte, for both
  -- versions.
  pub process_packet-IsCut :
      (raw : Bytes) (s : S) → (process_packet shield raw sink proxy_port s ≡ panicked) ↔ IsCut raw
  process_packet-IsCut raw s =
      (λ h. elim (step-cases raw s) [ inl c ↦ c | inr (r, e, done) ↦ cc ], IsCut-panicked raw s)

  -- On every packet but a TCP packet to port 443 that ends at or before the byte with the length of its
  -- TCP header, a step leaves the sink alone and gives false where the packet does not parse. Where it
  -- parses, a step gives true after one call of the sink for the parsed packet: `drop_packet` to block,
  -- `pass_packet` to allow, `redirect_to_proxy` to proxy. TCP to port 443 goes by the domain rules for
  -- the server name in its payload, and by the address rules for the destination where the payload has
  -- none; the payload begins where the low four bits of the first byte, for IPv6 too, and the offset
  -- byte of TCP put it. TCP to port 80 goes by the address rules; every other packet is allowed.
  pub process_packet-Stepped :
      (raw : Bytes) (s : S)
      → ¬ IsCut raw
      → (r : Bool × S) × (process_packet shield raw sink proxy_port s ≡ found r) × Stepped raw s r
  process_packet-Stepped raw s whole = elim (step-cases raw s) [
    | inl c ↦ absurd (whole c)
    | inr r ↦ r
  ]

  -- In an IPv4 packet to TCP port 443, a TLS ClientHello that follows the IP header, of the length in
  -- the first byte, and the TCP header, of the length in its offset byte, is decided by the domain
  -- rules for the host name that it carries, whatever the address rules say: a step makes the call of
  -- the sink for their action and gives true.
  pub process_packet-hostname :
      (front : Bytes) (major minor : ℕ) (h : Hello) (rest : Bytes) (pkt : RawPacket)
      (first offset : ℕ) (s : S)
      → IsSendable h
      → parse_ipv4_packet (front ++ record_bytes major minor h rest) ≡ found pkt
      → pkt.protocol ≡ 6
      → pkt.dst_port ≡ 443
      → byte_at (front ++ record_bytes major minor h rest) 0 ≡ found first
      → byte_at (front ++ record_bytes major minor h rest) (first % 16 * 4 + 12) ≡ found offset
      → length front ≡ first % 16 * 4 + offset / 16 * 4
      → (after : S) × (process_packet shield
            (front ++ record_bytes major minor h rest)
            sink
            proxy_port
            s
          ≡ found (true, after))
        × Called (Radix.lookup shield.domain_filter h.name) pkt s after
  unfolding process_packet process_parsed action_of https_action by_name get_from get_slice
      parse_packet
  process_packet-hostname front major minor h rest pkt first offset s ok parsed tcp https starts at
        size =
      let payload = record_bytes major minor h rest in
      let action = Radix.lookup shield.domain_filter h.name in
      let low : bit_and first 0x0f ≡ first % 16 = bit_and-low 4 first in
      (
        dispatch sink pkt action proxy_port s,
        ground (
          arith,
          parsed,
          tcp,
          https,
          starts,
          low,
          at,
          length-append front payload,
          drop-append_len front payload,
          take-all payload,
          extract_sni-record_bytes major minor h rest ok,
        ),
        dispatch-Called action pkt s,
      )
