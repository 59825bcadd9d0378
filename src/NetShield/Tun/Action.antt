-- ===== src/NetShield/Tun/Action.antt =====
-- The action that the filter loop comes to for a packet that parses, and where it panics instead.
use holy_blocker.NetShield.Radix
use holy_blocker.NetShield.Cidr
use holy_blocker.Shared.{
  drop, ◌%◌, ◌>>=◌, ◌≢◌, Outcome-cases, leb→gt, leb→le, inr, inl, Bool-cases, Safe-found, ◌&&◌,
  ◌==◌, ◌⊎◌, ◌/◌, missing, ◌*◌, ◌+◌, refl, ◌≡◌, ◌≤◌, ◌<◌, Bytes, ℕ, arith, panicked,
}
use holy_blocker.Shared.Buffer.{first, byte_at}
use holy_blocker.NetShield.Tun.{
  extract_sni, Outcome, leb, false, found, length, NetShield, action_of, https_action, bit_and,
  get_from, by_name, RawPacket, parse_packet,
}
use holy_blocker.Shared.Bits.{bit_and-low}
use holy_blocker.NetShield.Radix.{FilterAction, block, allow, proxy}
use holy_blocker.NetShield.Tun.Parse.{
  get_from-past, get_from-drop, sni_of-ne-panicked, Kept, byte_at-found, parse_packet-Kept,
  byte_at-past,
}

-- The lowest bits of the first byte, in words of four bytes.
abbrev pub ihl_of : ℕ → ℕ
ihl_of first = bit_and first 0x0f * 4

-- A TCP packet to port 443 that ends at or before the offset byte of the TCP header.
pub record IsCut (raw : Bytes) : Type 0 where
  pub pkt : RawPacket
  pub parsed : parse_packet raw ≡ found pkt
  pub tcp : pkt.protocol ≡ 6
  pub https : pkt.dst_port ≡ 443
  pub first : ℕ
  pub starts : byte_at raw 0 ≡ found first
  pub cut : length raw ≤ ihl_of first + 12

-- Where the TCP payload of a packet begins: the lengths of its headers are read from the first byte
-- and from the offset byte.
pub record PayloadStart (raw : Bytes) (start : ℕ) : Type 0 where
  pub first : ℕ
  pub starts : byte_at raw 0 ≡ found first
  pub offset : ℕ
  pub at : byte_at raw (first % 16 * 4 + 12) ≡ found offset
  pub sum : start ≡ first % 16 * 4 + offset / 16 * 4

-- Whether the TCP payload carries a server name; a packet that ends before its payload carries none.
pub IsNamed : Bytes → Bytes → Type 0
IsNamed raw hostname =
    (start : ℕ) × PayloadStart raw start
    × (start ≤ length raw)
    × (extract_sni (drop start raw) ≡ found hostname)

pub IsUnnamed : Bytes → Type 0
IsUnnamed raw =
    (start : ℕ) × PayloadStart raw start
    × ((length raw < start) ⊎ (extract_sni (drop start raw) ≡ missing))

-- The action for a packet: TCP to port 443 goes by the domain rules where a server name is found and
-- by the address rules where none is, TCP to port 80 goes by the address rules, and the rest passes.
pub Chosen : NetShield → Bytes → RawPacket → FilterAction → Type 0
Chosen shield raw pkt action =
    ((pkt.protocol ≡ 6)
      × (pkt.dst_port ≡ 443)
      × (((hostname : Bytes) × IsNamed raw hostname
            × (action ≡ Radix.lookup shield.domain_filter hostname))
          ⊎ (IsUnnamed raw × (action ≡ Cidr.lookup shield.ip_filter pkt.dst_ip))))
    ⊎ (((pkt.protocol ≡ 6)
          × (pkt.dst_port ≡ 80)
          × (action ≡ Cidr.lookup shield.ip_filter pkt.dst_ip))
        ⊎ (((pkt.protocol ≢ 6) ⊎ ((pkt.dst_port ≢ 443) × (pkt.dst_port ≢ 80))) × (action ≡ allow)))

-- The action that the code comes to, and that it is the one to choose.
unfoldable pub IsDecided : NetShield → RawPacket → Bytes → Outcome FilterAction → Type 0
IsDecided shield pkt raw m =
    (action : FilterAction) × (m ≡ found action) × Chosen shield raw pkt action

payload_start :
    (raw : Bytes) (first offset : ℕ)
    → byte_at raw 0 ≡ found first
    → byte_at raw (ihl_of first + 12) ≡ found offset
    → PayloadStart raw (ihl_of first + offset / 16 * 4)
payload_start raw first offset e at =
    let low : bit_and first 0x0f ≡ first % 16 = bit_and-low 4 first in
    record { first = first; starts = e; offset = offset; at = rw low at at; sum = rw low refl }

sni_of-IsNamed :
    (raw : Bytes) (start : ℕ) {hostname : Bytes}
    → PayloadStart raw start
    → (get_from raw start >>= extract_sni) ≡ found hostname
    → IsNamed raw hostname
unfolding IsNamed
sni_of-IsNamed raw start begins e = elim (Bool-cases (leb start (length raw))) [
  | inl inside ↦
      let inside = leb→le start (length raw) inside in
      (start, begins, inside, rw (get_from-drop raw start inside) at e)
  | inr past ↦ cc (rw (get_from-past raw start (leb→gt start (length raw) past)) at e)
]

sni_of-IsUnnamed :
    (raw : Bytes) (start : ℕ)
    → PayloadStart raw start
    → (get_from raw start >>= extract_sni) ≡ missing
    → IsUnnamed raw
unfolding IsUnnamed
sni_of-IsUnnamed raw start begins e = elim (Bool-cases (leb start (length raw))) [
  | inl inside ↦
      (start, begins, inr (rw (get_from-drop raw start (leb→le start (length raw) inside)) at e))
  | inr past ↦ (start, begins, inl (leb→gt start (length raw) past))
]

https_action-IsDecided :
    (shield : NetShield) (pkt : RawPacket) (raw : Bytes) (first : ℕ)
    → pkt.protocol ≡ 6
    → pkt.dst_port ≡ 443
    → byte_at raw 0 ≡ found first
    → ihl_of first + 12 < length raw
    → IsDecided shield pkt raw (https_action shield pkt raw)
unfolding https_action IsDecided Chosen by_name
https_action-IsDecided shield pkt raw first tcp https e long =
    let (offset, at) = byte_at-found raw (ihl_of first + 12) long in
    let start : ℕ = ihl_of first + offset / 16 * 4 in
    let begins : PayloadStart raw start = payload_start raw first offset e at in
    elim (Outcome-cases (get_from raw start >>= extract_sni)) [
      | inl (hostname, named) ↦ (
        Radix.lookup shield.domain_filter hostname,
        rw (e, at, named),
        inl (tcp, https, inl (hostname, sni_of-IsNamed raw start begins named, refl)),
      )
      | inr (inl unnamed) ↦ (
        Cidr.lookup shield.ip_filter pkt.dst_ip,
        rw (e, at, unnamed),
        inl (tcp, https, inr (sni_of-IsUnnamed raw start begins unnamed, refl)),
      )
      | inr (inr panic) ↦ absurd (sni_of-ne-panicked raw start panic)
    ]

other_action :
    (shield : NetShield) (pkt : RawPacket) (raw : Bytes)
    → (pkt.protocol == 6 && pkt.dst_port == 443) ≡ false
    → IsDecided shield pkt raw (action_of shield pkt raw)
unfolding action_of IsDecided Chosen
other_action shield pkt raw other = elim (Bool-cases (pkt.protocol == 6 && pkt.dst_port == 80)) [
  | inl web ↦ (
    Cidr.lookup shield.ip_filter pkt.dst_ip,
    rw (other, web),
    inr (inl (ground (arith, web), ground (arith, web), refl)),
  )
  | inr rest ↦ (allow, rw (other, rest), inr (inr (neither other rest, refl)))
]
  where
    neither :
        (pkt.protocol == 6 && pkt.dst_port == 443) ≡ false
        → (pkt.protocol == 6 && pkt.dst_port == 80) ≡ false
        → (pkt.protocol ≢ 6) ⊎ ((pkt.dst_port ≢ 443) × (pkt.dst_port ≢ 80))
    neither other rest = elim (Bool-cases (pkt.protocol == 6)) [
      | inl tcp ↦ inr (ground (arith, tcp, other), ground (arith, tcp, rest))
      | inr no_tcp ↦ inl (ground (arith, no_tcp))
    ]

pub action_of-cases :
    (shield : NetShield) (raw : Bytes) (pkt : RawPacket)
    → parse_packet raw ≡ found pkt
    → IsCut raw ⊎ IsDecided shield pkt raw (action_of shield pkt raw)
unfolding action_of Kept IsDecided
action_of-cases shield raw pkt parsed =
    let long = (Safe-found _ _ (parse_packet-Kept raw) parsed).1 in
    let (first, starts) = byte_at-found raw 0 (omega (arith, long)) in
    elim (Bool-cases (pkt.protocol == 6 && pkt.dst_port == 443)) [
      | inr other ↦ inr (other_action shield pkt _ other)
      | inl tls ↦ elim (Bool-cases (leb (length raw) (ihl_of first + 12))) [
        | inl short ↦ inl (record {
          pkt = pkt;
          parsed = parsed;
          tcp = ground (arith, tls);
          https = ground (arith, tls);
          first = first;
          starts = starts;
          cut = leb→le (length raw) (ihl_of first + 12) short;
        })
        | inr long ↦
            let (action, e, chosen) =
              https_action-IsDecided shield pkt raw first (ground (arith, tls))
                (ground (arith, tls)) starts (leb→gt (length raw) (ihl_of first + 12) long) in
            inr (action, rw (tls, e), chosen)
      ]
    ]

pub cut_action :
    (shield : NetShield) (raw : Bytes) (c : IsCut raw) → action_of shield c.pkt raw ≡ panicked
unfolding action_of https_action
cut_action shield raw c =
    ground (arith, c.tcp, c.https, c.starts, byte_at-past raw (ihl_of c.first + 12) c.cut)
