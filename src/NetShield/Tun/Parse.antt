-- ===== src/NetShield/Tun/Parse.antt =====
-- Parsing a packet for the filter loop: what is read and what cannot panic.
use holy_blocker.Shared.{
  ◌∙◌, sym, ap, ◌-◌, take, ◌>>=◌, ◌≢◌, missing, zero, refl, suc, length-drop, drop, ◌≡◌, ◌≤◌, Safe,
  ◌<◌, Outcome, Bytes, ℕ, arith, panicked,
}
use holy_blocker.Shared.Buffer.{get_slice, slice-Safe, u16_at-Safe, byte_at-Safe, first, byte_at}
use holy_blocker.NetShield.Tun.{
  extract_sni, ◌∷◌, [], found, length, get_from, or_parse, ports_at, RawPacket, ports, parse_packet,
  parse_ipv6_packet, parse_ipv4_packet,
}
use holy_blocker.NetShield.Sni.Safety.{extract_sni-ne-panicked}

drop_past : (i : ℕ) (buf : Bytes) → length buf ≤ i → drop i buf ≡ []
drop_past zero [] h = refl
drop_past (suc i) [] h = refl
drop_past zero (b ∷ buf) h = absurd (omega arith)
drop_past (suc i) (b ∷ buf) h = drop_past i buf (omega arith)

pub byte_at-past : (buf : Bytes) (i : ℕ) → length buf ≤ i → byte_at buf i ≡ panicked
unfolding byte_at
byte_at-past buf i h = rw (drop_past i buf h)

first-found : (xs : Bytes) → 0 < length xs → (b : ℕ) × (first xs ≡ found b)
first-found [] h = absurd (omega arith)
first-found (x ∷ xs) h = (x, refl)

pub byte_at-found : (buf : Bytes) (i : ℕ) → i < length buf → (b : ℕ) × (byte_at buf i ≡ found b)
unfolding byte_at
byte_at-found buf i h = first-found (drop i buf) (omega (arith, length-drop i buf))

ports-Safe : (buf : Bytes) (protocol start : ℕ) → Safe (λ _. Unit {0}) (ports buf protocol start)
unfolding ports ports_at
ports-Safe buf protocol start = grind (arith, u16_at-Safe)

-- A packet that parses is kept whole, and is longer than the shortest header.
unfoldable pub Kept : Bytes → RawPacket → Type 0
Kept raw pkt = (pkt.bytes ≡ raw) × (20 ≤ length raw)

parse_ipv4_packet-Kept : (raw : Bytes) → Safe (Kept raw) (parse_ipv4_packet raw)
unfolding parse_ipv4_packet Kept
parse_ipv4_packet-Kept raw = grind (arith, byte_at-Safe, slice-Safe, ports-Safe)

parse_ipv6_packet-Kept : (raw : Bytes) → Safe (Kept raw) (parse_ipv6_packet raw)
unfolding parse_ipv6_packet Kept
parse_ipv6_packet-Kept raw = grind (arith, byte_at-Safe, slice-Safe, ports-Safe)

or_parse-Safe {ℓ} :
    {A : Type ℓ} (P : A → Type 0) (m n : Outcome A) → Safe P m → Safe P n → Safe P (or_parse m n)
or_parse-Safe P (found a) n h k = h
or_parse-Safe P missing n h k = k
or_parse-Safe P panicked n h k = h

pub parse_packet-Kept : (raw : Bytes) → Safe (Kept raw) (parse_packet raw)
unfolding parse_packet
parse_packet-Kept raw =
    or_parse-Safe (Kept raw) (parse_ipv4_packet raw) (parse_ipv6_packet raw)
      (parse_ipv4_packet-Kept raw) (parse_ipv6_packet-Kept raw)

pub take-all : (xs : Bytes) → take (length xs) xs ≡ xs
take-all [] = refl
take-all (x ∷ xs) = ap (λ t. x ∷ t) (take-all xs)

pub sni_of-ne-panicked : (raw : Bytes) (start : ℕ) → (get_from raw start >>= extract_sni) ≢ panicked
unfolding get_from get_slice
sni_of-ne-panicked raw start =
    ground (arith, extract_sni-ne-panicked (take (length raw - start) (drop start raw)))

pub get_from-drop :
    (raw : Bytes) (start : ℕ) → start ≤ length raw → get_from raw start ≡ found (drop start raw)
unfolding get_from get_slice
get_from-drop raw start h =
    let whole : take (length raw - start) (drop start raw) ≡ drop start raw =
      ap (λ n. take n (drop start raw)) (sym (length-drop start raw)) ∙ take-all (drop start raw) in
    ground (arith, whole)

pub get_from-past : (raw : Bytes) (start : ℕ) → length raw < start → get_from raw start ≡ missing
unfolding get_from get_slice
get_from-past raw start h = ground arith
