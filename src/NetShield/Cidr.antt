-- ===== src/NetShield/Cidr.antt =====
-- packages/net-shield/src/radix.rs, the address rules: prefixes with masks over 128 bits. Reading an
-- address from text is the parameter `parse_addr`, the `FromStr` of `std::net::IpAddr`.
pub mod Match
pub mod Longest
mod Runs
use mathlib.Core.Option
use holy_blocker.NetShield.Radix.{FilterAction, proxy}
use holy_blocker.Shared.{
  ◌&&◌, ◌+◌, ◌%◌, [], leb, codes, some, none, ◌==◌, ◌*◌, Bool, ◌∷◌, Option, bit_and, if◌then◌else◌,
  ◌^◌, ◌-◌, bit_or, List, Bytes, ℕ,
}

-- `std::net::IpAddr`, as the number that its bytes make.
pub data IpAddr : Type 0 where
  v4 : ℕ → IpAddr
  v6 : ℕ → IpAddr

pub record CidrEntry : Type 0 where
  pub prefix : ℕ
  pub mask : ℕ
  pub action : FilterAction
  pub prefix_len : ℕ

-- IPv4 is mapped into the IPv4-mapped IPv6 space.
unfoldable pub ip_to_u128 : IpAddr → ℕ
ip_to_u128 (v4 v) = bit_or 0xffff_0000_0000 v
ip_to_u128 (v6 v) = v

abbrev pub max_len : IpAddr → ℕ
max_len (v4 v) = 32
max_len (v6 v) = 128

-- The bits in front of an IPv4 address in the mapped representation.
abbrev pub shift : IpAddr → ℕ
shift (v4 v) = 128 - 32
shift (v6 v) = 0

-- `!0u128 << by`
shl_ones : ℕ → ℕ
shl_ones by = (2 ^ 128 - 1) * 2 ^ by % 2 ^ 128

pub mask_of : IpAddr → ℕ → ℕ
mask_of addr prefix_len = if prefix_len == 0 then 0 else shl_ones (128 - (prefix_len + shift addr))

pub entry_of : IpAddr → ℕ → FilterAction → CidrEntry
entry_of addr prefix_len action = record {
  prefix = bit_and (ip_to_u128 addr) (mask_of addr prefix_len);
  mask = mask_of addr prefix_len;
  action = action;
  prefix_len = prefix_len;
}

-- `cidr.split_once('/')`
split_once : Bytes → Option (Bytes × Bytes)
split_once [] = none
split_once (b ∷ text) =
    if b == b'/'
    then some ([], text)
    else Option.map (λ (p : Bytes × Bytes). (b ∷ p.0, p.1)) (split_once text)

-- The digits of `u8::from_str`, `none` on another byte and above 255.
digits_u8 : ℕ → Bytes → Option ℕ
digits_u8 n [] = some n
digits_u8 n (b ∷ text) =
    let next = n * 10 + (b - b'0') in
    let more = digits_u8 next text in
    if leb b'0' b && (leb b b'9' && leb next 255) then more else none

-- `u8::from_str`: an optional plus sign and at least one digit.
parse_u8 : Bytes → Option ℕ
parse_u8 [] = none
parse_u8 (b ∷ []) = digits_u8 0 (b ∷ [])
parse_u8 (b ∷ text) = if b == b'+' then digits_u8 0 text else digits_u8 0 (b ∷ text)

module _ (parse_addr : Bytes → Option IpAddr) where
  -- The branch of a text with a slash; an error is `none`.
  parse_prefix : Bytes → Bytes → FilterAction → Option CidrEntry
  parse_prefix addr_str len_str action = elim (parse_u8 len_str) [
    | none ↦ none
    | some prefix_len ↦ elim (parse_addr addr_str) [
      | none ↦ none
      | some addr ↦
          if leb prefix_len (max_len addr) then some (entry_of addr prefix_len action) else none
    ]
  ]

  -- `format!("{}/32", cidr)` and `format!("{}/128", cidr)`
  abbrev host_len : IpAddr → Bytes
  host_len (v4 v) = codes "32"
  host_len (v6 v) = codes "128"

  -- A bare address is parsed once more with a slash and the length of a host behind it; it has no
  -- slash of its own, so these are its two parts.
  parse_bare : Bytes → FilterAction → Option CidrEntry
  parse_bare cidr action = elim (parse_addr cidr) [
    | none ↦ none
    | some addr ↦ parse_prefix cidr (host_len addr) action
  ]

  pub parse_cidr : Bytes → FilterAction → Option CidrEntry
  parse_cidr cidr action = elim (split_once cidr) [
    | none ↦ parse_bare cidr action
    | some (addr_str, len_str) ↦ parse_prefix addr_str len_str action
  ]

  -- The entries in the order of the rules, or nothing if one of them is in error.
  parse_rules : List (Bytes × FilterAction) → Option (List CidrEntry)
  parse_rules [] = some []
  parse_rules ((cidr, action) ∷ rules) = elim (parse_cidr cidr action) [
    | none ↦ none
    | some entry ↦ Option.map (◌∷◌ entry) (parse_rules rules)
  ]

-- The stable sort by prefix length, the longest first.
insert_entry : CidrEntry → List CidrEntry → List CidrEntry
insert_entry e [] = e ∷ []
insert_entry e (x ∷ xs) =
    if leb x.prefix_len e.prefix_len then e ∷ x ∷ xs else x ∷ insert_entry e xs

pub sort_entries : List CidrEntry → List CidrEntry
sort_entries [] = []
sort_entries (e ∷ es) = insert_entry e (sort_entries es)

pub from_rules : (Bytes → Option IpAddr) → List (Bytes × FilterAction) → Option (List CidrEntry)
from_rules parse_addr rules = Option.map sort_entries (parse_rules parse_addr rules)

-- `bits & entry.mask == entry.prefix`
abbrev pub matches : ℕ → CidrEntry → Bool
matches bits e = bit_and bits e.mask == e.prefix

scan : ℕ → List CidrEntry → FilterAction
scan bits [] = proxy
scan bits (e ∷ es) = if matches bits e then e.action else scan bits es

pub lookup : List CidrEntry → IpAddr → FilterAction
lookup entries addr = scan (ip_to_u128 addr) entries
