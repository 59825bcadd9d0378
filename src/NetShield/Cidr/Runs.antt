-- ===== src/NetShield/Cidr/Runs.antt =====
-- The rule 10.0.0.0/8 and the address 10.1.2.3, and the rules of one list.
use holy_blocker.NetShield.Cidr.Match.{IsAddr}
use holy_blocker.NetShield.Radix.{block, allow}
use holy_blocker.NetShield.Cidr.Longest.{lookup-longest, longest, prefer}
use holy_blocker.NetShield.Cidr.{
  ℕ, sort_entries, lookup, [], shl_ones, mask_of, CidrEntry, ip_to_u128, v4, entry_of, matches,
  IpAddr,
}
use holy_blocker.Shared.{arith, ◌^◌, ◌/◌, ◌⊎◌, ◌↔◌, true, ◌∷◌, ◌≡◌, List}
use holy_blocker.NetShield.Cidr.Match.{IsAddr, matches-entry_of}

abbrev net : IpAddr
net = v4 167772160

abbrev host : IpAddr
host = v4 167838211

matches-entry_of_example :
    (matches (ip_to_u128 host) (entry_of net 8 block) ≡ true)
    ↔ ((◌≡◌ {A = ℕ} 8 0) ⊎ (ip_to_u128 host / 2 ^ 24 ≡ ip_to_u128 net / 2 ^ 24))
matches-entry_of_example =
    matches-entry_of net host 8 block (unfold IsAddr in omega arith) (unfold IsAddr in omega arith)
      (omega arith)

abbrev entries : List CidrEntry
entries = entry_of net 8 block ∷ entry_of host 32 allow ∷ []

lookup-longest_example : lookup (sort_entries entries) host ≡ allow
unfolding longest entry_of mask_of shl_ones ip_to_u128 prefer
lookup-longest_example = lookup-longest entries host
