-- ===== src/NetShield/Cidr/Longest.antt =====
-- The linear scan over the sorted entries finds the longest prefix.
use holy_blocker.NetShield.Radix.{FilterAction, proxy}
use holy_blocker.NetShield.Cidr.{
  leb, some, ◌∷◌, none, if◌then◌else◌, Option, List, ℕ, IpAddr, CidrEntry, ip_to_u128, insert_entry,
  sort_entries, matches, scan, lookup,
}
use holy_blocker.Shared.{
  leb→gt, inr, leb→le, refl, inl, [], ◌∙◌, Option-cases, Bool-cases, arith, ◌&&◌, ◌≡◌, All, ◌≤◌,
}

-- An entry against the best of the entries behind it.
unfoldable pub prefer : ℕ → CidrEntry → Option CidrEntry → Option CidrEntry
prefer bits e none = if matches bits e then some e else none
prefer bits e (some b) = if matches bits e && leb b.prefix_len e.prefix_len then some e else some b

-- The first of the entries with the greatest prefix length among those that match.
unfoldable pub longest : ℕ → List CidrEntry → Option CidrEntry
longest bits [] = none
longest bits (e ∷ es) = prefer bits e (longest bits es)

first_match : ℕ → List CidrEntry → Option CidrEntry
first_match bits [] = none
first_match bits (e ∷ es) = if matches bits e then some e else first_match bits es

abbrev AtMost : ℕ → CidrEntry → Type 0
AtMost n e = e.prefix_len ≤ n

IsSorted : List CidrEntry → Type 0
IsSorted [] = Unit
IsSorted (e ∷ es) = All (AtMost e.prefix_len) es × IsSorted es

insert_entry-All :
    (n : ℕ) (e : CidrEntry) (es : List CidrEntry)
    → e.prefix_len ≤ n
    → All (AtMost n) es
    → All (AtMost n) (insert_entry e es)
unfolding insert_entry
insert_entry-All n e [] h k = (h, tt)
insert_entry-All n e (x ∷ xs) h k = ground (arith, insert_entry-All n e xs h k.1)

AtMost-mono : (m n : ℕ) (es : List CidrEntry) → m ≤ n → All (AtMost m) es → All (AtMost n) es
AtMost-mono m n [] h k = tt
AtMost-mono m n (x ∷ xs) h k = (omega (arith, k.0), AtMost-mono m n xs h k.1)

insert_entry-IsSorted :
    (e : CidrEntry) (es : List CidrEntry) → IsSorted es → IsSorted (insert_entry e es)
unfolding insert_entry IsSorted
insert_entry-IsSorted e [] h = (tt, tt)
insert_entry-IsSorted e (x ∷ xs) h = elim (Bool-cases (leb x.prefix_len e.prefix_len)) [
  | inl le ↦
      let below = leb→le x.prefix_len e.prefix_len le in
      rw le ((below, AtMost-mono x.prefix_len e.prefix_len xs below h.0), h)
  | inr gt ↦ rw gt (
    insert_entry-All x.prefix_len e xs (omega (arith, leb→gt _ _ gt)) h.0,
    insert_entry-IsSorted e xs h.1,
  )
]

first_match-AtMost :
    (bits n : ℕ) (es : List CidrEntry) {b : CidrEntry}
    → All (AtMost n) es
    → first_match bits es ≡ some b
    → b.prefix_len ≤ n
unfolding first_match
first_match-AtMost bits n [] h e = cc
first_match-AtMost bits n (x ∷ xs) {b} h e =
    ground (arith, first_match-AtMost bits n xs {b = b} h.1)

first_match-insert_entry :
    (bits : ℕ) (e : CidrEntry) (es : List CidrEntry)
    → IsSorted es
    → first_match bits (insert_entry e es) ≡ prefer bits e (first_match bits es)
unfolding first_match insert_entry prefer IsSorted
first_match-insert_entry bits e [] h = refl
first_match-insert_entry bits e (x ∷ xs) h = elim (Option-cases (first_match bits xs)) [
  | inl none_left ↦ ground (arith, none_left, first_match-insert_entry bits e xs h.1)
  | inr (b, found_b) ↦ ground (
    arith,
    found_b,
    first_match-AtMost bits x.prefix_len xs h.0 found_b,
    first_match-insert_entry bits e xs h.1,
  )
]

sort_entries-IsSorted : (es : List CidrEntry) → IsSorted (sort_entries es)
unfolding sort_entries
sort_entries-IsSorted [] = unfold IsSorted in tt
sort_entries-IsSorted (e ∷ es) =
    insert_entry-IsSorted e (sort_entries es) (sort_entries-IsSorted es)

first_match-longest :
    (bits : ℕ) (es : List CidrEntry) → first_match bits (sort_entries es) ≡ longest bits es
unfolding sort_entries longest
first_match-longest bits [] = unfold first_match in refl
first_match-longest bits (e ∷ es) =
    first_match-insert_entry bits e (sort_entries es) (sort_entries-IsSorted es)
    ∙ rw (first_match-longest bits es)

-- The action of an entry, or the default.
abbrev pub action_or_proxy : Option CidrEntry → FilterAction
action_or_proxy none = proxy
action_or_proxy (some e) = e.action

scan-first_match :
    (bits : ℕ) (es : List CidrEntry) → scan bits es ≡ action_or_proxy (first_match bits es)
unfolding scan first_match
scan-first_match bits [] = refl
scan-first_match bits (e ∷ es) = ground (arith, scan-first_match bits es)

-- The lookup in the sorted entries gives the action of the matching entry with the greatest prefix
-- length, of several the one that stands first in the rules, and `proxy` where none matches.
pub lookup-longest :
    (es : List CidrEntry) (addr : IpAddr)
    → lookup (sort_entries es) addr ≡ action_or_proxy (longest (ip_to_u128 addr) es)
unfolding lookup
lookup-longest es addr =
    scan-first_match (ip_to_u128 addr) (sort_entries es)
    ∙ rw (first_match-longest (ip_to_u128 addr) es)
