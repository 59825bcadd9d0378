-- ===== src/NetShield/Radix.antt =====
-- packages/net-shield/src/radix.rs, the domain rules: a trie of labels with the top-level domain
-- first. A HashMap is an association list in which an entry is replaced where it stands.
pub mod Longest
mod Runs
use holy_blocker.Shared.Texts.{split_dots}
use holy_blocker.Shared.{[], text_eq, ◌∷◌, reverse, some, if◌then◌else◌, List, Bytes, none, Option}

pub data FilterAction : Type 0 where
  block allow proxy : FilterAction

mutual
  pub data TrieNode : Type 0 where
    node : Option FilterAction → Children → TrieNode

  pub data Children : Type 0 where
    no_child : Children
    child : Bytes → TrieNode → Children → Children

-- `TrieNode::default()`
abbrev pub empty : TrieNode
empty = node none no_child

abbrev pub action_at : TrieNode → Option FilterAction
action_at (node action children) = action

abbrev pub children_of : TrieNode → Children
children_of (node action children) = children

-- `children.get(label)`
get_child : Bytes → Children → Option TrieNode
get_child label no_child = none
get_child label (child key t more) = if text_eq key label then some t else get_child label more

-- `children.entry(label).or_default()`, changed by `f`.
change_child : Bytes → (TrieNode → TrieNode) → Children → Children
change_child label f no_child = child label (f empty) no_child
change_child label f (child key t more) =
    if text_eq key label then child key (f t) more else child key t (change_child label f more)

-- The loop of `insert` over the labels from the top-level domain down.
insert_labels : List Bytes → FilterAction → TrieNode → TrieNode
insert_labels [] a (node action children) = node (some a) children
insert_labels (label ∷ labels) a (node action children) =
    node action (change_child label (insert_labels labels a) children)

pub insert : Bytes → FilterAction → TrieNode → TrieNode
insert domain a root = insert_labels (reverse (split_dots domain)) a root

abbrev pub Rules : Type 0
Rules = List (Bytes × FilterAction)

-- `DomainFilter::from_rules`, from the filter built so far.
insert_rules : Rules → TrieNode → TrieNode
insert_rules [] root = root
insert_rules ((domain, a) ∷ rules) root = insert_rules rules (insert domain a root)

pub from_rules : Rules → TrieNode
from_rules rules = insert_rules rules empty

-- `if let Some(a) = &child.action { last_match = Some(a) }`
abbrev pub or_else {ℓ} : {A : Type ℓ} → Option A → Option A → Option A
or_else (some a) last = some a
or_else none last = last

-- The loop of `rule_for`.
walk : List Bytes → TrieNode → Option FilterAction → Option FilterAction
walk [] t last = last
walk (label ∷ labels) t last = elim (get_child label (children_of t)) [
  | none ↦ last
  | some c ↦ walk labels c (or_else (action_at c) last)
]

pub rule_for : TrieNode → Bytes → Option FilterAction
rule_for root domain = walk (reverse (split_dots domain)) root none

-- `unwrap_or(FilterAction::Proxy)`
abbrev pub or_proxy : Option FilterAction → FilterAction
or_proxy none = proxy
or_proxy (some a) = a

pub lookup : TrieNode → Bytes → FilterAction
lookup root domain = or_proxy (rule_for root domain)
