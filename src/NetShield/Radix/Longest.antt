-- ===== src/NetShield/Radix/Longest.antt =====
-- The trie refines the list of its rules: the rule with the most labels wins, and of two rules for
-- one name the later.
use holy_blocker.Shared.Texts.{split_dots}
use holy_blocker.NetShield.Radix.{
  reverse, text_eq, some, none, ◌∷◌, Option, Bytes, List, FilterAction, TrieNode, node, Children,
  no_child, child, empty, action_at, children_of, get_child, change_child, insert_labels, insert,
  Rules, insert_rules, from_rules, or_else, walk, rule_for,
}
use holy_blocker.Shared.{
  ◌∙◌, inr, inl, Option-cases, false, text_eq_iff, ◌&&◌, refl, arith, true, [], if◌then◌else◌, ◌≡◌,
  Bool,
}
use mathlib.Core.Path.{fun_ext}

-- Equality of label paths.
unfoldable pub path_eq : List Bytes → List Bytes → Bool
path_eq [] [] = true
path_eq (x ∷ xs) (y ∷ ys) = text_eq x y && path_eq xs ys
path_eq _ _ = false

-- The abstract view of a trie: the rule that stands at a path.
rule_at_path : TrieNode → List Bytes → Option FilterAction
rule_at_path t [] = action_at t
rule_at_path t (label ∷ labels) = elim (get_child label (children_of t)) [
  | none ↦ none
  | some c ↦ rule_at_path c labels
]

rule_at_path-step :
    (t : TrieNode) (label : Bytes) (labels : List Bytes)
    → rule_at_path t (label ∷ labels)
      ≡ elim (get_child label (children_of t)) as (λ _. Option FilterAction) [
        | none ↦ none
        | some c ↦ rule_at_path c labels
      ]
unfolding rule_at_path
rule_at_path-step t label labels = refl

rule_at_path-empty : (path : List Bytes) → rule_at_path empty path ≡ none
unfolding rule_at_path get_child
rule_at_path-empty [] = refl
rule_at_path-empty (label ∷ labels) = refl

get_child-change_child :
    (label key : Bytes) (f : TrieNode → TrieNode) (cs : Children)
    → get_child key (change_child label f cs) ≡ (
        if text_eq label key
        then elim (get_child label cs) [ none ↦ some (f empty) | some c ↦ some (f c) ]
        else get_child key cs)
unfolding get_child change_child
get_child-change_child label key f no_child = ground arith
get_child-change_child label key f (child k t more) = ground (
  arith,
  text_eq_iff k label,
  text_eq_iff label key,
  text_eq_iff k key,
  get_child-change_child label key f more,
)

insert_labels_lem :
    (path : List Bytes) (a : FilterAction) (t : TrieNode) (other : List Bytes)
    → rule_at_path (insert_labels path a t) other
      ≡ (if path_eq path other then some a else rule_at_path t other)
unfolding rule_at_path insert_labels path_eq
insert_labels_lem [] a (node action cs) [] = refl
insert_labels_lem [] a (node action cs) (x ∷ xs) = refl
insert_labels_lem (l ∷ path) a (node action cs) [] = refl
insert_labels_lem (l ∷ path) a (node action cs) (x ∷ xs) =
    let changed = get_child-change_child l x (insert_labels path a) cs in
    let same = text_eq_iff l x in
    elim (Option-cases (get_child l cs)) [
      | inl e ↦
          ground (arith, changed, same, e, insert_labels_lem path a empty xs, rule_at_path-empty xs)
      | inr (c, e) ↦ ground (arith, changed, same, e, insert_labels_lem path a c xs)
    ]

-- The labels of a name, the top-level domain first.
abbrev pub labels_of : Bytes → List Bytes
labels_of domain = reverse (split_dots domain)

-- The rule that a list of rules gives for exactly this path, the later before the earlier.
unfoldable pub rule_in : Rules → List Bytes → Option FilterAction → Option FilterAction
rule_in [] path earlier = earlier
rule_in ((domain, a) ∷ rules) path earlier =
    rule_in rules path (if path_eq (labels_of domain) path then some a else earlier)

insert_rules_lem :
    (rules : Rules) (t : TrieNode) (path : List Bytes)
    → rule_at_path (insert_rules rules t) path ≡ rule_in rules path (rule_at_path t path)
unfolding insert_rules rule_in insert
insert_rules_lem [] t path = refl
insert_rules_lem ((domain, a) ∷ rules) t path =
    rw (insert_rules_lem rules (insert_labels (labels_of domain) a t) path, insert_labels_lem)

-- The rule of the longest path that begins `path` and has a label, where `f` gives the rules.
unfoldable pub longest : (List Bytes → Option FilterAction) → List Bytes → Option FilterAction
longest f [] = none
longest f (label ∷ labels) = or_else (longest (λ path. f (label ∷ path)) labels) (f (label ∷ []))

longest-ext :
    (f g : List Bytes → Option FilterAction) (path : List Bytes)
    → ((p : List Bytes) → f p ≡ g p)
    → longest f path ≡ longest g path
longest-ext f g path h = rw (fun_ext h)

longest-none : (path : List Bytes) → longest (λ _. none) path ≡ none
unfolding longest
longest-none [] = refl
longest-none (label ∷ labels) = rw (longest-none labels)

or_else-none : (a : Option FilterAction) → or_else a none ≡ a
or_else-none none = refl
or_else-none (some x) = refl

or_else_assoc : (a b c : Option FilterAction) → or_else a (or_else b c) ≡ or_else (or_else a b) c
or_else_assoc none b c = refl
or_else_assoc (some x) b c = refl

walk-longest :
    (path : List Bytes) (t : TrieNode) (last : Option FilterAction)
    → walk path t last ≡ or_else (longest (rule_at_path t) path) last
unfolding walk longest rule_at_path
walk-longest [] t last = refl
walk-longest (l ∷ path) t last = elim (Option-cases (get_child l (children_of t))) [
  | inl e ↦
      let nowhere =
        longest-ext (λ p. rule_at_path t (l ∷ p)) (λ _. none) path
          (λ p. rule_at_path-step t l p ∙ rw e) in
      let here : rule_at_path t (l ∷ []) ≡ none = rule_at_path-step t l [] ∙ rw e in
      ground (arith, e, nowhere, longest-none path, here)
  | inr (c, e) ↦
      let below =
        longest-ext (λ p. rule_at_path t (l ∷ p)) (rule_at_path c) path
          (λ p. rule_at_path-step t l p ∙ rw e) in
      let here : rule_at_path t (l ∷ []) ≡ action_at c = rule_at_path-step t l [] ∙ rw e in
      ground (
        arith,
        e,
        below,
        here,
        walk-longest path c (or_else (action_at c) last),
        or_else_assoc (longest (rule_at_path c) path) (action_at c) last,
      )
]

-- `rule_for` on the filter that is built from a list of rules gives the rule that has the most
-- labels among those that cover the name, of two rules for one name the later, and nothing where no
-- rule covers the name.
pub rule_for-from_rules :
    (rules : Rules) (domain : Bytes)
    → rule_for (from_rules rules) domain
      ≡ longest (λ path. rule_in rules path none) (labels_of domain)
unfolding rule_for from_rules
rule_for-from_rules rules domain =
    let path = labels_of domain in
    let same =
      longest-ext (rule_at_path (insert_rules rules empty)) (λ p. rule_in rules p none) path
        (λ p. insert_rules_lem rules empty p ∙ rw (rule_at_path-empty p)) in
    walk-longest path (insert_rules rules empty) none ∙ rw same (or_else-none _)
