-- ===== src/NetShield/Blocklist/Boundary.antt =====
-- The lookup in the artifact tries whole labels only.
use holy_blocker.Shared.Texts.{split_dots-cons, split_dots, onto_first}
use holy_blocker.NetShield.Radix.{FilterAction, block}
use holy_blocker.DomainNormalize.{RuleScope, apex, exact_host}
use holy_blocker.NetShield.Blocklist.{
  none, true, some, ◌∷◌, length, [], false, ℕ, Option, List, Bool, Bytes, BlocklistArtifact,
  boundaries_from, scope_at, decides, try_boundaries, artifact_lookup,
}
use holy_blocker.Shared.{
  ==→eq, append-nil, ◌∙◌, length-append, inr, take-append_len, arith, inl, ◌==◌, ◌+◌, Bool-cases,
  refl, ◌||◌, append_assoc, ◌≡◌, if◌then◌else◌, ◌++◌, ◌≢◌,
}

-- Whether a stored rule covers every name that starts with its key, and whether there is a rule.
unfoldable pub is_apex : Option RuleScope → Bool
is_apex (some apex) = true
is_apex _ = false

unfoldable pub is_rule : Option RuleScope → Bool
is_rule none = false
is_rule (some scope) = true

decides-inside : (rule : Option RuleScope) → decides false rule ≡ is_apex rule
unfolding decides is_apex
decides-inside none = refl
decides-inside (some apex) = refl
decides-inside (some exact_host) = refl

decides-last : (rule : Option RuleScope) → decides true rule ≡ is_rule rule
unfolding decides is_rule
decides-last none = refl
decides-last (some apex) = refl
decides-last (some exact_host) = refl

-- Whether a rule covers a name of these labels, the top-level domain first: an apex rule for the
-- first labels of it, or any rule for all of them. `front` stands before the first label.
unfoldable pub covers_from : BlocklistArtifact → Bytes → List Bytes → Bool
covers_from artifact front [] = false
covers_from artifact front (label ∷ []) = is_rule (scope_at artifact (front ++ label))
covers_from artifact front (label ∷ more) =
    is_apex (scope_at artifact (front ++ label))
    || covers_from artifact (front ++ (label ++ (b'.' ∷ []))) more

answer : Bool → Option FilterAction
answer covered = if covered then some block else none

covers_from-onto_first :
    (artifact : BlocklistArtifact) (front : Bytes) (b : ℕ) (labels : List Bytes)
    → labels ≢ []
    → covers_from artifact front (onto_first b labels)
      ≡ covers_from artifact (front ++ (b ∷ [])) labels
unfolding covers_from
covers_from-onto_first artifact front b [] h = absurd (h refl)
covers_from-onto_first artifact front b (l ∷ []) h = rw append_assoc
covers_from-onto_first artifact front b (l ∷ m ∷ more) h = simp append_assoc

onto_first-ne-nil : (b : ℕ) (labels : List Bytes) → onto_first b labels ≢ []
onto_first-ne-nil b [] e = cc
onto_first-ne-nil b (l ∷ ls) e = cc

split_dots-ne-nil : (text : Bytes) → split_dots text ≢ []
unfolding split_dots
split_dots-ne-nil [] e = cc
split_dots-ne-nil (b ∷ text) e = elim (Bool-cases (b == b'.')) [
  | inl dot ↦ cc (rw dot at e)
  | inr other ↦ onto_first-ne-nil b (split_dots text) (rw other at e)
]

covers_from-cons :
    (artifact : BlocklistArtifact) (front label : Bytes) (labels : List Bytes)
    → labels ≢ []
    → covers_from artifact front (label ∷ labels) ≡ (
        is_apex (scope_at artifact (front ++ label))
        || covers_from artifact (front ++ (label ++ (b'.' ∷ []))) labels)
unfolding covers_from
covers_from-cons artifact front label [] h = absurd (h refl)
covers_from-cons artifact front label (m ∷ more) h = refl

module _ (artifact : BlocklistArtifact) where
  -- The rest of the text behind one more byte.
  step_over :
      (front : Bytes) (b : ℕ) (rest : Bytes)
      → try_boundaries artifact
          ((front ++ (b ∷ [])) ++ rest)
          (boundaries_from (length (front ++ (b ∷ []))) rest)
        ≡ answer (covers_from artifact (front ++ (b ∷ [])) (split_dots rest))
      → try_boundaries artifact (front ++ (b ∷ rest)) (boundaries_from (length front + 1) rest)
        ≡ answer (covers_from artifact (front ++ (b ∷ [])) (split_dots rest))
  step_over front b rest ih =
      let longer : length (front ++ (b ∷ [])) ≡ length front + 1 =
        omega (arith, length-append front (b ∷ [])) in
      rw (append_assoc, longer) at ih

  at_boundary :
      (front rest : Bytes) (last : Bool)
      → (length front == length (front ++ rest)) ≡ last
      → (boundaries : List ℕ)
      → try_boundaries artifact (front ++ rest) (length front ∷ boundaries) ≡ (
          if decides last (scope_at artifact front)
          then some block
          else try_boundaries artifact (front ++ rest) boundaries)
  unfolding try_boundaries
  at_boundary front rest last e boundaries = rw (take-append_len front rest, e)

  try_boundaries-covers :
      (front rest : Bytes)
      → try_boundaries artifact (front ++ rest) (boundaries_from (length front) rest)
        ≡ answer (covers_from artifact front (split_dots rest))
  unfolding boundaries_from answer
  try_boundaries-covers front [] =
      let at_end : (length front == length (front ++ [])) ≡ true =
        ground (arith, length-append front []) in
      at_boundary front [] true at_end []
      ∙ unfold split_dots covers_from try_boundaries in
        rw (append-nil, decides-last (scope_at artifact front))
  try_boundaries-covers front (b ∷ rest) =
      let later = step_over front b rest (try_boundaries-covers (front ++ (b ∷ [])) rest) in
      let here = split_dots-cons b rest in
      elim (Bool-cases (b == b'.')) [
        | inl dot ↦
            let inside : (length front == length (front ++ (b ∷ rest))) ≡ false =
              ground (arith, length-append front (b ∷ rest)) in
            ground (
              arith,
              dot,
              here,
              ==→eq b b'.' dot,
              at_boundary front (b ∷ rest) false inside (boundaries_from (length front + 1) rest),
              covers_from-cons artifact front [] (split_dots rest) (split_dots-ne-nil rest),
              append-nil front,
              decides-inside (scope_at artifact front),
              later,
            )
        | inr other ↦ ground (
          arith,
          other,
          here,
          covers_from-onto_first artifact front b (split_dots rest) (split_dots-ne-nil rest),
          later,
        )
      ]

-- The lookup of a reversed name blocks exactly when an apex rule is stored for its first labels or
-- a rule for all of them; a key that ends inside a label is never tried.
pub artifact_lookup-covers :
    (artifact : BlocklistArtifact) (reversed : Bytes)
    → artifact_lookup artifact reversed
      ≡ (if covers_from artifact [] (split_dots reversed) then some block else none)
unfolding artifact_lookup answer
artifact_lookup-covers artifact reversed = try_boundaries-covers artifact [] reversed
