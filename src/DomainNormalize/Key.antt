-- ===== src/DomainNormalize/Key.antt =====
-- What a comparison key looks like, and that normalizing it changes nothing.
use holy_blocker.Shared.Texts.{split_dots-cons, split_dots, onto_first}
use holy_blocker.DomainNormalize.{
  some, Option, ℕ, ◌∷◌, none, length, List, Bytes, key, strip_dot, label_error, check_ascii,
  normalize,
}
use holy_blocker.Shared.{
  ◌==◌, Bool-cases, ap, refl, inr, [], inl, ◌≤◌, arith, Option-cases, All, ◌≡◌, ◌<◌,
}

abbrev IsKeyLabel : Bytes → Type 0
IsKeyLabel label = (0 < length label) × (length label ≤ 63)

-- A key is not empty, its labels have 1 to 63 bytes, and it has at most 253 bytes.
pub record IsKey (text : Bytes) : Type 0 where
  pub some_byte : 0 < length text
  pub labels_fit : All IsKeyLabel (split_dots text)
  pub name_fits : length text ≤ 253

label_error-none : (labels : List Bytes) → label_error labels ≡ none → All IsKeyLabel labels
unfolding label_error
label_error-none [] e = tt
label_error-none (l ∷ ls) e = ground (arith, label_error-none ls)

label_error-ok : (labels : List Bytes) → All IsKeyLabel labels → label_error labels ≡ none
unfolding label_error
label_error-ok [] h = refl
label_error-ok (l ∷ ls) h = ground (arith, label_error-ok ls h.1)

check_ascii-IsKey :
    (ascii : Bytes) {k : Bytes} → check_ascii ascii ≡ key k → (ascii ≡ k) × IsKey ascii
unfolding check_ascii
check_ascii-IsKey ascii {k} e = elim (Option-cases (label_error (split_dots ascii))) [
  | inl ok ↦ (
    ground (arith, ok),
    record {
      some_byte = ground (arith, ok);
      labels_fit = label_error-none (split_dots ascii) ok;
      name_fits = ground (arith, ok);
    },
  )
  | inr (x, bad) ↦ absurd (ground (arith, bad))
]

check_ascii-key : (ascii : Bytes) → IsKey ascii → check_ascii ascii ≡ key ascii
unfolding check_ascii
check_ascii-key ascii h =
    ground (arith, label_error-ok (split_dots ascii) h.labels_fit, h.some_byte, h.name_fits)

abbrev behind_first : List Bytes → List Bytes
behind_first [] = []
behind_first (label ∷ labels) = labels

behind_first-onto_first :
    (b : ℕ) (labels : List Bytes) → behind_first (onto_first b labels) ≡ behind_first labels
behind_first-onto_first b [] = refl
behind_first-onto_first b (l ∷ ls) = refl

All-behind_first :
    (labels : List Bytes) → All IsKeyLabel labels → All IsKeyLabel (behind_first labels)
All-behind_first [] h = h
All-behind_first (l ∷ ls) h = h.1

later_labels :
    (b : ℕ) (text : Bytes)
    → All IsKeyLabel (behind_first (split_dots (b ∷ text)))
    → All IsKeyLabel (behind_first (split_dots text))
later_labels b text h = elim (Bool-cases (b == b'.')) [
  | inl e ↦ All-behind_first (split_dots text) (rw (split_dots-cons b text, e) at h)
  | inr e ↦ rw (split_dots-cons b text, e, behind_first-onto_first) at h
]

-- A text none of whose labels behind the first is empty does not end in a dot.
strip_dot-same :
    (text : Bytes) → All IsKeyLabel (behind_first (split_dots text)) → strip_dot text ≡ text
unfolding strip_dot
strip_dot-same [] h = refl
strip_dot-same (b ∷ []) h = unfold split_dots in ground arith
strip_dot-same (b ∷ c ∷ text) h =
    ap (◌∷◌ b) (strip_dot-same (c ∷ text) (later_labels b (c ∷ text) h))

-- What `normalize` accepts is the text of the UTS #46 pass, it is a well-formed key, and normalizing
-- it once more gives it back, if the pass leaves its own output as it is.
pub normalize-key :
    (to_ascii : Bytes → Option Bytes)
    → ((text ascii : Bytes) → to_ascii text ≡ some ascii → to_ascii ascii ≡ some ascii)
    → (domain : Bytes) {k : Bytes} → normalize to_ascii domain ≡ key k
    → (to_ascii (strip_dot domain) ≡ some k) × IsKey k × (normalize to_ascii k ≡ key k)
unfolding normalize
normalize-key to_ascii idem domain {k} e = elim (Option-cases (to_ascii (strip_dot domain))) [
  | inl bad ↦ absurd (ground (arith, bad))
  | inr (ascii, good) ↦
      let checked : check_ascii ascii ≡ key k = ground (arith, good) in
      let (same, ok) = check_ascii-IsKey ascii checked in
      let stays = strip_dot-same ascii (All-behind_first (split_dots ascii) ok.labels_fit) in
      rw (← same) (
        good,
        ok,
        ground (
          arith,
          stays,
          idem (strip_dot domain) ascii good,
          check_ascii-key ascii ok,
          ok.some_byte,
        ),
      )
]
