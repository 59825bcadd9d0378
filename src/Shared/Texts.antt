-- ===== src/Shared/Texts.antt =====
-- Domain names as texts: splitting at dots and joining with dots.
use holy_blocker.Shared.Tests.{◌==◌, if◌then◌else◌}
use holy_blocker.Shared.Lists.{Bytes}
use Prim.Native.Nat.{ℕ}
use mathlib.Core.List.{List, [], ◌∷◌, ◌++◌}
use holy_blocker.Shared.{arith, ◌≡◌}

-- A byte in front of the first label.
abbrev pub onto_first : ℕ → List Bytes → List Bytes
onto_first b [] = (b ∷ []) ∷ []
onto_first b (label ∷ labels) = (b ∷ label) ∷ labels

-- `text.split('.')`, which has one label more than the text has dots.
unfoldable pub split_dots : Bytes → List Bytes
split_dots [] = [] ∷ []
split_dots (b ∷ text) =
    let labels = split_dots text in if b == b'.' then [] ∷ labels else onto_first b labels

-- `labels.join(".")`
unfoldable pub join_dots : List Bytes → Bytes
join_dots [] = []
join_dots (label ∷ []) = label
join_dots (label ∷ more) = label ++ (b'.' ∷ join_dots more)

-- The labels of `b ∷ text`, where those of `text` are known.
pub split_dots-cons :
    (b : ℕ) (text : Bytes)
    → split_dots (b ∷ text)
      ≡ (if b == b'.' then [] ∷ split_dots text else onto_first b (split_dots text))
unfolding split_dots
split_dots-cons b text = ground arith
