-- ===== src/DomainBlocklist/Sweep/Chunks.antt =====
-- The batches of the sweep put together again are the domains that were due.
use holy_blocker.DomainBlocklist.Sweep.{at_least_one}
use holy_blocker.Shared.{
  length-drop, ◌≤◌, zero, refl, ◌<◌, ap, ◌||◌, drop, ◌≡◌, take, member, ◌++◌, ℕ, Bytes, List, arith,
  [], ◌∷◌,
}
use holy_blocker.DomainBlocklist.Sweep.{length, chunks_of, suc}

abbrev pub concat : List (List Bytes) → List Bytes
concat [] = []
concat (chunk ∷ chunks) = chunk ++ concat chunks

pub member-append :
    (d : Bytes) (xs ys : List Bytes) → member d (xs ++ ys) ≡ (member d xs || member d ys)
member-append d [] ys = refl
member-append d (x ∷ xs) ys = ground (arith, member-append d xs ys)

take-append-drop : (n : ℕ) (xs : List Bytes) → take n xs ++ drop n xs ≡ xs
take-append-drop zero [] = refl
take-append-drop zero (x ∷ xs) = refl
take-append-drop (suc n) [] = refl
take-append-drop (suc n) (x ∷ xs) = ap (λ t. x ∷ t) (take-append-drop n xs)

pub concat-chunks_of :
    (rounds size : ℕ) (domains : List Bytes)
    → 0 < size
    → length domains ≤ rounds
    → concat (chunks_of rounds size domains) ≡ domains
unfolding chunks_of
concat-chunks_of zero size [] pos h = refl
concat-chunks_of zero size (d ∷ domains) pos h = absurd (omega arith)
concat-chunks_of (suc rounds) size [] pos h = refl
concat-chunks_of (suc rounds) size (d ∷ domains) pos h =
    let rest =
      concat-chunks_of rounds size (drop size (d ∷ domains)) pos
        (omega (arith, length-drop size (d ∷ domains), h, pos)) in
    rw (rest, take-append-drop size (d ∷ domains)) refl

pub at_least_one-suc : (n : ℕ) → (m : ℕ) × (at_least_one n ≡ suc m)
at_least_one-suc zero = (0, refl)
at_least_one-suc (suc n) = (n, refl)

pub chunks_of_nil : (n size : ℕ) → chunks_of n size [] ≡ []
unfolding chunks_of
chunks_of_nil zero size = refl
chunks_of_nil (suc n) size = refl

pub chunks_of_cons :
    (n k m size : ℕ) (d : Bytes) (ds due : List Bytes)
    → n ≡ suc k
    → due ≡ d ∷ ds
    → size ≡ suc m
    → chunks_of n size due ≡ (d ∷ take m ds) ∷ chunks_of k size (drop size due)
unfolding chunks_of
chunks_of_cons n k m size d ds due n_is some_due pos = rw (n_is, some_due, pos) refl

pub positive_suc : (n : ℕ) → 0 < n → (k : ℕ) × (n ≡ suc k)
positive_suc zero h = absurd (omega (arith, h))
positive_suc (suc n) h = (n, refl)
