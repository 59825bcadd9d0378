-- ===== src/DomainBlocklist/Merge/Ranked.antt =====
-- Insertion sort on values that a rank tells apart: the items stay, and a list without repetitions
-- is sorted into the one ascending list of its items.
use holy_blocker.DomainBlocklist.Merge.{leb, any, ◌∷◌, List, Bool, ℕ, insert_ranked, sort_ranked}
use holy_blocker.Shared.{
  if◌then◌else◌, ◌++◌, sym, ◌∙◌, ap, inr, refl, inl, [], Bool-cases, ◌||◌, arith, false, ◌<◌, ◌↔◌,
  true, ◌≡◌,
}
use mathlib.Core.Path.{subst}

module _ {A : Type 0} (rank : A → ℕ) (alike : A → A → Bool)
    (alike_iff : (x y : A) → (alike x y ≡ true) ↔ (x ≡ y))
    (rank-inj : (x y : A) → rank x ≡ rank y → x ≡ y) where
  abbrev pub Above : A → List A → Type 0
  Above x [] = Unit
  Above x (y ∷ ys) = (rank x < rank y) × Above x ys

  abbrev pub Climbs : List A → Type 0
  Climbs [] = Unit
  Climbs (x ∷ xs) = Above x xs × Climbs xs

  abbrev pub Differ : List A → Type 0
  Differ [] = Unit
  Differ (x ∷ xs) = (any (alike x) xs ≡ false) × Differ xs

  Above-trans : (x y : A) (ys : List A) → rank x < rank y → Above y ys → Above x ys
  Above-trans x y [] h k = tt
  Above-trans x y (z ∷ ys) h k = (omega (arith, h, k.0), Above-trans x y ys h k.1)

  any-insert :
      (z x : A) (ys : List A)
      → any (alike z) (insert_ranked rank x ys) ≡ (alike z x || any (alike z) ys)
  unfolding insert_ranked
  any-insert z x [] = refl
  any-insert z x (y ∷ ys) = ground (arith, any-insert z x ys)

  pub any-sort : (z : A) (xs : List A) → any (alike z) (sort_ranked rank xs) ≡ any (alike z) xs
  unfolding sort_ranked
  any-sort z [] = refl
  any-sort z (x ∷ xs) = ground (arith, any-sort z xs, any-insert z x (sort_ranked rank xs))

  Above-insert :
      (w x : A) (ys : List A) → rank w < rank x → Above w ys → Above w (insert_ranked rank x ys)
  unfolding insert_ranked
  Above-insert w x [] h k = (h, tt)
  Above-insert w x (y ∷ ys) h k = ground (arith, Above-insert w x ys h k.1, h, k)

  insert-Climbs :
      (x : A) (ys : List A)
      → any (alike x) ys ≡ false
      → Climbs ys
      → Climbs (insert_ranked rank x ys)
  unfolding insert_ranked
  insert-Climbs x [] h k = (tt, tt)
  insert-Climbs x (y ∷ ys) h k = elim (Bool-cases (leb (rank x) (rank y))) [
    | inl e ↦
        let less : rank x < rank y = ground (arith, e, rank-inj x y, alike_iff x y, h) in
        ground (arith, e, less, Above-trans x y ys less k.0, k)
    | inr e ↦ ground (
      arith,
      e,
      Above-insert y x ys (ground (arith, e)) k.0,
      insert-Climbs x ys (ground (arith, h)) k.1,
    )
  ]

  pub sort-Climbs : (xs : List A) → Differ xs → Climbs (sort_ranked rank xs)
  unfolding sort_ranked
  sort-Climbs [] d = tt
  sort-Climbs (x ∷ xs) d =
      insert-Climbs x (sort_ranked rank xs) (ground (arith, d.0, any-sort x xs))
        (sort-Climbs xs d.1)

  Above-not : (x : A) (ys : List A) → Above x ys → any (alike x) ys ≡ false
  Above-not x [] h = refl
  Above-not x (y ∷ ys) h = elim (Bool-cases (alike x y)) [
    | inl e ↦ absurd (omega (arith, h.0, ap rank ((alike_iff x y).0 e)))
    | inr e ↦ ground (arith, e, Above-not x ys h.1)
  ]

  Above-any : (x z : A) (ys : List A) → Above x ys → any (alike z) ys ≡ true → rank x < rank z
  Above-any x z [] h k = cc
  Above-any x z (y ∷ ys) h k = elim (Bool-cases (alike z y)) [
    | inl e ↦ omega (arith, h.0, ap rank ((alike_iff z y).0 e))
    | inr e ↦ Above-any x z ys h.1 (ground (arith, e, k))
  ]

  -- Two ascending lists with the same items are the same list.
  pub Climbs-ext :
      (xs ys : List A)
      → Climbs xs
      → Climbs ys
      → ((z : A) → any (alike z) xs ≡ any (alike z) ys)
      → xs ≡ ys
  Climbs-ext [] [] h k same_items = refl
  Climbs-ext [] (y ∷ ys) h k same_items = ground (arith, same_items y, alike_iff y y)
  Climbs-ext (x ∷ xs) [] h k same_items = ground (arith, same_items x, alike_iff x x)
  Climbs-ext (x ∷ xs) (y ∷ ys) h k same_items =
      let heads : x ≡ y = elim (Bool-cases (alike x y)) [
        | inl e ↦ (alike_iff x y).0 e
        | inr e ↦
            let less = Above-any y x ys k.0 (ground (arith, same_items x, alike_iff x x, e)) in
            let more =
              Above-any x y xs h.0
                (ground (arith, same_items y, alike_iff y y, alike_iff y x, alike_iff x y, e)) in
            absurd (omega (arith, less, more))
      ] in
      let tails : (z : A) → any (alike z) xs ≡ any (alike z) ys = λ z.
        elim (Bool-cases (alike z x)) [
          | inl e ↦
              let is_x = (alike_iff z x).0 e in
              rw (is_x) (
                Above-not x xs h.0
                ∙ sym (subst (λ t. any (alike t) ys ≡ false) (sym heads) (Above-not y ys k.0)))
          | inr e ↦ ground (arith, same_items z, e, heads)
        ] in
      ground (arith, heads, Climbs-ext xs ys h.1 k.1 tails)

  any-snoc :
      (z x : A) (xs : List A) → any (alike z) (xs ++ (x ∷ [])) ≡ (any (alike z) xs || alike z x)
  any-snoc z x [] = ground arith
  any-snoc z x (y ∷ ys) = ground (arith, any-snoc z x ys)

  -- Adding an item that is not there yet.
  pub any-push :
      (z x : A) (xs : List A)
      → any (alike z) (if any (alike x) xs then xs else xs ++ (x ∷ []))
        ≡ (any (alike z) xs || alike z x)
  any-push z x xs = elim (Bool-cases (alike z x)) [
    | inl e ↦
        let there : any (alike x) xs ≡ any (alike z) xs =
          ap (λ t. any (alike t) xs) (sym ((alike_iff z x).0 e)) in
        ground (arith, e, there, any-snoc z x xs)
    | inr e ↦ ground (arith, e, any-snoc z x xs)
  ]

  Differ-snoc :
      (x : A) (xs : List A) → any (alike x) xs ≡ false → Differ xs → Differ (xs ++ (x ∷ []))
  Differ-snoc x [] h k = (refl, tt)
  Differ-snoc x (y ∷ ys) h k = ground (
    arith,
    h,
    k,
    Differ-snoc x ys (ground (arith, h)) k.1,
    any-snoc y x ys,
    alike_iff x y,
    alike_iff y x,
  )

  pub Differ-push :
      (x : A) (xs : List A) → Differ xs → Differ (if any (alike x) xs then xs else xs ++ (x ∷ []))
  Differ-push x xs k = elim (Bool-cases (any (alike x) xs)) [
    | inl e ↦ ground (arith, e, k)
    | inr e ↦ ground (arith, e, Differ-snoc x xs e k)
  ]
