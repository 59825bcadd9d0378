-- ===== src/Shared/Listed.antt =====
-- Membership in a list, by recursion, and lists that differ in their order only.
use holy_blocker.Shared.{◌↔◌, ◌⊎◌, length, ◌++◌, ◌≡◌, List, inl, inr, [], ◌∷◌}

abbrev pub Listed : {A : Type 0} → A → List A → Type 0
Listed x [] = ⊥
Listed x (y ∷ ys) = (x ≡ y) ⊎ Listed x ys

pub Listed-append :
    {A : Type 0} (x : A) (ys zs : List A) → Listed x (ys ++ zs) ↔ (Listed x ys ⊎ Listed x zs)
Listed-append x [] zs = (inr, λ h. elim h [ inl no_way ↦ absurd no_way | inr h ↦ h ])
Listed-append x (y ∷ ys) zs = (
  λ h. elim h [
    | inl e ↦ inl (inl e)
    | inr later ↦ elim ((Listed-append x ys zs).0 later) [ inl l ↦ inl (inr l) | inr r ↦ inr r ]
  ],
  λ h. elim h [
    | inl l ↦ elim l [ inl e ↦ inl e | inr k ↦ inr ((Listed-append x ys zs).1 (inl k)) ]
    | inr r ↦ inr ((Listed-append x ys zs).1 (inr r))
  ],
)

-- A function that passes on the items of a list in some order.
abbrev pub KeepsItems : {A : Type 0} → (List A → List A) → Type 0
KeepsItems {A = A} f =
    (xs : List A) → (length (f xs) ≡ length xs) × ((x : A) → Listed x (f xs) ↔ Listed x xs)
