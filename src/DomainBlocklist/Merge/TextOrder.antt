-- ===== src/DomainBlocklist/Merge/TextOrder.antt =====
-- The byte order of texts is a strict order that decides equality.
use holy_blocker.DomainBlocklist.Merge.{◌∷◌, Bytes, Order, before, same, after, text_order}
use holy_blocker.Shared.{refl, [], text_eq_iff, inr, false, inl, arith, text_eq, ◌⊎◌, ◌↔◌, ◌≡◌}

pub text_order_self : (x : Bytes) → text_order x x ≡ same
unfolding text_order
text_order_self [] = refl
text_order_self (a ∷ x) = ground (arith, text_order_self x)

pub text_order_same : (x y : Bytes) → text_order x y ≡ same → x ≡ y
unfolding text_order
text_order_same [] [] h = refl
text_order_same [] (b ∷ y) h = cc
text_order_same (a ∷ x) [] h = cc
text_order_same (a ∷ x) (b ∷ y) h = ground (arith, text_order_same x y, h)

pub text_order_flip : (x y : Bytes) → (text_order x y ≡ after) ↔ (text_order y x ≡ before)
unfolding text_order
text_order_flip [] [] = ground arith
text_order_flip [] (b ∷ y) = ground arith
text_order_flip (a ∷ x) [] = ground arith
text_order_flip (a ∷ x) (b ∷ y) = ground (arith, text_order_flip x y)

pub text_order_trans :
    (x y z : Bytes) → text_order x y ≡ before → text_order y z ≡ before → text_order x z ≡ before
unfolding text_order
text_order_trans [] [] z h k = cc
text_order_trans [] (b ∷ y) [] h k = cc
text_order_trans [] (b ∷ y) (c ∷ z) h k = refl
text_order_trans (a ∷ x) [] z h k = cc
text_order_trans (a ∷ x) (b ∷ y) [] h k = cc
text_order_trans (a ∷ x) (b ∷ y) (c ∷ z) h k = ground (arith, text_order_trans x y z, h, k)

pub text_order_cases :
    (x y : Bytes) → (text_order x y ≡ before) ⊎ ((text_order x y ≡ same) ⊎ (text_order x y ≡ after))
text_order_cases x y = Order-cases (text_order x y)
  where
    Order-cases : (o : Order) → (o ≡ before) ⊎ ((o ≡ same) ⊎ (o ≡ after))
    Order-cases before = inl refl
    Order-cases same = inr (inl refl)
    Order-cases after = inr (inr refl)

-- A text before another is not that text.
pub text_order-before : (x y : Bytes) → text_order x y ≡ before → text_eq x y ≡ false
text_order-before x y h = ground (arith, text_order_self y, text_eq_iff x y, h)
