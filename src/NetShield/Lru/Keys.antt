-- ===== src/NetShield/Lru/Keys.antt =====
-- Lists of keys without a repetition, and the keys of the map.
use holy_blocker.Shared.{
  Bool-cases, refl, if◌then◌else◌, suc, not, ap, ◌||◌, ◌&&◌, text_eq_iff, [], ◌++◌, ◌≡◌, Bytes,
  List, arith, inl, inr,
}
use holy_blocker.NetShield.Lru.{
  FilterAction, true, false, map_get, Option, length, contains_key, map_insert, map_remove, member,
  remove_first, text_eq, ◌∷◌, Entries,
}

unfoldable pub Distinct : List Bytes → Type 0
Distinct [] = Unit
Distinct (k ∷ ks) = (member k ks ≡ false) × Distinct ks

unfoldable pub keys : Entries → List Bytes
keys [] = []
keys ((k, v) ∷ entries) = k ∷ keys entries

pub text_eq_sym : (a b : Bytes) → text_eq a b ≡ text_eq b a
text_eq_sym a b = ground (arith, text_eq_iff a b, text_eq_iff b a)

pub text_eq_trans : (a b c : Bytes) → text_eq a b ≡ true → text_eq a c ≡ text_eq b c
text_eq_trans a b c h = rw ((text_eq_iff a b).0 h)

pub member_eq : (a b : Bytes) (ks : List Bytes) → text_eq a b ≡ true → member a ks ≡ member b ks
member_eq a b ks h = rw ((text_eq_iff a b).0 h)

pub member-remove_first :
    (k x : Bytes) (ks : List Bytes)
    → Distinct ks
    → member k (remove_first x ks) ≡ (member k ks && not (text_eq k x))
unfolding remove_first Distinct
member-remove_first k x [] d = refl
member-remove_first k x (y ∷ ks) d = ground (
  arith,
  member-remove_first k x ks d.1,
  text_eq_sym x y,
  text_eq_iff k y,
  text_eq_iff x y,
  text_eq_iff k x,
  member_eq k y ks,
)

pub length-remove_first :
    (x : Bytes) (ks : List Bytes)
    → member x ks ≡ true
    → suc (length (remove_first x ks)) ≡ length ks
unfolding remove_first
length-remove_first x [] h = cc
length-remove_first x (y ∷ ks) h = ground (arith, length-remove_first x ks)

pub Distinct-remove_first :
    (x : Bytes) (ks : List Bytes) → Distinct ks → Distinct (remove_first x ks)
unfolding remove_first Distinct
Distinct-remove_first x [] d = tt
Distinct-remove_first x (y ∷ ks) d = elim (Bool-cases (text_eq x y)) [
  | inl e ↦ rw e d.1
  | inr e ↦ rw e (rw (member-remove_first y x ks d.1, d.0) refl, Distinct-remove_first x ks d.1)
]

pub member-last :
    (k x : Bytes) (ks : List Bytes) → member k (ks ++ (x ∷ [])) ≡ (member k ks || text_eq k x)
member-last k x [] = ground arith
member-last k x (y ∷ ks) = ground (arith, member-last k x ks)

pub Distinct-last :
    (x : Bytes) (ks : List Bytes) → Distinct ks → member x ks ≡ false → Distinct (ks ++ (x ∷ []))
unfolding Distinct
Distinct-last x [] d h = (refl, tt)
Distinct-last x (y ∷ ks) d h = (
  ground (arith, member-last y x ks, d.0, text_eq_sym x y),
  Distinct-last x ks d.1 (ground arith),
)

pub keys-map_remove :
    (x : Bytes) (entries : Entries) → keys (map_remove x entries) ≡ remove_first x (keys entries)
unfolding keys map_remove remove_first
keys-map_remove x [] = refl
keys-map_remove x ((k, v) ∷ entries) = ground (arith, keys-map_remove x entries)

pub keys-map_insert :
    (x : Bytes) (value : Option FilterAction) (entries : Entries)
    → keys (map_insert x value entries)
      ≡ (if member x (keys entries) then keys entries else keys entries ++ (x ∷ []))
unfolding keys map_insert
keys-map_insert x value [] = refl
keys-map_insert x value ((k, v) ∷ entries) = ground (arith, keys-map_insert x value entries)

pub contains_key-keys :
    (x : Bytes) (entries : Entries) → contains_key x entries ≡ member x (keys entries)
unfolding keys contains_key map_get
contains_key-keys x [] = refl
contains_key-keys x ((k, v) ∷ entries) = ground (arith, contains_key-keys x entries)

pub length-keys : (entries : Entries) → length (keys entries) ≡ length entries
unfolding keys
length-keys [] = refl
length-keys ((k, v) ∷ entries) = ap suc (length-keys entries)
