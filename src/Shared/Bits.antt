-- ===== src/Shared/Bits.antt =====
-- Masks and disjoint fields of machine words as arithmetic, at every width.
use Prim.Native.Nat.{
  ℕ, zero, suc, ◌+◌, ◌-◌, ◌*◌, ◌/◌, ◌%◌, ◌^◌, ◌≤◌, ◌<◌, min, max, digits, bitwise, bit_and, bit_or,
  bit_and-bitwise, bit_or-bitwise,
}
use mathlib.Core.Path.{◌≡◌, refl, ap}
use native.Mathlib.Nat.{
  le_refl, pow-suc, one-le-pow, div-add-mod, mod-lt, mod-eq_of_lt, add-mul-mod_self_left,
  div-div-eq-div-mul,
}
use native.Mathlib.Omega.{arith}
use holy_blocker.Shared.{◌&&◌, true, Bool}

-- Bit by bit, from the lowest: `unfinished` is what one number leaves when the other has no bit.
module _ (unfinished : ℕ → ℕ) (on_bits : ℕ → ℕ → ℕ) where
  same_digits :
      (rounds other x y : ℕ)
      → x ≤ other
      → x ≤ rounds
      → digits unfinished on_bits rounds x y ≡ digits unfinished on_bits other x y
  same_digits (suc rounds) (suc other) (suc x) y p q =
      let ih = same_digits rounds other (suc x / 2) (y / 2) (omega arith) (omega arith) in
      omega (arith, ih)
  same_digits (suc rounds) (suc other) zero y p q = refl
  same_digits (suc rounds) zero (suc x) y p q = absurd (omega arith)
  same_digits (suc rounds) zero zero y p q = refl
  same_digits zero (suc other) (suc x) y p q = absurd (omega arith)
  same_digits zero (suc other) zero y p q = refl
  same_digits zero zero x y p q = refl

  split_lowest :
      (x y : ℕ)
      → bitwise unfinished on_bits (suc x) y
        ≡ on_bits (suc x % 2) (y % 2) + 2 * bitwise unfinished on_bits (suc x / 2) (y / 2)
  split_lowest x y =
      let fewer = same_digits x (suc x / 2) (suc x / 2) (y / 2) (le_refl _) (omega arith) in
      omega (arith, fewer)

pub bit_and-halves : (x y : ℕ) → bit_and x y ≡ min (x % 2) (y % 2) + 2 * bit_and (x / 2) (y / 2)
bit_and-halves (suc x) y = simp bit_and-bitwise (split_lowest (λ _. 0) min x y)
bit_and-halves zero y = simp bit_and-bitwise (omega arith)

pub bit_or-halves : (x y : ℕ) → bit_or x y ≡ max (x % 2) (y % 2) + 2 * bit_or (x / 2) (y / 2)
bit_or-halves (suc x) y = simp bit_or-bitwise (split_lowest (λ rest. rest) max x y)
bit_or-halves zero y = simp bit_or-bitwise (omega arith)

-- Both operations with a number without bits, for every number below a bound.
without_bits : (bound x : ℕ) → x < bound → (bit_and x 0 ≡ 0) × (bit_or x 0 ≡ x)
without_bits (suc bound) zero lt = (refl, refl)
without_bits zero x lt = absurd (omega arith)
without_bits (suc bound) (suc x) lt =
    let ih = without_bits bound (suc x / 2) (omega arith) in
    (omega (arith, ih.0, bit_and-halves (suc x) 0), omega (arith, ih.1, bit_or-halves (suc x) 0))

pub bit_and-zero : (x : ℕ) → bit_and x 0 ≡ 0
bit_and-zero x = (without_bits (suc x) x (omega arith)).0

pub bit_or-zero : (x : ℕ) → bit_or x 0 ≡ x
bit_or-zero x = (without_bits (suc x) x (omega arith)).1

doubled : (q k : ℕ) → q * 2 ^ suc k ≡ 2 * (q * 2 ^ k)
doubled q k = omega (arith, ap (λ (t : ℕ). q * t) (pow-suc 2 k))

-- `(q << k) | r` is a sum where `r` fits `k` bits.
pub bit_or-shifted : (k q r : ℕ) → r < 2 ^ k → bit_or (q * 2 ^ k) r ≡ q * 2 ^ k + r
bit_or-shifted zero q r h = ground (arith, bit_or-zero q)
bit_or-shifted (suc k) q r h =
    ground
      (arith, bit_or-halves (q * 2 ^ suc k) r, doubled q k, pow-suc 2 k, bit_or-shifted k q (r / 2))

div_one : (a : ℕ) → a / 1 ≡ a
div_one a = omega arith

mod_doubled : (a m : ℕ) → 0 < m → a % (2 * m) ≡ a / 2 % m * 2 + a % 2
mod_doubled a m h = grind (
  arith,
  div-add-mod (a / 2) m,
  mod-lt (a / 2) h,
  add-mul-mod_self_left (a / 2 % m * 2 + a % 2) (2 * m) (a / 2 / m),
  mod-eq_of_lt,
)

-- A mask of `n` low bits is the remainder by `2 ^ n`.
pub bit_and-low : (n a : ℕ) → bit_and a (2 ^ n - 1) ≡ a % 2 ^ n
bit_and-low zero a = omega (arith, bit_and-zero a)
bit_and-low (suc n) a = ground (
  arith,
  one-le-pow n 2,
  pow-suc 2 n,
  bit_and-halves a (2 ^ suc n - 1),
  bit_and-low n (a / 2),
  mod_doubled a (2 ^ n),
)

-- A mask of `n` bits that starts at bit `k` cuts that field out.
pub bit_and-field : (n k a : ℕ) → bit_and a ((2 ^ n - 1) * 2 ^ k) ≡ a / 2 ^ k % 2 ^ n * 2 ^ k
bit_and-field n zero a = ground (arith, bit_and-low n a, div_one a)
bit_and-field n (suc k) a = ground (
  arith,
  doubled (2 ^ n - 1) k,
  bit_and-halves a ((2 ^ n - 1) * 2 ^ suc k),
  bit_and-field n k (a / 2),
  pow-suc 2 k,
  div-div-eq-div-mul a 2 (2 ^ k),
  doubled (a / 2 ^ suc k % 2 ^ n) k,
)

-- Over a small range a test is checked by evaluation.
unfoldable pub all_below : ℕ → (ℕ → Bool) → Bool
all_below zero test = true
all_below (suc n) test = test n && all_below n test

pub below : (n : ℕ) (test : ℕ → Bool) → all_below n test ≡ true → (x : ℕ) → x < n → test x ≡ true
unfolding all_below
below zero test h x lt = absurd (omega arith)
below (suc n) test h x lt = ground (arith, below n test (ground arith) x)
