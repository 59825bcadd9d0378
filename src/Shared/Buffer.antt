-- ===== src/Shared/Buffer.antt =====
-- Byte buffers: indexing, slicing and the big-endian words of the wire formats, as Rust does them.
use holy_blocker.Shared.Tests.{ltb, leb, leb→le, if◌then◌else◌}
use holy_blocker.Shared.Lists.{
  All, All-take, All-drop, drop-append_len, Bytes, length, take, drop, drop-add, length-drop,
  length-take, drop-append_len, take-append_len, length-append,
}
use holy_blocker.Shared.Fallible.{
  Outcome, found, missing, panicked, ◌>>=◌, ◌>>◌, ensure, Safe, >>=-Safe,
}
use Prim.Native.Nat.{ℕ, zero, suc, ◌+◌, ◌-◌, ◌*◌, ◌/◌, ◌%◌, ◌^◌, ◌≤◌, ◌<◌}
use Prim.Native.Nat.add
use mathlib.Core.Path.{ap, ◌≡◌, refl, ◌∙◌}
use mathlib.Core.Bool.{Bool, true, false, ◌&&◌}
use mathlib.Core.List.{◌++◌, [], ◌∷◌}
use native.Mathlib.Omega.{arith}

abbrev pub IsByte : ℕ → Type 0
IsByte b = b < 256

abbrev pub IsU16 : ℕ → Type 0
IsU16 n = n < 65536

-- The first element of what is left at a position.
abbrev pub first : Bytes → Outcome ℕ
first [] = panicked
first (x ∷ xs) = found x

-- `buf[i]`, which panics out of range.
unfoldable pub byte_at : Bytes → ℕ → Outcome ℕ
byte_at buf i = first (drop i buf)

-- `buf.get(i)?`
abbrev pub first? : Bytes → Outcome ℕ
first? [] = missing
first? (x ∷ xs) = found x

unfoldable pub get_byte : Bytes → ℕ → Outcome ℕ
get_byte buf i = first? (drop i buf)

-- `buf[from..to]`, which panics out of range.
unfoldable pub slice : Bytes → ℕ → ℕ → Outcome Bytes
slice buf from to =
    if leb from to && leb to (length buf)
    then found (take (to - from) (drop from buf))
    else panicked

-- `buf.get(from..to)?`
unfoldable pub get_slice : Bytes → ℕ → ℕ → Outcome Bytes
get_slice buf from to =
    if leb from to && leb to (length buf) then found (take (to - from) (drop from buf)) else missing

-- `u16::from_be_bytes([hi, lo])`
abbrev pub be16 : ℕ → ℕ → ℕ
be16 hi lo = hi * 256 + lo

-- `u16::from_be_bytes([buf[i], buf[i + 1]])`
unfoldable pub u16_at : Bytes → ℕ → Outcome ℕ
unfolding byte_at
u16_at buf i = do hi ← byte_at buf i; lo ← byte_at buf (i + 1); found (be16 hi lo)

-- `n.to_be_bytes()` at sixteen bits
abbrev pub u16_bytes : ℕ → Bytes
u16_bytes n = (n / 256 % 256) ∷ (n % 256) ∷ []

pub first-Safe : (xs : Bytes) → 0 < length xs → Safe (λ _. Unit {0}) (first xs)
first-Safe [] h = absurd (omega arith)
first-Safe (x ∷ xs) h = tt

pub byte_at-Safe : (buf : Bytes) (i : ℕ) → i < length buf → Safe (λ _. Unit {0}) (byte_at buf i)
unfolding byte_at
byte_at-Safe buf i h = first-Safe (drop i buf) (omega (arith, length-drop i buf))

pub u16_at-Safe : (buf : Bytes) (i : ℕ) → i + 1 < length buf → Safe (λ _. Unit {0}) (u16_at buf i)
unfolding u16_at
u16_at-Safe buf i h =
    >>=-Safe (λ _. Unit {0}) (λ _. Unit {0}) (byte_at buf i) _ (byte_at-Safe buf i (omega arith))
      λ hi _.
        >>=-Safe (λ _. Unit {0}) (λ _. Unit {0}) (byte_at buf (i + 1)) (λ lo. found (be16 hi lo))
          (byte_at-Safe buf (i + 1) h) (λ lo _. tt)

pub slice-Safe :
    (buf : Bytes) (from to : ℕ)
    → from ≤ to
    → to ≤ length buf
    → Safe (λ s. length s ≡ to - from) (slice buf from to)
unfolding slice
slice-Safe buf from to h k =
    ground (arith, length-take (to - from) (drop from buf), length-drop from buf)

module _ (buf : Bytes) (i : ℕ) {x : ℕ} {rest : Bytes} (here : drop i buf ≡ x ∷ rest) where
  pub byte_at-drop : byte_at buf i ≡ found x
  unfolding byte_at
  byte_at-drop = rw here

  pub get_byte-drop : get_byte buf i ≡ found x
  unfolding get_byte
  get_byte-drop = rw here

  pub drop-next : drop (i + 1) buf ≡ rest
  drop-next = drop-add i 1 buf ∙ rw here

pub u16_at-drop :
    (buf : Bytes) (i : ℕ) {hi lo : ℕ} {rest : Bytes}
    → drop i buf ≡ hi ∷ lo ∷ rest
    → u16_at buf i ≡ found (be16 hi lo)
unfolding u16_at
u16_at-drop buf i {hi} {lo} here =
    rw (byte_at-drop buf i here, byte_at-drop buf (i + 1) (drop-next buf i here))

-- Rules for code that runs behind a check or a read, as the rest of its function.
module _ {ℓ} {B : Type ℓ} (Q : B → Type 0) where
  pub check-then : (b : Bool) (m : Outcome B) → (b ≡ true → Safe Q m) → Safe Q (ensure b >> m)
  check-then true m k = k refl
  check-then false m k = tt

  pub check_le-then :
      (a b : ℕ) (m : Outcome B) → (a ≤ b → Safe Q m) → Safe Q (ensure (leb a b) >> m)
  check_le-then a b m k = check-then (leb a b) m (λ h. k (leb→le a b h))

  pub byte_at-then :
      (buf : Bytes) (i : ℕ) (f : ℕ → Outcome B)
      → i < length buf
      → ((b : ℕ) → Safe Q (f b))
      → Safe Q (byte_at buf i >>= f)
  byte_at-then buf i f h k =
      >>=-Safe (λ _. Unit {0}) Q (byte_at buf i) f (byte_at-Safe buf i h) (λ b _. k b)

  pub u16_at-then :
      (buf : Bytes) (i : ℕ) (f : ℕ → Outcome B)
      → i + 1 < length buf
      → ((n : ℕ) → Safe Q (f n))
      → Safe Q (u16_at buf i >>= f)
  u16_at-then buf i f h k =
      >>=-Safe (λ _. Unit {0}) Q (u16_at buf i) f (u16_at-Safe buf i h) (λ n _. k n)

  pub slice-then :
      (buf : Bytes) (from to : ℕ) (f : Bytes → Outcome B)
      → from ≤ to
      → to ≤ length buf
      → ((s : Bytes) → length s ≡ to - from → Safe Q (f s))
      → Safe Q (slice buf from to >>= f)
  slice-then buf from to f h k =
      >>=-Safe (λ s. length s ≡ to - from) Q (slice buf from to) f (slice-Safe buf from to h k)

-- Behind `xs` at a position stands what follows `xs`.
pub drop-skip :
    (buf : Bytes) (i j : ℕ) (xs rest : Bytes)
    → drop i buf ≡ xs ++ rest
    → i + length xs ≡ j
    → drop j buf ≡ rest
drop-skip buf i j xs rest here e =
    rw (← e) (drop-add i (length xs) buf ∙ rw here (drop-append_len xs rest))

-- A sixteen-bit number is read back from its two bytes.
pub be16-u16_bytes : (n : ℕ) → IsU16 n → be16 (n / 256 % 256) (n % 256) ≡ n
be16-u16_bytes n h = omega arith

pub u16_at-u16_bytes :
    (buf : Bytes) (i n : ℕ) (rest : Bytes)
    → IsU16 n
    → drop i buf ≡ u16_bytes n ++ rest
    → u16_at buf i ≡ found n
u16_at-u16_bytes buf i n rest h here = u16_at-drop buf i here ∙ ap found (be16-u16_bytes n h)

pub slice-drop :
    (buf : Bytes) (i j : ℕ) (xs rest : Bytes)
    → drop i buf ≡ xs ++ rest
    → i + length xs ≡ j
    → j ≤ length buf
    → slice buf i j ≡ found xs
unfolding slice
slice-drop buf i j xs rest here e fits =
    let n : j - i ≡ length xs = omega arith in ground (arith, n, here, take-append_len xs rest)

-- `buf[i..i + xs.len()].copy_from_slice(xs)`, which panics where that range is not in `buf`.
unfoldable pub copy_to : Bytes → ℕ → Bytes → Outcome Bytes
copy_to buf i xs =
    if leb (i + length xs) (length buf)
    then found (take i buf ++ (xs ++ drop (i + length xs) buf))
    else panicked

-- `vec![x; n]`
abbrev pub replicate : ℕ → ℕ → Bytes
replicate zero x = []
replicate (suc n) x = x ∷ replicate n x

-- `usize::checked_add`
abbrev pub checked_add : ℕ → ℕ → Outcome ℕ
checked_add a b = if ltb (a + b) (2 ^ 64) then found (a + b) else missing

pub copy_to_lem :
    (before old new after : Bytes) (i : ℕ)
    → length before ≡ i
    → length old ≡ length new
    → copy_to (before ++ (old ++ after)) i new ≡ found (before ++ (new ++ after))
unfolding copy_to
copy_to_lem before old new after i e f =
    let behind = drop-add (length before) (length new) (before ++ (old ++ after)) in
    let rest : drop (length new) (old ++ after) ≡ after = rw (← f) (drop-append_len old after) in
    ground (
      arith,
      behind,
      rest,
      take-append_len before (old ++ after),
      drop-append_len before (old ++ after),
      length-append before (old ++ after),
      length-append old after,
    )

pub replicate-add : (n m x : ℕ) → replicate (n + m) x ≡ replicate n x ++ replicate m x
replicate-add zero m x = rw add.zero
replicate-add (suc n) m x = rw add.suc (ap (◌∷◌ x) (replicate-add n m x))

pub length-replicate : (n x : ℕ) → length (replicate n x) ≡ n
length-replicate zero x = refl
length-replicate (suc n) x = ap suc (length-replicate n x)

-- What is read from a buffer of bytes.
first-IsByte : (xs : Bytes) → All IsByte xs → 0 < length xs → Safe IsByte (first xs)
first-IsByte [] bytes h = absurd (omega arith)
first-IsByte (x ∷ xs) bytes h = bytes.0

pub byte_at-IsByte :
    (buf : Bytes) (i : ℕ) → All IsByte buf → i < length buf → Safe IsByte (byte_at buf i)
unfolding byte_at
byte_at-IsByte buf i bytes h =
    first-IsByte (drop i buf) (All-drop IsByte i buf bytes) (omega (arith, length-drop i buf))

pub u16_at-IsU16 :
    (buf : Bytes) (i : ℕ) → All IsByte buf → i + 1 < length buf → Safe IsU16 (u16_at buf i)
unfolding u16_at
u16_at-IsU16 buf i bytes h =
    ground (arith, byte_at-IsByte buf i bytes (omega arith), byte_at-IsByte buf (i + 1) bytes h)

pub slice-bytes :
    (buf : Bytes) (from to : ℕ)
    → All IsByte buf
    → from ≤ to
    → to ≤ length buf
    → Safe (λ s. (length s ≡ to - from) × All IsByte s) (slice buf from to)
unfolding slice
slice-bytes buf from to bytes h k =
    let kept = All-take IsByte (to - from) (drop from buf) (All-drop IsByte from buf bytes) in
    ground (arith, kept, length-take (to - from) (drop from buf), length-drop from buf)

pub get_slice-bytes :
    (buf : Bytes) (from to : ℕ)
    → All IsByte buf
    → Safe (λ s. (length s ≡ to - from) × (to ≤ length buf) × All IsByte s) (get_slice buf from to)
unfolding get_slice
get_slice-bytes buf from to bytes =
    let kept = All-take IsByte (to - from) (drop from buf) (All-drop IsByte from buf bytes) in
    ground (arith, kept, length-take (to - from) (drop from buf), length-drop from buf)

first?-Safe : (xs : Bytes) → Safe (λ _. 0 < length xs) (first? xs)
first?-Safe [] = tt
first?-Safe (x ∷ xs) = omega arith

pub get_byte-Safe : (buf : Bytes) (i : ℕ) → Safe (λ _. i < length buf) (get_byte buf i)
unfolding get_byte
get_byte-Safe buf i = ground (arith, first?-Safe (drop i buf), length-drop i buf)

pub get_slice-Safe :
    (buf : Bytes) (from to : ℕ)
    → Safe (λ _. (from ≤ to) × (to ≤ length buf)) (get_slice buf from to)
unfolding get_slice
get_slice-Safe buf from to = ground arith

pub get_slice-drop :
    (buf : Bytes) (i j : ℕ) (xs rest : Bytes)
    → drop i buf ≡ xs ++ rest
    → i + length xs ≡ j
    → j ≤ length buf
    → get_slice buf i j ≡ found xs
unfolding get_slice
get_slice-drop buf i j xs rest here e fits =
    let n : j - i ≡ length xs = omega arith in ground (arith, n, here, take-append_len xs rest)
