-- ===== src/Shared/Fallible.antt =====
-- A Rust function that returns `Option` and may panic: by an index out of range, a slice out of
-- range or a checked operation that overflows.
use mathlib.Core.Path.{◌≡◌, refl, subst}
use mathlib.Core.Logic.{◌≢◌, ◌⊎◌, inl, inr}
use mathlib.Core.Bool.{Bool, true, false}
use mathlib.Core.Option.{Option, none, some}

pub data Outcome {ℓ} (A : Type ℓ) : Type ℓ where
  found : A → Outcome A
  missing : Outcome A
  panicked : Outcome A

infixl 5 ◌>>=◌ ◌>>◌
abbrev pub ◌>>=◌ {ℓ κ} : {A : Type ℓ} {B : Type κ} → Outcome A → (A → Outcome B) → Outcome B
found a >>= f = f a
missing >>= f = missing
panicked >>= f = panicked

abbrev pub ◌>>◌ {ℓ} : {B : Type ℓ} → Outcome (Unit {0}) → Outcome B → Outcome B
m >> k = m >>= λ _. k

-- `?` on an Option or on a Result whose error is not told apart.
abbrev pub and_then {ℓ κ} : {A : Type ℓ} {B : Type κ} → Option A → (A → Option B) → Option B
and_then none f = none
and_then (some a) f = f a

pub and_then-some :
    {A B : Type 0} (o : Option A) (f : A → Option B) {b : B}
    → and_then o f ≡ some b
    → (a : A) × (o ≡ some a) × (f a ≡ some b)
and_then-some none f h = cc
and_then-some (some a) f h = (a, refl, h)

-- `if !test { return None; }`
abbrev pub ensure : Bool → Outcome (Unit {0})
ensure true = found tt
ensure false = missing

-- The `?` operator at an `Option`.
abbrev pub lift {ℓ} : {A : Type ℓ} → Option A → Outcome A
lift none = missing
lift (some a) = found a

-- The result satisfies `P` where there is one, and the code does not panic.
abbrev pub Safe {ℓ} : {A : Type ℓ} → (A → Type 0) → Outcome A → Type 0
Safe P (found a) = P a
Safe P missing = Unit
Safe P panicked = ⊥

pub >>=-Safe {ℓ κ} :
    {A : Type ℓ} {B : Type κ} (before : A → Type 0) (after : B → Type 0) (m : Outcome A)
    (f : A → Outcome B)
    → Safe before m
    → ((a : A) → before a → Safe after (f a))
    → Safe after (m >>= f)
>>=-Safe before after (found a) f h k = k a h
>>=-Safe before after missing f h k = tt
>>=-Safe before after panicked f h k = absurd h

pub ensure-Safe : (b : Bool) → Safe (λ _. b ≡ true) (ensure b)
ensure-Safe true = refl
ensure-Safe false = tt

pub Safe-ne-panicked {ℓ} : {A : Type ℓ} (P : A → Type 0) (m : Outcome A) → Safe P m → m ≢ panicked
Safe-ne-panicked P (found a) h e = cc
Safe-ne-panicked P missing h e = cc
Safe-ne-panicked P panicked h e = absurd h

pub Safe-found {ℓ} :
    {A : Type ℓ} (P : A → Type 0) (m : Outcome A) {b : A} → Safe P m → m ≡ found b → P b
Safe-found P (found a) {b} h e = subst P (cc) h
Safe-found P missing h e = cc
Safe-found P panicked h e = absurd h

pub >>=-eq-found {ℓ κ} :
    {A : Type ℓ} {B : Type κ} (m : Outcome A) (f : A → Outcome B) {b : B}
    → (m >>= f) ≡ found b
    → (a : A) × (m ≡ found a) × (f a ≡ found b)
>>=-eq-found (found a) f h = (a, refl, h)
>>=-eq-found missing f h = cc
>>=-eq-found panicked f h = cc

pub Outcome-cases {ℓ} :
    {A : Type ℓ} (m : Outcome A) → ((a : A) × (m ≡ found a)) ⊎ ((m ≡ missing) ⊎ (m ≡ panicked))
Outcome-cases (found a) = inl (a, refl)
Outcome-cases missing = inr (inl refl)
Outcome-cases panicked = inr (inr refl)
