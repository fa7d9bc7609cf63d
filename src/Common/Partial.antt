-- ===== src/Common/Partial.antt =====
-- The result of code that may panic, and the checked arithmetic of Rust's integers.
use Prim.Native.Nat.{ℕ, ◌+◌, ◌-◌, ◌*◌, ◌^◌, ◌<◌, ◌≤◌}
use mathlib.Core.Path.{◌≡◌, refl}
use mathlib.Core.Logic.{◌⊎◌, inl, inr}
use mathlib.Core.Option.{Option, none, some}
use syfala_test.Common.Test.{ltb, if◌then◌else◌, lt→ltb, le→ltb_false}

pub data Outcome {ℓ} (A : Type ℓ) : Type ℓ where
  done : A → Outcome A
  panicked : Outcome A

infixl 5 ◌>>=◌ ◌>>◌
abbrev pub ◌>>=◌ {ℓ κ} : {A : Type ℓ} {B : Type κ} → Outcome A → (A → Outcome B) → Outcome B
done a >>= f = f a
panicked >>= f = panicked

abbrev pub ◌>>◌ {ℓ κ} : {A : Type ℓ} {B : Type κ} → Outcome A → Outcome B → Outcome B
m >> k = m >>= λ _. k

-- `Option::unwrap`
abbrev pub unwrap {ℓ} : {A : Type ℓ} → Option A → Outcome A
unwrap none = panicked
unwrap (some a) = done a

abbrev pub u64_mod : ℕ
u64_mod = 2 ^ 64

abbrev pub u32_mod : ℕ
u32_mod = 2 ^ 32

-- `strict_add`, `strict_sub` and `strict_mul` of `u64`, and of a 64-bit `usize`.
abbrev pub strict_add : ℕ → ℕ → Outcome ℕ
strict_add a b = if ltb (a + b) u64_mod then done (a + b) else panicked

abbrev pub strict_sub : ℕ → ℕ → Outcome ℕ
strict_sub a b = if ltb a b then panicked else done (a - b)

abbrev pub strict_mul : ℕ → ℕ → Outcome ℕ
strict_mul a b = if ltb (a * b) u64_mod then done (a * b) else panicked

pub Outcome-cases {ℓ} : {A : Type ℓ} (o : Outcome A) → (o ≡ panicked) ⊎ ((a : A) × (o ≡ done a))
Outcome-cases panicked = inl refl
Outcome-cases (done a) = inr (a, refl)

-- Inversion of a chain that did not panic.
pub >>=-eq-done {ℓ κ} :
    {A : Type ℓ} {B : Type κ} (m : Outcome A) (f : A → Outcome B) {b : B}
    → (m >>= f) ≡ done b
    → (a : A) × (m ≡ done a) × (f a ≡ done b)
>>=-eq-done (done a) f h = (a, refl, h)
>>=-eq-done panicked f h = cc

-- The checked operations where they do not overflow.
pub strict_add_ok : (a b : ℕ) → a + b < u64_mod → strict_add a b ≡ done (a + b)
strict_add_ok a b h = rw (lt→ltb (a + b) u64_mod h)

pub strict_sub_ok : (a b : ℕ) → b ≤ a → strict_sub a b ≡ done (a - b)
strict_sub_ok a b h = rw (le→ltb_false a b h)

pub strict_mul_ok : (a b : ℕ) → a * b < u64_mod → strict_mul a b ≡ done (a * b)
strict_mul_ok a b h = rw (lt→ltb (a * b) u64_mod h)
