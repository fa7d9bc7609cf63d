-- ===== src/Network/ServerMap.antt =====
-- The map of connected servers, a `HashMap` keyed by address: an association list. Its order stands
-- for the order in which the map is iterated, which is any.
use syfala_test.Common.{
  ℕ, ◌≡◌, refl, Bool, true, false, List, [], ◌∷◌, Option, none, some, if◌then◌else◌, ◌==◌, arith,
}

abbrev pub ServerMap {ℓ} : Type ℓ → Type ℓ
ServerMap V = List (ℕ × V)

abbrev pub is_some {ℓ} : {A : Type ℓ} → Option A → Bool
is_some none = false
is_some (some _) = true

pub is_some-true {ℓ} : {A : Type ℓ} (o : Option A) → is_some o ≡ true → (x : A) × (o ≡ some x)
is_some-true none e = cc
is_some-true (some x) e = (x, refl)

pub is_some-false {ℓ} : {A : Type ℓ} (o : Option A) → is_some o ≡ false → o ≡ none
is_some-false none e = refl
is_some-false (some x) e = cc

module _ {ℓ} {V : Type ℓ} where
  unfoldable pub get : ℕ → ServerMap V → Option V
  get a [] = none
  get a ((b, v) ∷ m) = if a == b then some v else get a m

  -- Also what is written through `get_mut`.
  unfoldable pub insert : ℕ → V → ServerMap V → ServerMap V
  insert a v [] = (a, v) ∷ []
  insert a v ((b, w) ∷ m) = if a == b then (a, v) ∷ m else (b, w) ∷ insert a v m

  unfoldable pub remove : ℕ → ServerMap V → ServerMap V
  remove a [] = []
  remove a ((b, v) ∷ m) = if a == b then remove a m else (b, v) ∷ remove a m

  pub get-insert :
      (a b : ℕ) (v : V) (m : ServerMap V)
      → get a (insert b v m) ≡ (if a == b then some v else get a m)
  unfolding get insert
  get-insert a b v [] = refl
  get-insert a b v ((c, w) ∷ m) = ground (arith, get-insert a b v m)

  pub get-remove :
      (a b : ℕ) (m : ServerMap V) → get a (remove b m) ≡ (if a == b then none else get a m)
  unfolding get remove
  get-remove a b [] = ground arith
  get-remove a b ((c, w) ∷ m) = ground (arith, get-remove a b m)

abbrev pub contains_key {ℓ} : {V : Type ℓ} → ℕ → ServerMap V → Bool
contains_key a m = is_some (get a m)
