-- ===== src/Common/Window.antt =====
-- A stretch of an infinite sequence as a list.
use Prim.Native.Nat.{ℕ, zero, suc, ◌+◌, ◌-◌, ◌<◌, min}
use mathlib.Core.Path.{◌≡◌, refl, ap, ap₂, ◌∙◌}
use mathlib.Core.List.{List, [], ◌∷◌, ◌++◌}
use native.Mathlib.Omega.{arith}
use syfala_test.Common.Lists.{length, take, drop}

module _ {ℓ} {A : Type ℓ} where
  -- The `n` elements of `f` from position `start` on.
  abbrev pub window : (ℕ → A) → ℕ → ℕ → List A
  window f start zero = []
  window f start (suc n) = f start ∷ window f (suc start) n

  pub length-window : (f : ℕ → A) (start n : ℕ) → length (window f start n) ≡ n
  length-window f start zero = refl
  length-window f start (suc n) = ap suc (length-window f (suc start) n)

  pub window-ext :
      (f g : ℕ → A) (a b n : ℕ)
      → ((i : ℕ) → i < n → f (a + i) ≡ g (b + i))
      → window f a n ≡ window g b n
  window-ext f g a b zero h = refl
  window-ext f g a b (suc n) h = ap₂ ◌∷◌ first (window-ext f g (suc a) (suc b) n later)
    where
      first : f a ≡ g b
      first =
          let e : a ≡ a + 0 = omega arith in
          let e' : b + 0 ≡ b = omega arith in ap f e ∙ h 0 (omega arith) ∙ ap g e'

      later : (i : ℕ) → i < n → f (suc a + i) ≡ g (suc b + i)
      later i lt =
          let e : suc a + i ≡ a + suc i = omega arith in
          let e' : b + suc i ≡ suc b + i = omega arith in ap f e ∙ h (suc i) (omega arith) ∙ ap g e'

  pub take-window :
      (f : ℕ → A) (start n k : ℕ) → take k (window f start n) ≡ window f start (min k n)
  take-window f start n zero = let e : 0 ≡ min 0 n = omega arith in ap (window f start) e
  take-window f start zero (suc k) =
      let e : 0 ≡ min (suc k) 0 = omega arith in ap (window f start) e
  take-window f start (suc n) (suc k) =
      let e : suc (min k n) ≡ min (suc k) (suc n) = omega arith in
      ap (λ r. f start ∷ r) (take-window f (suc start) n k) ∙ ap (window f start) e

  pub drop-window :
      (f : ℕ → A) (start n k : ℕ) → drop k (window f start n) ≡ window f (start + k) (n - k)
  drop-window f start n zero =
      let e : start ≡ start + 0 = omega arith in
      let e' : n ≡ n - 0 = omega arith in ap₂ (window f) e e'
  drop-window f start zero (suc k) =
      let e : 0 ≡ 0 - suc k = omega arith in ap (window f (start + suc k)) e
  drop-window f start (suc n) (suc k) =
      let e : suc start + k ≡ start + suc k = omega arith in
      let e' : n - k ≡ suc n - suc k = omega arith in
      drop-window f (suc start) n k ∙ ap₂ (window f) e e'

  pub window-append :
      (f : ℕ → A) (start m n : ℕ)
      → window f start m ++ window f (start + m) n ≡ window f start (m + n)
  window-append f start zero n =
      let e : start + 0 ≡ start = omega arith in
      let e' : n ≡ 0 + n = omega arith in ap₂ (window f) e e'
  window-append f start (suc m) n =
      let e : start + suc m ≡ suc start + m = omega arith in
      let e' : suc (m + n) ≡ suc m + n = omega arith in
      ap (λ s. f start ∷ window f (suc start) m ++ window f s n) e
      ∙ ap (λ r. f start ∷ r) (window-append f (suc start) m n)
      ∙ ap (window f start) e'
