-- ===== src/Utils/Queue/Shift.antt =====
-- What a shifted iterator yields, and what it leaves, after a number of calls of `next`.
use syfala_test.Common.{
  ℕ, zero, suc, ◌+◌, ◌-◌, ◌<◌, ◌≤◌, ◌≡◌, refl, ap, ◌∙◌, List, [], ◌∷◌, ◌++◌, window, take, drop,
  arith, drop-drop,
}
use syfala_test.Utils.Queue.{next, pull}

module _ {ℓ} {A : Type ℓ} where
  -- The elements left behind: none is touched while there is padding to yield.
  abbrev pub left : ℕ → ℕ → ℕ → List A → List A
  left zero p s xs = xs
  left (suc n) zero s xs = drop (s + suc n) xs
  left (suc n) (suc p) s xs = left n p s xs

  pub left-eq-drop : (n p s : ℕ) (xs : List A) → p < n → left n p s xs ≡ drop (s + (n - p)) xs
  left-eq-drop zero p s xs h = absurd (omega arith)
  left-eq-drop (suc n) zero s xs h = ap (λ k. drop k xs) (omega arith)
  left-eq-drop (suc n) (suc p) s xs h =
      left-eq-drop n p s xs (omega arith) ∙ ap (λ k. drop k xs) (omega arith)

  pub left-eq_self : (n p s : ℕ) (xs : List A) → n ≤ p → left n p s xs ≡ xs
  left-eq_self zero p s xs h = refl
  left-eq_self (suc n) zero s xs h = absurd (omega arith)
  left-eq_self (suc n) (suc p) s xs h = left-eq_self n p s xs (omega arith)

module _ {ℓ} {A : Type ℓ} (pad : ℕ → A) where
  -- Past the padding and the skipped elements the iterator is a list.
  pull_items :
      (n made : ℕ) (xs : List A)
      → pull pad n (record { padding = 0; made = made; skipping = 0; items = xs })
        ≡ (take n xs, record { padding = 0; made = made; skipping = 0; items = drop n xs })
  unfolding pull next
  pull_items zero made xs = refl
  pull_items (suc n) made [] = refl
  pull_items (suc n) made (x ∷ xs) = rw (pull_items n made xs)

  pub pull_lem :
      (n p made s : ℕ) (xs : List A)
      → let (out, it) =
          pull pad n (record { padding = p; made = made; skipping = s; items = xs }) in
        (out ≡ take n (window pad made p ++ drop s xs)) × (it.items ≡ left n p s xs)
  unfolding pull next
  pull_lem zero p made s xs = (refl, refl)
  pull_lem (suc n) (suc p) made s xs =
      let (out, it) = pull_lem n p (suc made) s xs in (ap (λ r. pad made ∷ r) out, it)
  pull_lem (suc n) zero made s xs = (
    ap (λ r. r.0) (pull_items (suc n) made (drop s xs)),
    ap (λ r. r.1.items) (pull_items (suc n) made (drop s xs)) ∙ drop-drop s (suc n) xs,
  )
