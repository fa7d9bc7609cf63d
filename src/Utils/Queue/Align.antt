-- ===== src/Utils/Queue/Align.antt =====
-- The elements of a stream shifted by the difference of two indices: what `recv` and `send` share.
use syfala_test.Common.{
  ℕ, suc, ap₂, drop-min, ◌+◌, ◌-◌, ◌<◌, ◌≤◌, ◌^◌, ◌≡◌, ap, ◌∙◌, List, ◌++◌, length, take, drop,
  Option-cases, none, some, arith, if◌then◌else◌, leb, ltb, min, length-drop, checked_signed_diff,
  ℤ, pos, negsuc, Bool-cases, inl, inr, window, window-ext, take-window, drop-window, window-append,
  leb→le, lt→ltb, le→ltb_false,
}
use syfala_test.Utils.Queue.{shift_iter}
use syfala_test.Utils.Queue.Shift.{left, left-eq-drop, left-eq_self}

-- The `i64` difference exists.
abbrev pub InReach : ℕ → ℕ → Type 0
InReach a b = (a < b + 2 ^ 63) × (b ≤ a + 2 ^ 63)

pub signed_diff : ℕ → ℕ → ℤ
signed_diff a b = if leb b a then pos (a - b) else negsuc (b - a - 1)

pub checked_signed_diff-InReach :
    (a b : ℕ) → InReach a b → checked_signed_diff a b ≡ some (signed_diff a b)
unfolding checked_signed_diff signed_diff
checked_signed_diff-InReach a b h = ground arith

pub checked_signed_diff-none : (a b : ℕ) → ¬ InReach a b → checked_signed_diff a b ≡ none
unfolding checked_signed_diff
checked_signed_diff-none a b h = elim (Option-cases (checked_signed_diff a b)) [
  | inl e ↦ e
  | inr (d, e) ↦ absurd (h (ground arith, ground arith))
]

-- A shift by `a - b`: `b - a` elements of padding, or `a - b` to skip.
pub shift_iter_lem {ℓ} :
    {A : Type ℓ} (a b : ℕ) (it : List A)
    → shift_iter it (signed_diff a b)
      ≡ record { padding = b - a; made = 0; skipping = a - b; items = it }
unfolding shift_iter signed_diff
shift_iter_lem a b it = elim (Bool-cases (leb b a)) [
  | inl le ↦
      let e : 0 ≡ b - a = omega (arith, leb→le b a le) in
      rw le (ap (λ p. record { padding = p; made = 0; skipping = a - b; items = it }) e)
  | inr gt ↦
      let e : suc (b - a - 1) ≡ b - a = ground arith in
      let e' : 0 ≡ a - b = ground arith in
      rw gt (ap₂ (λ p s. record { padding = p; made = 0; skipping = s; items = it }) e e')
]

-- Where the padding ends and the stream goes on, by index.
abbrev pub timeline {ℓ} : {A : Type ℓ} → ℕ → ℕ → (ℕ → A) → (ℕ → A) → ℕ → A
timeline start known pad stream p = if ltb p known then pad (p - start) else stream p

-- A shifted stretch of a stream, read by index: it begins at `start`, the stream at `known`.
pub shifted-eq-window {ℓ} :
    {A : Type ℓ} (pad stream : ℕ → A) (n start known len : ℕ)
    → take n (window pad 0 (known - start) ++ drop (start - known) (window stream known len))
      ≡ window
          (timeline start known pad stream)
          start
          (min n (known - start + (len - (start - known))))
shifted-eq-window pad stream n start known len =
    ap (take n) (
      ap₂ ◌++◌
        (window-ext pad (timeline start known pad stream) 0 start (known - start)
          λ i h. rw (lt→ltb (start + i) known (omega arith)) (ap pad (omega arith)))
        (drop-window stream known len (start - known)
          ∙ window-ext stream (timeline start known pad stream) (known + (start - known))
              (start + (known - start)) (len - (start - known))
              λ i h.
                rw (le→ltb_false (start + (known - start) + i) known (omega arith))
                  (ap stream (omega arith)))
      ∙ window-append (timeline start known pad stream) start (known - start)
          (len - (start - known)))
    ∙ take-window (timeline start known pad stream) start (known - start + (len - (start - known)))
        n

-- How many elements of the stream `n` calls of `next` consume.
unfoldable pub consumed : ℕ → ℕ → ℕ → ℕ → ℕ
consumed n p s len = if leb n p then 0 else min len (s + (n - p))

pub consumed-le : (n p s len : ℕ) → consumed n p s len ≤ len
unfolding consumed
consumed-le n p s len = ground arith

pub left_lem {ℓ} :
    {A : Type ℓ} (n p s : ℕ) (xs : List A)
    → (left n p s xs ≡ drop (consumed n p s (length xs)) xs)
      × (length xs - length (left n p s xs) ≡ consumed n p s (length xs))
      × (length (left n p s xs) ≤ length xs)
unfolding consumed
left_lem n p s xs = elim (Bool-cases (leb n p)) [
  | inl few ↦
      let same = left-eq_self n p s xs (leb→le n p few) in
      rw few (same, omega (arith, ap length same), omega (arith, ap length same))
  | inr many ↦
      let lt : p < n = ground arith in
      let same = left-eq-drop n p s xs lt in
      let size = length-drop (s + (n - p)) xs in
      rw many (
        same ∙ drop-min (s + (n - p)) xs,
        omega (arith, ap length same, size),
        omega (arith, ap length same, size),
      )
]
