-- ===== src/Utils/Counter/Boundaries.antt =====
-- What the waker of a `PeriodicCounter` is told, whatever the sizes of the advances.
use native.Mathlib.Nat.{le-div_iff_mul-le, div-mul-le_self}
use syfala_test.Common.{
  ℕ, ◌+◌, ◌-◌, ◌/◌, ◌<◌, ◌≤◌, ◌≡◌, refl, done, List, [], ◌∷◌, arith, >>=-eq-done, u64_mod,
  le→ltb_false,
}
use syfala_test.Utils.Counter.{
  Counter, GenericCounter, generic_counter, generic_advance, Waker, PeriodicCounter,
  boundaries_crossed, periodic_advance, advance_all,
}

abbrev pub sum : List ℕ → ℕ
sum [] = 0
sum (n ∷ ns) = n + sum ns

pub div_mono : (a b p : ℕ) → a ≤ b → 0 < p → a / p ≤ b / p
div_mono a b p h pos = (le-div_iff_mul-le pos).1 (omega (arith, div-mul-le_self a p))

module _ {ℓ κ} {C : Type ℓ} {W : Type κ} ⦃k : Counter C⦄ ⦃w : Waker W⦄ where
  -- One call keeps the period and moves the counter by `n`.
  pub periodic_advance_moves :
      (p : PeriodicCounter C W) (n : ℕ) (p' : PeriodicCounter C W)
      → periodic_advance p n ≡ done p'
      → (p'.period ≡ p.period) × (k.current p'.counter ≡ k.current p.counter + n)
  unfolding periodic_advance boundaries_crossed
  periodic_advance_moves p n p' e =
      let (c, advanced, rest) = >>=-eq-done (k.advance p.counter n) _ e in
      let moved = k.current-advance p.counter n c advanced in ground (arith, moved)

module _ {ℓ κ} {C : Type ℓ} {W : Type κ} ⦃k : Counter C⦄ ⦃w : Waker W⦄ (total : W → ℕ)
    (total-wake : (v : W) (times : ℕ) → total (w.wake v times) ≡ total v + times) where
  -- One call keeps the period, moves the counter by `n`, and wakes once per boundary crossed.
  pub periodic_advance_lem :
      (p : PeriodicCounter C W) (n : ℕ) (p' : PeriodicCounter C W)
      → 0 < p.period
      → periodic_advance p n ≡ done p'
      → (p'.period ≡ p.period)
        × (k.current p'.counter ≡ k.current p.counter + n)
        × (total p'.waker + boundaries_crossed p ≡ total p.waker + boundaries_crossed p')
  unfolding periodic_advance boundaries_crossed
  periodic_advance_lem p n p' pos e =
      let (c, advanced, rest) = >>=-eq-done (k.advance p.counter n) _ e in
      let moved = k.current-advance p.counter n c advanced in
      ground (
        arith,
        moved,
        div_mono (k.current p.counter) (k.current c) p.period,
        total-wake p.waker (k.current c / p.period - k.current p.counter / p.period),
      )

  pub advance_all_lem :
      (p : PeriodicCounter C W) (ns : List ℕ) (p' : PeriodicCounter C W)
      → 0 < p.period
      → advance_all p ns ≡ done p'
      → (p'.period ≡ p.period)
        × (k.current p'.counter ≡ k.current p.counter + sum ns)
        × (total p'.waker + boundaries_crossed p ≡ total p.waker + boundaries_crossed p')
  unfolding advance_all
  advance_all_lem p [] p' pos e = ground arith
  advance_all_lem p (n ∷ ns) p' pos e =
      let (q, first, rest) = >>=-eq-done (periodic_advance p n) _ e in
      let (per, cur, woken) = periodic_advance_lem p n q pos first in
      ground (arith, advance_all_lem q ns p' (omega arith) rest)

-- A counter that stays below 2^64 does not panic.
pub generic_advance_total :
    (c : GenericCounter) (n : ℕ)
    → c.value + n < u64_mod
    → generic_advance c n ≡ done (record { value = c.value + n })
unfolding generic_advance
generic_advance_total c n h = ground arith

module _ {κ} {W : Type κ} ⦃w : Waker W⦄ where
  periodic_advance_total :
      (p : PeriodicCounter GenericCounter W) (n : ℕ)
      → 0 < p.period
      → p.counter.value + n < u64_mod
      → (p' : PeriodicCounter GenericCounter W) × (periodic_advance p n ≡ done p')
  unfolding periodic_advance boundaries_crossed
  periodic_advance_total p n pos small = rw (generic_advance_total p.counter n small) (
      rw
        (le→ltb_false ((p.counter.value + n) / p.period) (p.counter.value / p.period)
          (div_mono p.counter.value (p.counter.value + n) p.period (omega arith) pos))
        (_, refl))

  advance_all_total :
      (p : PeriodicCounter GenericCounter W) (ns : List ℕ)
      → 0 < p.period
      → p.counter.value + sum ns < u64_mod
      → (p' : PeriodicCounter GenericCounter W) × (advance_all p ns ≡ done p')
  unfolding advance_all
  advance_all_total p [] pos small = (p, refl)
  advance_all_total p (n ∷ ns) pos small =
      let (q, first) = periodic_advance_total p n pos (omega arith) in
      let (per, cur) = periodic_advance_moves p n q first in
      let (p', rest) = advance_all_total q ns (omega arith) (omega arith) in (p', rw first rest)

  -- Advances of a counter that stays below 2^64 do not panic. Whatever their sizes, the period
  -- is kept, the counter moves by their sum, and a waker that adds up its wakes has been woken
  -- once for each multiple of the period passed.
  pub advance_all_wakes :
      (total : W → ℕ)
      → ((v : W) (times : ℕ) → total (w.wake v times) ≡ total v + times)
      → (p : PeriodicCounter GenericCounter W) (ns : List ℕ) → 0 < p.period
      → p.counter.value + sum ns < u64_mod
      → (p' : PeriodicCounter GenericCounter W) × (advance_all p ns ≡ done p')
        × (p'.period ≡ p.period)
        × (p'.counter.value ≡ p.counter.value + sum ns)
        × (total p'.waker + p.counter.value / p.period
            ≡ total p.waker + (p.counter.value + sum ns) / p.period)
  unfolding boundaries_crossed
  advance_all_wakes total add p ns pos small =
      let (p', run) = advance_all_total p ns pos small in
      let (per, cur, woken) = advance_all_lem total add p ns p' pos run in
      (p', run, per, cur, ground arith)
