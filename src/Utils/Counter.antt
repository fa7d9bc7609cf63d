-- ===== src/Utils/Counter.antt =====
-- The counters of `syfala_utils/src/queue.rs`: `Counter`, `GenericCounter`, `Waker` and
-- `PeriodicCounter`. A counter is a `u64`; `usize` has 64 bits. A method that takes `&mut self`
-- returns the new value.

pub mod Boundaries
use syfala_test.Common.{
  ℕ, ◌+◌, ◌/◌, ◌≡◌, Outcome, done, ◌>>=◌, strict_add, strict_sub, if◌then◌else◌, ◌==◌, List, [],
  ◌∷◌, arith, ltb, panicked, >>=-eq-done, Bool, true, false, refl, ap, sym, ◌∙◌,
}

-- The trait `Counter`, with what its documentation asks of `current`.
pub record Counter {ℓ} (C : Type ℓ) : Type ℓ where
  pub advance : C → ℕ → Outcome C
  pub current : C → ℕ
  pub current-advance :
      (c : C) (delta : ℕ) (c' : C) → advance c delta ≡ done c' → current c' ≡ current c + delta

pub record GenericCounter : Type 0 where
  pub value : ℕ

pub new : GenericCounter
new = record { value = 0 }

unfoldable pub generic_advance : GenericCounter → ℕ → Outcome GenericCounter
generic_advance c delta = do value ← strict_add c.value delta; done (record { value = value })

pub generic_current-advance :
    (c : GenericCounter) (delta : ℕ) (c' : GenericCounter)
    → generic_advance c delta ≡ done c'
    → c'.value ≡ c.value + delta
unfolding generic_advance
generic_current-advance c delta c' e = ground arith

instance abbrev pub generic_counter : Counter GenericCounter
generic_counter = record {
  advance = generic_advance;
  current = λ c. c.value;
  current-advance = generic_current-advance;
}

-- The trait `Waker`; `wake` is called with a number that is not 0.
pub record Waker {ℓ} (W : Type ℓ) : Type ℓ where
  pub wake : W → ℕ → W

-- `impl Waker for ()`
instance abbrev pub unit_waker : Waker (Unit {0})
unit_waker = record { wake = λ w times. w }

-- `impl Waker for std::thread::Thread`, on a thread whose `unpark` is given.
abbrev pub thread_waker {ℓ} : {T : Type ℓ} → (T → T) → Waker T
thread_waker unpark = record { wake = λ thread times. unpark thread }

pub record PeriodicCounter {ℓ κ} (C : Type ℓ) (W : Type κ) : Type (ℓ ⊔ κ) where
  pub counter : C
  pub waker : W
  pub period : ℕ

module _ {ℓ κ} {C : Type ℓ} {W : Type κ} ⦃k : Counter C⦄ ⦃w : Waker W⦄ where
  unfoldable pub boundaries_crossed : PeriodicCounter C W → ℕ
  boundaries_crossed p = k.current p.counter / p.period

  unfoldable pub periodic_advance : PeriodicCounter C W → ℕ → Outcome (PeriodicCounter C W)
  unfolding boundaries_crossed
  periodic_advance p n = do
    let b = boundaries_crossed p
    counter ← k.advance p.counter n
    let p' = record p { counter = counter }
    crossed ← strict_sub (boundaries_crossed p') b
    done (if crossed == 0 then p' else record p' { waker = w.wake p'.waker crossed })

  -- `current`, and the implementation of `Counter`.
  unfoldable pub periodic_current : PeriodicCounter C W → ℕ
  periodic_current p = k.current p.counter

  woken_counter :
      (b : Bool) (p q : PeriodicCounter C W)
      → q.counter ≡ p.counter
      → (if b then p else q).counter ≡ p.counter
  woken_counter true p q h = refl
  woken_counter false p q h = h

  pub periodic_current-advance :
      (p : PeriodicCounter C W) (n : ℕ) (p' : PeriodicCounter C W)
      → periodic_advance p n ≡ done p'
      → periodic_current p' ≡ periodic_current p + n
  unfolding periodic_advance periodic_current
  periodic_current-advance p n p' e =
      let (c, advanced, rest) = >>=-eq-done (k.advance p.counter n) _ e in
      let q : PeriodicCounter C W = record p { counter = c } in
      let (crossed, subtracted, last) =
        >>=-eq-done (strict_sub (boundaries_crossed q) (boundaries_crossed p)) _ rest in
      let woken : PeriodicCounter C W = record q { waker = w.wake q.waker crossed } in
      let result : (if crossed == 0 then q else woken) ≡ p' = cc in
      let same : p'.counter ≡ c =
        ap (λ (x : PeriodicCounter C W). x.counter) (sym result)
        ∙ woken_counter (crossed == 0) q woken refl in
      ap k.current same ∙ k.current-advance p.counter n c advanced

  instance abbrev pub periodic_counter : Counter (PeriodicCounter C W)
  periodic_counter = record {
    advance = periodic_advance;
    current = periodic_current;
    current-advance = periodic_current-advance;
  }

  -- Successive calls of `advance`.
  unfoldable pub advance_all : PeriodicCounter C W → List ℕ → Outcome (PeriodicCounter C W)
  advance_all p [] = done p
  advance_all p (n ∷ ns) = do p' ← periodic_advance p n; advance_all p' ns
