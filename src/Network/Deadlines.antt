-- ===== src/Network/Deadlines.antt =====
-- The priority queue of connection deadlines. The crate `priority_queue` is not part of the
-- repository: its operations are a parameter, with the behaviour that it documents. A priority is
-- an instant, and the earliest has the highest priority (`cmp::Reverse`).
use syfala_test.Common.{
  ℕ, suc, ◌≤◌, ◌≡◌, Bool, true, false, Option, none, some, if◌then◌else◌, ◌==◌,
}

pub record DeadlineQueue : Type 1 where
  pub Queue : Type 0
  pub empty : Queue
  pub size : Queue → ℕ
  -- the deadline of an address
  pub get_priority : ℕ → Queue → Option ℕ
  pub push : ℕ → ℕ → Queue → Queue
  pub remove : ℕ → Queue → Option ℕ × Queue
  pub peek : Queue → Option (ℕ × ℕ)
  pub pop_if : (ℕ → Bool) → Queue → Option (ℕ × ℕ) × Queue
  pub get_priority-empty : (a : ℕ) → get_priority a empty ≡ none
  -- `push` replaces the deadline of an address that is there
  pub get_priority-push :
      (a b t : ℕ) (q : Queue)
      → get_priority a (push b t q) ≡ (if a == b then some t else get_priority a q)
  pub remove_value : (a : ℕ) (q : Queue) → (remove a q).0 ≡ get_priority a q
  pub get_priority-remove :
      (a b : ℕ) (q : Queue)
      → get_priority a (remove b q).1 ≡ (if a == b then none else get_priority a q)
  pub size-remove :
      (a t : ℕ) (q : Queue) → get_priority a q ≡ some t → suc (size (remove a q).1) ≡ size q
  pub peek_none : (q : Queue) → peek q ≡ none → (a : ℕ) → get_priority a q ≡ none
  pub peek_some : (q : Queue) (a t : ℕ) → peek q ≡ some (a, t) → get_priority a q ≡ some t
  pub peek_earliest :
      (q : Queue) (a t : ℕ) → peek q ≡ some (a, t) → (b u : ℕ) → get_priority b q ≡ some u → t ≤ u
  pub pop_if_empty : (p : ℕ → Bool) (q : Queue) → peek q ≡ none → pop_if p q ≡ (none, q)
  pub pop_if_false :
      (p : ℕ → Bool) (q : Queue) (a t : ℕ)
      → peek q ≡ some (a, t)
      → p t ≡ false
      → pop_if p q ≡ (none, q)
  pub pop_if_true :
      (p : ℕ → Bool) (q : Queue) (a t : ℕ)
      → peek q ≡ some (a, t)
      → p t ≡ true
      → pop_if p q ≡ (some (a, t), (remove a q).1)
