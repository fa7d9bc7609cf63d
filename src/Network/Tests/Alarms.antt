-- ===== src/Network/Tests/Alarms.antt =====
-- A queue of deadlines as a list of slots, one for each address, with the behaviour that
-- `DeadlineQueue` asks for.
use syfala_test.Common.{
  ℕ, zero, suc, ◌≤◌, ◌≡◌, refl, ap, Bool, Option, none, some, if◌then◌else◌, ◌==◌, leb, List, [],
  ◌∷◌, arith, inl, inr, Option-cases,
}
use syfala_test.Network.Deadlines.{DeadlineQueue}

abbrev Slots : Type 0
Slots = List (Option ℕ)

abbrev find : ℕ → Slots → Option ℕ
find a [] = none
find zero (o ∷ q) = o
find (suc a) (o ∷ q) = find a q

abbrev put : ℕ → Option ℕ → Slots → Slots
put zero o [] = o ∷ []
put (suc a) o [] = none ∷ put a o []
put zero o (_ ∷ q) = o ∷ q
put (suc a) o (x ∷ q) = x ∷ put a o q

abbrev count : Slots → ℕ
count [] = 0
count (none ∷ q) = count q
count (some _ ∷ q) = suc (count q)

abbrev first : Option ℕ → Option (ℕ × ℕ) → Option (ℕ × ℕ)
first none none = none
first none (some (a, u)) = some (suc a, u)
first (some t) none = some (0, t)
first (some t) (some (a, u)) = if leb t u then some (0, t) else some (suc a, u)

abbrev earliest : Slots → Option (ℕ × ℕ)
earliest [] = none
earliest (o ∷ q) = first o (earliest q)

abbrev pop : (ℕ → Bool) → Slots → Option (ℕ × ℕ) → Option (ℕ × ℕ) × Slots
pop p q none = (none, q)
pop p q (some (a, t)) = if p t then (some (a, t), put a none q) else (none, q)

find-put-nil : (a b : ℕ) (o : Option ℕ) → find a (put b o []) ≡ (if a == b then o else none)
find-put-nil zero zero o = refl
find-put-nil zero (suc b) o = ground arith
find-put-nil (suc a) zero o = ground arith
find-put-nil (suc a) (suc b) o = ground (arith, find-put-nil a b o)

pub find-put :
    (a b : ℕ) (o : Option ℕ) (q : Slots) → find a (put b o q) ≡ (if a == b then o else find a q)
find-put a b o [] = find-put-nil a b o
find-put zero zero o (x ∷ q) = refl
find-put zero (suc b) o (x ∷ q) = ground arith
find-put (suc a) zero o (x ∷ q) = ground arith
find-put (suc a) (suc b) o (x ∷ q) = ground (arith, find-put a b o q)

pub count-put : (a t : ℕ) (q : Slots) → find a q ≡ some t → suc (count (put a none q)) ≡ count q
count-put a t [] e = cc
count-put zero t (none ∷ q) e = cc
count-put zero t (some u ∷ q) e = refl
count-put (suc a) t (none ∷ q) e = count-put a t q e
count-put (suc a) t (some u ∷ q) e = ap suc (count-put a t q e)

pub earliest-none : (q : Slots) → earliest q ≡ none → (a : ℕ) → find a q ≡ none
earliest-none [] e a = refl
earliest-none (none ∷ q) e zero = refl
earliest-none (some t ∷ q) e a = ground arith
earliest-none (none ∷ q) e (suc a) = earliest-none q (ground arith) a

pub earliest-some : (q : Slots) (a t : ℕ) → earliest q ≡ some (a, t) → find a q ≡ some t
earliest-some [] a t e = cc
earliest-some (none ∷ q) zero t e = ground arith
earliest-some (none ∷ q) (suc a) t e = earliest-some q a t (ground arith)
earliest-some (some u ∷ q) zero t e = ground arith
earliest-some (some u ∷ q) (suc a) t e = earliest-some q a t (ground arith)

pub earliest_least :
    (q : Slots) (a t : ℕ) → earliest q ≡ some (a, t) → (b u : ℕ) → find b q ≡ some u → t ≤ u
earliest_least [] a t e b u f = cc
earliest_least (none ∷ q) zero t e b u f = ground arith
earliest_least (none ∷ q) (suc a) t e zero u f = cc
earliest_least (none ∷ q) (suc a) t e (suc b) u f = earliest_least q a t (ground arith) b u f
earliest_least (some v ∷ q) a t e zero u f = ground arith
earliest_least (some v ∷ q) a t e (suc b) u f = elim (Option-cases (earliest q)) [
  | inl over ↦ let missing = earliest-none q over b in cc
  | inr ((c, w), next) ↦ let least = earliest_least q c w next b u f in ground arith
]

abbrev pub alarms : DeadlineQueue
alarms = record {
  Queue = Slots;
  empty = [];
  size = count;
  get_priority = find;
  push = λ a t q. put a (some t) q;
  remove = λ a q. (find a q, put a none q);
  peek = earliest;
  pop_if = λ p q. pop p q (earliest q);
  get_priority-empty = λ a. refl;
  get_priority-push = λ a b t q. find-put a b (some t) q;
  remove_value = λ a q. refl;
  get_priority-remove = λ a b q. find-put a b none q;
  size-remove = count-put;
  peek_none = earliest-none;
  peek_some = earliest-some;
  peek_earliest = earliest_least;
  pop_if_empty = λ p q e. rw e;
  pop_if_false = λ p q a t e e'. rw (e, e');
  pop_if_true = λ p q a t e e'. rw (e, e');
}
