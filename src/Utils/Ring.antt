-- ===== src/Utils/Ring.antt =====
-- The two ends of an `rtrb` ring buffer as the source uses them. The crate is not part of the
-- repository: the ends are parameters, with the documented behaviour that the source relies on.
use syfala_test.Common.{ℕ, ◌≡◌, List, ◌++◌, length, take, drop, min}

-- A `Consumer`. `readable` is what a read chunk of all its `slots()` holds; `commit k` is the state
-- once an iterator over that chunk is dropped after it yielded `k` elements.
pub record RingConsumer {ℓ κ} (A : Type ℓ) (Rx : Type κ) : Type (ℓ ⊔ κ) where
  pub readable : Rx → List A
  pub commit : Rx → ℕ → Rx
  pub readable-commit : (rx : Rx) (k : ℕ) → readable (commit rx k) ≡ drop k (readable rx)

-- A `Producer`. `slots` is what `slots()` returns; `fill xs` is `fill_from_iter` on a write chunk
-- of that many slots, and `written` is all that was ever written.
pub record RingProducer {ℓ κ} (A : Type ℓ) (Tx : Type κ) : Type (ℓ ⊔ κ) where
  pub slots : Tx → ℕ
  pub fill : Tx → List A → Tx × ℕ
  pub written : Tx → List A
  pub written-fill :
      (tx : Tx) (xs : List A) → written (fill tx xs).0 ≡ written tx ++ take (slots tx) xs
  pub fill-count : (tx : Tx) (xs : List A) → (fill tx xs).1 ≡ min (slots tx) (length xs)
