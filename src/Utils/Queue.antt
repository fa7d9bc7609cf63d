-- ===== src/Utils/Queue.antt =====
-- The adapters of `syfala_utils/src/queue.rs` that shift a stream to an index: `shift_iter`,
-- `IndexedRx` and `IndexedTx`. An iterator is a record with a `next`; what the caller pulls is a
-- number of calls. `pad_fn` may hold state: `pad k` is the result of its call number `k`.

pub mod Shift
pub mod Align
pub mod Recv
pub mod Send
pub mod History
use syfala_test.Common.{
  ℕ, zero, suc, ◌+◌, ◌-◌, ◌≡◌, Outcome, done, ◌>>=◌, unwrap, strict_sub, Bool, true, false,
  if◌then◌else◌, ◌==◌, List, [], ◌∷◌, length, drop, Option, none, some, ℤ, is_negative,
  unsigned_abs, window, checked_signed_diff,
}
use syfala_test.Utils.Counter.{Counter}
use syfala_test.Utils.Ring.{RingConsumer, RingProducer}

-- `chain(repeat_with(pad_fn).take(padding), it.skip(skipping))`, with the number of calls that
-- `pad_fn` has had and the elements that `it` has not yielded.
pub record ShiftIter {ℓ} (A : Type ℓ) : Type ℓ where
  pub padding : ℕ
  pub made : ℕ
  pub skipping : ℕ
  pub items : List A

module _ {ℓ} {A : Type ℓ} where
  unfoldable pub shift_iter : List A → ℤ → ShiftIter A
  shift_iter it deviation =
      let n = unsigned_abs deviation in
      if is_negative deviation
      then record { padding = n; made = 0; skipping = 0; items = it }
      else record { padding = 0; made = 0; skipping = n; items = it }

  -- The first element past those to skip; `Skip` skips once.
  abbrev pub next_item : ℕ → List A → Option A × ShiftIter A
  next_item made [] = (none, record { padding = 0; made = made; skipping = 0; items = [] })
  next_item made (x ∷ xs) = (some x, record { padding = 0; made = made; skipping = 0; items = xs })

  abbrev next_by : (ℕ → A) → ℕ → ℕ → ℕ → List A → Option A × ShiftIter A
  next_by pad zero made skipping items = next_item made (drop skipping items)
  next_by pad (suc padding) made skipping items = (
    some (pad made),
    record { padding = padding; made = suc made; skipping = skipping; items = items },
  )

  -- `next` of the shifted iterator.
  unfoldable pub next : (ℕ → A) → ShiftIter A → Option A × ShiftIter A
  next pad it = next_by pad it.padding it.made it.skipping it.items

  abbrev continue_with :
      (ShiftIter A → List A × ShiftIter A) → Option A × ShiftIter A → List A × ShiftIter A
  continue_with rest (none, it) = ([], it)
  continue_with rest (some x, it) = let (xs, it') = rest it in (x ∷ xs, it')

  -- At most `calls` calls of `next`, up to the first `None`, as a `for` loop makes them.
  unfoldable pub pull : (ℕ → A) → ℕ → ShiftIter A → List A × ShiftIter A
  pull pad zero it = ([], it)
  pull pad (suc calls) it = continue_with (pull pad calls) (next pad it)

pub record IndexedRx {ℓ κ} (C : Type ℓ) (Rx : Type κ) : Type (ℓ ⊔ κ) where
  pub rx : Rx
  pub counter : C

module _ {ℓ κ μ} {A : Type ℓ} {Rx : Type κ} {C : Type μ} ⦃k : Counter C⦄
    (ring : RingConsumer A Rx) where
  -- `drop` of `ReadChunksIterCounter`: the counter moves by the elements that were consumed, and
  -- the chunk's slots of these are given back to the producer.
  unfoldable pub drop_iter : IndexedRx C Rx → List A → Outcome (IndexedRx C Rx)
  drop_iter r left = do
    consumed ← strict_sub (length (ring.readable r.rx)) (length left)
    counter ← k.advance r.counter consumed
    done (record { rx = ring.commit r.rx consumed; counter = counter })

  -- `recv`, and a caller that makes `calls` calls of `next` and drops the iterator.
  unfoldable pub recv : IndexedRx C Rx → ℕ → (ℕ → A) → ℕ → Outcome (List A × IndexedRx C Rx)
  unfolding drop_iter
  recv r idx pad calls = do
    deviation ← unwrap (checked_signed_diff idx (k.current r.counter))
    let (out, it) = pull pad calls (shift_iter (ring.readable r.rx) deviation)
    r' ← drop_iter r it.items
    done (out, r')

pub record IndexedTx {ℓ κ} (C : Type ℓ) (Tx : Type κ) : Type (ℓ ⊔ κ) where
  pub counter : C
  pub tx : Tx

module _ {ℓ κ μ} {A : Type ℓ} {Tx : Type κ} {C : Type μ} ⦃k : Counter C⦄
    (ring : RingProducer A Tx) where
  -- `fill_from_iter` pulls at most as many elements as there are free slots.
  unfoldable pub send : IndexedTx C Tx → ℕ → List A → (ℕ → A) → Outcome (IndexedTx C Tx)
  send t idx values pad = do
    deviation ← unwrap (checked_signed_diff (k.current t.counter) idx)
    let (out, it) = pull pad (ring.slots t.tx) (shift_iter values deviation)
    let (tx, n_pushed_samples) = ring.fill t.tx out
    counter ← k.advance t.counter n_pushed_samples
    done (record { counter = counter; tx = tx })

  -- Successive calls of `send`, each with the index and the number of its values, which come from
  -- the sequence `vals`.
  unfoldable pub send_all :
      (ℕ → A) → (ℕ → A) → IndexedTx C Tx → List (ℕ × ℕ) → Outcome (IndexedTx C Tx)
  send_all vals pad t [] = done t
  send_all vals pad t ((idx, len) ∷ calls) = do
    t' ← send t idx (window vals idx len) pad
    send_all vals pad t' calls
