-- ===== src/Utils/Trait.antt =====
-- The traits `SampleSize`, `SampleToBytes` and `SampleFromBytes` of
-- `syfala_utils/src/sample_type.rs` as an interface, with what their documentation promises, and
-- the integer and float types as its implementations.
use syfala_test.Common.{
  ℕ, ◌<◌, ◌≡◌, ◌≢◌, ◌∙◌, sym, Outcome, done, panicked, List, length, arith, ==_self,
}
use syfala_test.Utils.Samples.{SampleKind, u8, size, width, to_le_bytes, to_bytes, from_bytes}
use syfala_test.Utils.Samples.Bytes.{length-to_le_bytes, size-width}

-- `encode` is what `to_bytes` leaves in a slice of the type's size.
pub record Sample {ℓ} (T : Type ℓ) : Type ℓ where
  pub bytes_per_sample : ℕ
  pub to_slice : T → List ℕ → Outcome (List ℕ)
  pub of_slice : List ℕ → Outcome T
  pub encode : T → List ℕ
  pub positive : 0 < bytes_per_sample
  pub length-encode : (x : T) → length (encode x) ≡ bytes_per_sample
  pub to_slice-encode :
      (x : T) (slice : List ℕ)
      → length slice ≡ bytes_per_sample
      → to_slice x slice ≡ done (encode x)
  pub of_slice_wrong :
      (slice : List ℕ) → length slice ≢ bytes_per_sample → of_slice slice ≡ panicked

pub size_positive : (k : SampleKind) → 0 < size k
unfolding size
size_positive u8 = omega arith
size_positive _ = omega arith

pub to_bytes-eq-done :
    (k : SampleKind) (v : ℕ) (slice : List ℕ)
    → length slice ≡ size k
    → to_bytes k v slice ≡ done (to_le_bytes (width k) v)
unfolding to_bytes
to_bytes-eq-done k v slice e = rw (e, size-width k, ==_self)

pub from_bytes-eq-panicked :
    (k : SampleKind) (slice : List ℕ) → length slice ≢ size k → from_bytes k slice ≡ panicked
unfolding from_bytes
from_bytes-eq-panicked k slice ne =
    let ne' : length slice ≢ width k = λ h. ne (h ∙ sym (size-width k)) in ground arith

abbrev pub sample_of : SampleKind → Sample ℕ
sample_of k = record {
  bytes_per_sample = size k;
  to_slice = to_bytes k;
  of_slice = from_bytes k;
  encode = to_le_bytes (width k);
  positive = size_positive k;
  length-encode = λ v. length-to_le_bytes (width k) v ∙ sym (size-width k);
  to_slice-encode = to_bytes-eq-done k;
  of_slice_wrong = from_bytes-eq-panicked k;
}
