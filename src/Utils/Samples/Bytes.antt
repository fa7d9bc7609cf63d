-- ===== src/Utils/Samples/Bytes.antt =====
-- Samples to bytes and back, for `syfala_utils/src/sample_type.rs`.
use native.Mathlib.Nat.{pow-suc}
use syfala_test.Common.{
  ℕ, zero, suc, ◌+◌, ◌*◌, ◌/◌, ◌%◌, ◌^◌, ◌<◌, ◌≡◌, ◌≢◌, ◌⊎◌, inl, inr, sym, subst, refl, ap, ap₂,
  ◌∙◌, done, panicked, ◌>>=◌, List, [], ◌∷◌, length, arith, ==_self, ◌==◌, Bool-cases,
}
use syfala_test.Utils.Samples.{
  SampleKind, u8, u16, u32, u64, i8, i16, i32, i64, f32, f64, size, width, to_le_bytes,
  from_le_bytes, to_bytes, from_bytes,
}

pub length-to_le_bytes : (n v : ℕ) → length (to_le_bytes n v) ≡ n
unfolding to_le_bytes
length-to_le_bytes zero v = refl
length-to_le_bytes (suc n) v = ap suc (length-to_le_bytes n (v / 256))

pub from_le_bytes-to_le_bytes : (n v : ℕ) → v < 256 ^ n → from_le_bytes (to_le_bytes n v) ≡ v
unfolding to_le_bytes from_le_bytes
from_le_bytes-to_le_bytes zero v h = omega arith
from_le_bytes-to_le_bytes (suc n) v h =
    omega (arith, from_le_bytes-to_le_bytes n (v / 256) (omega (arith, pow-suc 256 n)))

abbrev pub AllBytes : List ℕ → Type 0
AllBytes [] = Unit {0}
AllBytes (b ∷ bs) = (b < 256) × AllBytes bs

pub to_le_bytes-from_le_bytes :
    (bs : List ℕ) → AllBytes bs → to_le_bytes (length bs) (from_le_bytes bs) ≡ bs
unfolding to_le_bytes from_le_bytes
to_le_bytes-from_le_bytes [] h = refl
to_le_bytes-from_le_bytes (b ∷ bs) h =
    let low : (b + 256 * from_le_bytes bs) % 256 ≡ b = omega arith in
    let high : (b + 256 * from_le_bytes bs) / 256 ≡ from_le_bytes bs = omega arith in
    ap₂ ◌∷◌ low (ap (to_le_bytes (length bs)) high ∙ to_le_bytes-from_le_bytes bs h.1)

-- `SIZE` is the number of bytes that a value has.
pub size-width : (k : SampleKind) → size k ≡ width k
unfolding size width
size-width u8 = refl
size-width u16 = refl
size-width u32 = refl
size-width u64 = refl
size-width i8 = refl
size-width i16 = refl
size-width i32 = refl
size-width i64 = refl
size-width f32 = refl
size-width f64 = refl

from_bytes-to_bytes :
    (k : SampleKind) (v : ℕ) (slice : List ℕ)
    → length slice ≡ width k
    → v < 256 ^ width k
    → (to_bytes k v slice >>= from_bytes k) ≡ done v
unfolding to_bytes from_bytes
from_bytes-to_bytes k v slice e h =
    rw (e, ==_self, length-to_le_bytes, ==_self, from_le_bytes-to_le_bytes (width k) v h)

to_bytes-from_bytes :
    (k : SampleKind) (slice : List ℕ)
    → AllBytes slice
    → length slice ≡ width k
    → (from_bytes k slice >>= λ v. to_bytes k v slice) ≡ done slice
unfolding to_bytes from_bytes
to_bytes-from_bytes k slice all e = rw (e, ==_self, ← e, to_le_bytes-from_le_bytes slice all)

wrong_length_panics :
    (k : SampleKind) (v : ℕ) (slice : List ℕ)
    → length slice ≢ width k
    → (to_bytes k v slice ≡ panicked) × (from_bytes k slice ≡ panicked)
unfolding to_bytes from_bytes
wrong_length_panics k v slice ne = (ground arith, ground arith)

-- The promise of `SIZE`, for every sample type, a value of `SIZE` bytes and a slice of bytes. Where
-- the slice has `SIZE` bytes, neither function panics: `from_bytes` reads back the value that
-- `to_bytes` wrote, and `to_bytes` writes back the bytes that `from_bytes` read. Where it has another
-- length, both panic.
pub size_round_trip :
    (k : SampleKind) (v : ℕ) (slice : List ℕ)
    → v < 256 ^ size k
    → AllBytes slice
    → ((length slice ≡ size k)
        × ((to_bytes k v slice >>= from_bytes k) ≡ done v)
        × ((from_bytes k slice >>= λ w. to_bytes k w slice) ≡ done slice))
      ⊎ ((length slice ≢ size k)
          × (to_bytes k v slice ≡ panicked)
          × (from_bytes k slice ≡ panicked))
size_round_trip k v slice h all = elim (Bool-cases (length slice == size k)) [
  | inl same ↦
      let e : length slice ≡ size k = ground arith in
      let e' : length slice ≡ width k = e ∙ size-width k in
      let h' : v < 256 ^ width k = subst (λ n. v < 256 ^ n) (size-width k) h in
      inl (e, from_bytes-to_bytes k v slice e' h', to_bytes-from_bytes k slice all e')
  | inr other ↦
      let ne : length slice ≢ size k = λ e. ground arith in
      let panics = wrong_length_panics k v slice (λ e. ne (e ∙ sym (size-width k))) in
      inr (ne, panics.0, panics.1)
]
