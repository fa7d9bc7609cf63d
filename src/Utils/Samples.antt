-- ===== src/Utils/Samples.antt =====
-- Sample types and their little-endian bytes: `syfala_utils/src/sample_type.rs`. A value of an
-- integer or float type is its bit pattern, below 256^width; a byte is a number below 256.
pub mod Bytes
use syfala_test.Common.{
  ℕ, zero, suc, ◌+◌, ◌-◌, ◌*◌, ◌/◌, ◌%◌, ◌^◌, Outcome, done, panicked, List, [], ◌∷◌, length,
  if◌then◌else◌, ◌==◌,
}

-- The types that implement the traits of this file.
pub data SampleKind : Type 0 where
  u8 u16 u32 u64 i8 i16 i32 i64 f32 f64 : SampleKind

-- `SampleSize::SIZE`
unfoldable pub size : SampleKind → ℕ
size u8 = 1
size u16 = 2
size u32 = 4
size u64 = 8
size i8 = 1
size i16 = 2
size i32 = 4
size i64 = 8
size f32 = 4
size f64 = 8

-- The bytes of a value, `size_of`: the length of the array that `to_le_bytes` of the type returns and
-- `from_le_bytes` takes.
unfoldable pub width : SampleKind → ℕ
width u8 = 1
width u16 = 2
width u32 = 4
width u64 = 8
width i8 = 1
width i16 = 2
width i32 = 4
width i64 = 8
width f32 = 4
width f64 = 8

-- `SampleTypeSilence::SILENCE`. For the unsigned types it is `MAX / 2 + 1`; the float `0.` has the
-- bit pattern 0.
unfoldable pub silence : SampleKind → ℕ
silence u8 = (2 ^ 8 - 1) / 2 + 1
silence u16 = (2 ^ 16 - 1) / 2 + 1
silence u32 = (2 ^ 32 - 1) / 2 + 1
silence u64 = (2 ^ 64 - 1) / 2 + 1
silence i8 = 0
silence i16 = 0
silence i32 = 0
silence i64 = 0
silence f32 = 0
silence f64 = 0

-- `to_le_bytes` and `from_le_bytes` at a width of `n` bytes.
unfoldable pub to_le_bytes : ℕ → ℕ → List ℕ
to_le_bytes zero v = []
to_le_bytes (suc n) v = (v % 256) ∷ to_le_bytes n (v / 256)

unfoldable pub from_le_bytes : List ℕ → ℕ
from_le_bytes [] = 0
from_le_bytes (b ∷ bs) = b + 256 * from_le_bytes bs

-- `to_bytes` overwrites the slice that it is given; both functions panic at a slice of another
-- length than the type's array of bytes, whatever `SIZE` is.
unfoldable pub to_bytes : SampleKind → ℕ → List ℕ → Outcome (List ℕ)
to_bytes k v slice = if length slice == width k then done (to_le_bytes (width k) v) else panicked

unfoldable pub from_bytes : SampleKind → List ℕ → Outcome ℕ
from_bytes k slice = if length slice == width k then done (from_le_bytes slice) else panicked
