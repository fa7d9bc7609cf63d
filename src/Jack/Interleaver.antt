-- ===== src/Jack/Interleaver.antt =====
-- The interleaver of JACK ports, `syfala_jack/src/interleaver.rs`. A pointer into a port's buffer is
-- the number of frames before it; following one outside of its buffer, and an index outside of the
-- list of ports, which are undefined behaviour, are `panicked`.
pub mod Cells
pub mod Order
use syfala_test.Common.{
  ℕ, zero, suc, ◌+◌, ◌-◌, ◌*◌, ◌%◌, Outcome, done, panicked, ◌>>=◌, unwrap, strict_add, strict_sub,
  u32_mod, u64_mod, ltb, if◌then◌else◌, ◌==◌, List, [], ◌∷◌, length, get_elem?, set, replicate,
  Option, none, some, Bool, ◌||◌, not,
}

-- `Interleaver::new` of so many ports: there is none for no port, and for more than a `u32`.
unfoldable pub new : ℕ → Option ℕ
new n_ports = if (n_ports == 0) || not (ltb n_ports u32_mod) then none else some n_ports

-- `Interleaved`
pub record Interleaved : Type 0 where
  pub remaining_frames : ℕ
  pub current_index : ℕ
  pub ptrs : List ℕ

-- `interleave`: the pointers are at the beginning of the buffers.
unfoldable pub interleave : ℕ → ℕ → Interleaved
interleave n_ports n_frames = record {
  remaining_frames = n_frames;
  current_index = 0;
  ptrs = replicate n_ports 0;
}

-- A reference to a sample: its port, and its frame.
abbrev pub Reference : Type 0
Reference = ℕ × ℕ

-- `get_ref`, into the buffer of a port.
unfoldable pub get_ref : ℕ → ℕ → ℕ → Outcome Reference
get_ref n_frames port ptr = if ltb ptr n_frames then done (port, ptr) else panicked

-- The index goes on to the next port, and after the last one to the next frame.
unfoldable pub step : Interleaved → List ℕ → Outcome Interleaved
step it ptrs = do
  current_index ← strict_add it.current_index 1
  if current_index == length ptrs
      then (do
        remaining_frames ← strict_sub it.remaining_frames 1
        done (record { remaining_frames = remaining_frames; current_index = 0; ptrs = ptrs }))
      else done (record {
        remaining_frames = it.remaining_frames;
        current_index = current_index;
        ptrs = ptrs;
      })

-- `next`, on buffers of `n_frames` frames.
unfoldable pub next : ℕ → Interleaved → Outcome (Option Reference × Interleaved)
unfolding step get_ref
next n_frames it = if it.remaining_frames == 0 then done (none, it) else (do
  ptr ← unwrap (get_elem? it.ptrs it.current_index)
  it' ← step it (set it.ptrs it.current_index (ptr + 1))
  item ← get_ref n_frames it.current_index ptr
  done (some item, it'))

abbrev continue_with :
    (Interleaved → Outcome (List Reference × Interleaved))
    → Option Reference × Interleaved
    → Outcome (List Reference × Interleaved)
continue_with rest (none, it) = done ([], it)
continue_with rest (some x, it) = do (xs, it') ← rest it; done (x ∷ xs, it')

-- At most `calls` calls of `next`, up to the first `None`.
unfoldable pub pull : ℕ → ℕ → Interleaved → Outcome (List Reference × Interleaved)
pull n_frames zero it = done ([], it)
pull n_frames (suc calls) it = next n_frames it >>= continue_with (pull n_frames calls)

-- `len` and `size_hint`
unfoldable pub len : Interleaved → ℕ
len it = (it.remaining_frames * length it.ptrs) % u64_mod
