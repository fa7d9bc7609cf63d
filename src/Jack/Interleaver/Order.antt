-- ===== src/Jack/Interleaver/Order.antt =====
-- In which order the interleaver visits the samples, and how many it says are left.
use native.Mathlib.Nat.{mul-le-mul_right}
use syfala_test.Common.{
  ℕ, zero, suc, ◌+◌, ◌-◌, ◌*◌, ◌^◌, ◌%◌, ◌<◌, ◌≡◌, ap, subst, ◌∙◌, min, done, u32_mod, u64_mod,
  window, arith, inl, inr,
}
use syfala_test.Jack.Interleaver.{Interleaved, interleave, pull, len}
use syfala_test.Jack.Interleaver.Cells.{nth, IsPlace, next-Steps, len-IsPlace}

module _ (frames : ℕ) where
  -- Pulling from a place: the samples in order, and the place afterwards.
  pull-IsPlace :
      (n k calls : ℕ) (it : Interleaved)
      → n < u64_mod
      → IsPlace frames n k it
      → let count = min calls (frames * n - k) in
        (it' : Interleaved) × (pull frames calls it ≡ done (window (nth n) k count, it'))
        × IsPlace frames n (k + count) it'
  unfolding pull
  pull-IsPlace n k zero it small p =
      let none_pulled : 0 ≡ min 0 (frames * n - k) = omega arith in
      let stays : k ≡ k + min 0 (frames * n - k) = omega arith in
      (
        it,
        ap (λ count. done (window (nth n) k count, it)) none_pulled,
        subst (λ at. IsPlace frames n at it) stays p,
      )
  pull-IsPlace n k (suc calls) it small p = elim (next-Steps frames n k it small p) [
    | inl (lt, it₁, first, p₁) ↦
        let (it₂, rest, p₂) = pull-IsPlace n (suc k) calls it₁ small p₁ in
        let one_more : suc (min calls (frames * n - suc k)) ≡ min (suc calls) (frames * n - k) =
          omega arith in
        let ends : suc k + min calls (frames * n - suc k) ≡ k + min (suc calls) (frames * n - k) =
          omega arith in
        (
          it₂,
          rw (first, pull) (rw rest (ap (λ count. done (window (nth n) k count, it₂)) one_more)),
          subst (λ at. IsPlace frames n at it₂) ends p₂,
        )
    | inr (over, ends) ↦
        let none_pulled : 0 ≡ min (suc calls) (frames * n - k) = omega arith in
        let stays : k ≡ k + min (suc calls) (frames * n - k) = omega arith in
        (
          it,
          rw (ends, pull) (ap (λ count. done (window (nth n) k count, it)) none_pulled),
          subst (λ at. IsPlace frames n at it) stays p,
        )
  ]

start-IsPlace : (frames n : ℕ) → IsPlace frames (suc n) 0 (interleave (suc n) frames)
unfolding interleave
start-IsPlace frames n =
    let whole : frames ≡ frames - 0 = omega arith in
    record {
      q = 0;
      c = 0;
      m = n;
      ports = omega arith;
      count = omega arith;
      inside = ground arith;
      same = ap (λ r. record (interleave (suc n) frames) { remaining_frames = r }) whole;
    }

-- The iterator over `n_ports` ports, at least one and fewer than 2^32, with buffers of `n_frames`
-- frames, fewer than 2^32: it never reaches outside of the ports or of their buffers, whatever the
-- number of calls of `next`. It yields the samples frame by frame, and within a frame port by port:
-- the sample with index `k` is that of port `k % n_ports` at frame `k / n_ports`, up to the last
-- one. But `len` counts a frame that was begun as a whole, so after `k` calls, it is `k % n_ports`
-- too many.
pub interleave_lem :
    (n_ports n_frames calls : ℕ)
    → 0 < n_ports
    → n_ports < u32_mod
    → n_frames < u32_mod
    → let count = min calls (n_frames * n_ports) in
      (it : Interleaved) × (pull n_frames calls (interleave n_ports n_frames)
        ≡ done (window (nth n_ports) 0 count, it))
      × (len it ≡ n_frames * n_ports - count + count % n_ports)
unfolding interleave
interleave_lem zero frames calls pos small few = elim pos [ ]
interleave_lem (suc n) frames calls pos small few =
    let (it, run, p) =
      pull-IsPlace frames (suc n) 0 calls (interleave (suc n) frames) (omega arith)
        (start-IsPlace frames n) in
    let total : frames * suc n < u64_mod =
      omega (arith, mul-le-mul_right {m = frames} {n = 2 ^ 32} (suc n) (omega arith)) in
    let whole : min calls (frames * suc n - 0) ≡ min calls (frames * suc n) = omega arith in
    let at : 0 + min calls (frames * suc n - 0) ≡ min calls (frames * suc n) = omega arith in
    (
      it,
      run ∙ ap (λ count. done (window (nth (suc n)) 0 count, it)) whole,
      len-IsPlace frames (suc n) (min calls (frames * suc n)) it total
          (subst (λ k. IsPlace frames (suc n) k it) at p),
    )
