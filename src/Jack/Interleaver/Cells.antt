-- ===== src/Jack/Interleaver/Cells.antt =====
-- One call of the interleaver's `next`: how the pointers and the index follow the samples.
use native.Mathlib.Nat.{
  suc-mul, add-mul, mul-sub, mul-le-mul_right, mul-add-div_right, mul-add-mod_self_right,
  mod-eq_of_lt, div-eq_of_lt,
}
use syfala_test.Common.{
  ℕ, zero, suc, ◌+◌, ◌-◌, ◌*◌, ◌/◌, ◌%◌, ◌<◌, ◌≤◌, ◌≡◌, refl, sym, ap, ap₂, subst, ◌∙◌, done,
  u64_mod, ltb, ◌==◌, [], ◌++◌, append-nil, length, length-append, replicate, length-replicate,
  get_elem?-replicate, set-replicate, none, some, arith, true, false, inl, inr, lt→ltb, ◌⊎◌,
}
use syfala_test.Jack.Interleaver.{Interleaved, Reference, get_ref, step, next, len}

-- The reference to the sample with index `k` in a stream of `n` channels.
abbrev pub nth : ℕ → ℕ → Reference
nth n k = (k % n, k / n)

module _ (frames : ℕ) where
  -- The iterator after `q` frames, and after `c` ports of the next one, with `m + 1` ports to go.
  abbrev pub cell : ℕ → ℕ → ℕ → Interleaved
  cell q c m = record {
    remaining_frames = frames - q;
    current_index = c;
    ptrs = replicate c (q + 1) ++ replicate (suc m) q;
  }

  -- The port after this one is, or is not, past the last.
  length-ptrs : (q c m : ℕ) → length (replicate (suc c) (q + 1) ++ replicate m q) ≡ suc c + m
  length-ptrs q c m = omega (
    arith,
    length-append (replicate (suc c) (q + 1)) (replicate m q),
    length-replicate (suc c) (q + 1),
    length-replicate m q,
  )

  next-port :
      (q c m : ℕ)
      → q < frames
      → c + suc (suc m) < u64_mod
      → next frames (cell q c (suc m)) ≡ done (some (c, q), cell q (suc c) m)
  unfolding next step get_ref
  next-port q c m h small =
      let some_left : (frames - q == 0) ≡ false = ground arith in
      let next_index : c + 1 ≡ suc c = omega arith in
      let inside : (c + 1 == length (replicate (suc c) (q + 1) ++ replicate (suc m) q)) ≡ false =
        ground (arith, length-ptrs q c (suc m)) in
      let fits = lt→ltb (c + 1) u64_mod (omega arith) in
      rw
        (
          some_left,
          get_elem?-replicate c (suc m) (q + 1) q,
          set-replicate c (suc m) (q + 1) q,
          fits,
          inside,
          lt→ltb q frames h,
        )
        (ap (λ i. done (some (c, q), record (cell q (suc c) m) { current_index = i })) next_index)

  next-frame :
      (q c : ℕ)
      → q < frames
      → c + 1 < u64_mod
      → next frames (cell q c 0) ≡ done (some (c, q), cell (q + 1) 0 c)
  unfolding next step get_ref
  next-frame q c h small =
      let some_left : (frames - q == 0) ≡ false = ground arith in
      let over : (c + 1 == length (replicate (suc c) (q + 1) ++ [])) ≡ true =
        ground (arith, length-ptrs q c 0) in
      let fits = lt→ltb (c + 1) u64_mod small in
      let one_left : ltb (frames - q) 1 ≡ false = ground arith in
      let frames_left : frames - q - 1 ≡ frames - (q + 1) = omega arith in
      rw (
        some_left,
        get_elem?-replicate c 0 (q + 1) q,
        set-replicate c 0 (q + 1) q,
        fits,
        over,
        one_left,
        lt→ltb q frames h,
        frames_left,
        append-nil (replicate c (q + 1)),
      )

  -- A place that the iterator of `n` ports gets to, with the number of samples yielded so far.
  pub record IsPlace (n k : ℕ) (it : Interleaved) : Type 0 where
    pub q : ℕ
    pub c : ℕ
    pub m : ℕ
    pub ports : c + suc m ≡ n
    pub count : q * n + c ≡ k
    pub inside : (q < frames) ⊎ ((q ≡ frames) × (c ≡ 0))
    pub same : it ≡ cell q c m

  nth-cell : (n q c : ℕ) → c < n → nth n (q * n + c) ≡ (c, q)
  nth-cell n q c h =
      let pos : 0 < n = omega arith in
      let quotient : (q * n + c) / n ≡ q =
        omega (arith, mul-add-div_right pos q c, div-eq_of_lt h) in
      ap₂ (λ a b. (a, b)) (mul-add-mod_self_right q n c ∙ mod-eq_of_lt h) quotient

  -- One call of `next`: it yields the sample with index `k`, or the iterator is at its end.
  abbrev pub Steps : ℕ → ℕ → Interleaved → Type 0
  Steps n k it =
      ((k < frames * n)
        × (it' : Interleaved) × (next frames it ≡ done (some (nth n k), it'))
        × IsPlace n (suc k) it')
      ⊎ ((k ≡ frames * n) × (next frames it ≡ done (none, it)))

  below : (n k q c : ℕ) → c < n → q * n + c ≡ k → q < frames → k < frames * n
  below n k q c h count lt = omega (arith, suc-mul q n, mul-le-mul_right n lt)

  cell-Steps :
      (n k q c m : ℕ)
      → n < u64_mod
      → c + suc m ≡ n
      → q * n + c ≡ k
      → q < frames
      → Steps n k (cell q c m)
  cell-Steps n k q c zero small ports count lt =
      let h : c < n = omega arith in
      let item = sym (nth-cell n q c h) ∙ ap (nth n) count in
      inl (
        below n k q c h count lt,
        cell (q + 1) 0 c,
        next-frame q c lt (omega arith) ∙ ap (λ x. done (some x, cell (q + 1) 0 c)) item,
        record {
          q = q + 1;
          c = 0;
          m = c;
          ports = omega arith;
          count = omega (arith, add-mul q 1 n);
          inside = ground arith;
          same = refl;
        },
      )
  cell-Steps n k q c (suc m) small ports count lt =
      let h : c < n = omega arith in
      let item = sym (nth-cell n q c h) ∙ ap (nth n) count in
      inl (
        below n k q c h count lt,
        cell q (suc c) m,
        next-port q c m lt (omega arith) ∙ ap (λ x. done (some x, cell q (suc c) m)) item,
        record {
          q = q;
          c = suc c;
          m = m;
          ports = omega arith;
          count = omega arith;
          inside = inl lt;
          same = refl;
        },
      )

  end-Steps : (n k m : ℕ) → frames * n + 0 ≡ k → Steps n k (cell frames 0 m)
  unfolding next
  end-Steps n k m count =
      let over : (frames - frames == 0) ≡ true = ground arith in inr (omega arith, rw over)

  pub next-Steps : (n k : ℕ) (it : Interleaved) → n < u64_mod → IsPlace n k it → Steps n k it
  next-Steps n k it small p = elim p.inside [
    | inl lt ↦ subst (Steps n k) (sym p.same) (cell-Steps n k p.q p.c p.m small p.ports p.count lt)
    | inr (last, first) ↦
        subst (Steps n k) (ap₂ (λ q c. cell q c p.m) (sym last) (sym first) ∙ sym p.same)
          (end-Steps n k p.m (ap₂ (λ q c. q * n + c) (sym last) (sym first) ∙ p.count))
  ]

  length-cell : (q c m : ℕ) → length (replicate c (q + 1) ++ replicate (suc m) q) ≡ c + suc m
  length-cell q c m = omega (
    arith,
    length-append (replicate c (q + 1)) (replicate (suc m) q),
    length-replicate c (q + 1),
    length-replicate (suc m) q,
  )

  place_fits :
      (n q c : ℕ) → c < n → (q < frames) ⊎ ((q ≡ frames) × (c ≡ 0)) → q * n + c ≤ frames * n
  place_fits n q c h (inl lt) = omega (arith, below n (q * n + c) q c h refl lt)
  place_fits n q c h (inr (last, first)) = omega (arith, ap (λ x. x * n) last, first)

  -- What `len` says at a place: the frame that was begun counts as a whole.
  pub len-IsPlace :
      (n k : ℕ) (it : Interleaved)
      → frames * n < u64_mod
      → IsPlace n k it
      → len it ≡ frames * n - k + k % n
  unfolding len
  len-IsPlace n k it small p =
      let size = length-cell p.q p.c p.m ∙ p.ports in
      let c_below : p.c < n = omega (arith, p.ports) in
      let port =
        sym (ap (λ x. x % n) p.count) ∙ mul-add-mod_self_right p.q n p.c ∙ mod-eq_of_lt c_below in
      let left = mul-sub n frames p.q in
      let fits = place_fits n p.q p.c c_below p.inside in
      let all : (frames - p.q) * n < u64_mod = omega (arith, left) in
      rw (p.same, size, mod-eq_of_lt all) (omega (arith, left, fits, p.count, port))
