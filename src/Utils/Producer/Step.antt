-- ===== src/Utils/Producer/Step.antt =====
-- One call of `next` of the byte iterator, and the bytes still to come.
use native.Mathlib.Nat.{mod-lt, mod-add-mod, mod_self, mod-eq_of_lt}
use syfala_test.Common.{
  ℕ, zero, suc, ◌+◌, ◌%◌, ◌<◌, ◌≡◌, refl, ap, ◌∙◌, sym, Outcome, done, if◌then◌else◌, ◌==◌, List,
  [], ◌∷◌, ◌++◌, length, get_elem?, drop, Option, none, some, false, ◌⊎◌, arith, Bool-cases, inl,
  inr, ==→eq, ==_false→ne, u64_mod, lt→ltb, drop_all, Suffix, Suffix-refl,
}
use syfala_test.Utils.Trait.{Sample}
use syfala_test.Utils.Producer.{SampleByteStream, SampleByteStreamIter, next, fetch, emit}

module _ {ℓ} {A : Type ℓ} where
  -- An element in range, and the suffix that it heads.
  pub get_elem?-drop-cons :
      (c : ℕ) (xs : List A)
      → c < length xs
      → (x : A) × (get_elem? xs c ≡ some x) × (drop c xs ≡ x ∷ drop (suc c) xs)
  get_elem?-drop-cons c [] h = absurd (omega arith)
  get_elem?-drop-cons zero (x ∷ xs) h = (x, refl, refl)
  get_elem?-drop-cons (suc c) (x ∷ xs) h = get_elem?-drop-cons c xs (omega arith)

-- The remainder of a number that grows by one.
pub suc-mod-cases :
    (idx size : ℕ)
    → 0 < size
    → (idx + 1) % size ≡ (if idx % size + 1 == size then 0 else idx % size + 1)
suc-mod-cases idx size h = elim (Bool-cases (idx % size + 1 == size)) [
  | inl wraps ↦
      rw wraps (sym (mod-add-mod idx size 1) ∙ ap (λ n. n % size) (==→eq _ _ wraps) ∙ mod_self size)
  | inr inside ↦ rw inside (
      sym (mod-add-mod idx size 1)
      ∙ mod-eq_of_lt (omega (arith, mod-lt idx h, ==_false→ne _ _ inside)))
]

module _ {ℓ} {T : Type ℓ} (s : Sample T) where
  open s use {bytes_per_sample, encode}

  abbrev pub flat : List T → List ℕ
  flat [] = []
  flat (x ∷ xs) = encode x ++ flat xs

  -- The bytes of the current sample that are still to come.
  unfoldable pub pending : SampleByteStream → List ℕ
  pending b =
      let c = b.current_byte_idx % bytes_per_sample in
      if c == 0 then [] else drop c b.current_sample_bytes

  -- All bytes still to come.
  abbrev pub to_come : SampleByteStreamIter T → List ℕ
  to_come it = pending it.stream ++ flat it.iter

  abbrev pub IsValid : SampleByteStream → Type 0
  IsValid b = length b.current_sample_bytes ≡ bytes_per_sample

  -- One byte further.
  pending_step :
      (scratch : List ℕ) (idx : ℕ)
      → length scratch ≡ bytes_per_sample
      → pending (record { current_sample_bytes = scratch; current_byte_idx = idx + 1 })
        ≡ drop (suc (idx % bytes_per_sample)) scratch
  unfolding pending
  pending_step scratch idx e = elim (Bool-cases (idx % bytes_per_sample + 1 == bytes_per_sample)) [
    | inl wraps ↦
        rw (suc-mod-cases idx bytes_per_sample s.positive, wraps)
          (sym (drop_all (suc (idx % bytes_per_sample)) scratch (omega (arith, ==→eq _ _ wraps))))
    | inr inside ↦
        let e' : idx % bytes_per_sample + 1 ≡ suc (idx % bytes_per_sample) = omega arith in
        let later : (idx % bytes_per_sample + 1 == 0) ≡ false = ground arith in
        rw (suc-mod-cases idx bytes_per_sample s.positive, inside, later)
          (ap (λ n. drop n scratch) e')
  ]

  -- What `next` does at a stream that has the byte `b` and then `rest` to come.
  pub record Yields (it : SampleByteStreamIter T) (b : ℕ) (it' : SampleByteStreamIter T)
      : Type ℓ where
    pub coming : to_come it ≡ b ∷ to_come it'
    pub moved : it'.stream.current_byte_idx ≡ it.stream.current_byte_idx + 1
    pub valid : IsValid it'.stream
    pub left : Suffix it'.iter it.iter

  emit_lem :
      (iter : List T) (scratch : List ℕ) (idx : ℕ)
      → length scratch ≡ bytes_per_sample
      → idx + 1 < u64_mod
      → (b : ℕ) × (get_elem? scratch (idx % bytes_per_sample) ≡ some b)
        × (emit s iter scratch idx
            ≡ done (
              some b,
              record {
                iter = iter;
                stream = record { current_sample_bytes = scratch; current_byte_idx = idx + 1 };
              },
            ))
        × (drop (idx % bytes_per_sample) scratch
            ≡ b ∷ pending (record { current_sample_bytes = scratch; current_byte_idx = idx + 1 }))
  unfolding emit
  emit_lem iter scratch idx e small =
      let (b, at, rest) =
        get_elem?-drop-cons (idx % bytes_per_sample) scratch
          (omega (arith, mod-lt idx s.positive)) in
      (b, at, rw (lt→ltb _ _ small, at), rest ∙ ap (λ r. b ∷ r) (sym (pending_step scratch idx e)))

  -- `next` ends when nothing is to come, and else yields the first byte.
  abbrev pub Nexts : SampleByteStreamIter T → Outcome (Option ℕ × SampleByteStreamIter T) → Type ℓ
  Nexts it r =
      ((r ≡ done (none, it)) × (to_come it ≡ []))
      ⊎ ((b : ℕ) × (it' : SampleByteStreamIter T) × (r ≡ done (some b, it')) × Yields it b it')

  fetch-Nexts :
      (iter : List T) (scratch : List ℕ) (idx : ℕ)
      → length scratch ≡ bytes_per_sample
      → idx + 1 < u64_mod
      → idx % bytes_per_sample ≡ 0
      → Nexts
          (record {
            iter = iter;
            stream = record { current_sample_bytes = scratch; current_byte_idx = idx };
          })
          (fetch s iter scratch idx)
  unfolding fetch pending
  fetch-Nexts [] scratch idx v small at = inl (refl, rw at)
  fetch-Nexts (x ∷ xs) scratch idx v small at =
      let (b, _, run, rest) = emit_lem xs (encode x) idx (s.length-encode x) small in
      let head = ap (λ c. drop c (encode x)) (sym at) ∙ rest in
      inr (
        b,
        record {
          iter = xs;
          stream = record { current_sample_bytes = encode x; current_byte_idx = idx + 1 };
        },
        rw (s.to_slice-encode x scratch v) run,
        record {
          coming = rw at (ap (λ h. h ++ flat xs) head);
          moved = refl;
          valid = s.length-encode x;
          left = (1, refl, omega arith);
        },
      )

  emit-Nexts :
      (iter : List T) (scratch : List ℕ) (idx : ℕ)
      → length scratch ≡ bytes_per_sample
      → idx + 1 < u64_mod
      → (idx % bytes_per_sample == 0) ≡ false
      → Nexts
          (record {
            iter = iter;
            stream = record { current_sample_bytes = scratch; current_byte_idx = idx };
          })
          (emit s iter scratch idx)
  unfolding pending
  emit-Nexts iter scratch idx v small inside =
      let (b, _, run, rest) = emit_lem iter scratch idx v small in
      inr (
        b,
        record {
          iter = iter;
          stream = record { current_sample_bytes = scratch; current_byte_idx = idx + 1 };
        },
        run,
        record {
          coming = rw inside (ap (λ h. h ++ flat iter) rest);
          moved = refl;
          valid = v;
          left = Suffix-refl iter;
        },
      )

  pub next-Nexts :
      (it : SampleByteStreamIter T)
      → IsValid it.stream
      → it.stream.current_byte_idx + 1 < u64_mod
      → Nexts it (next s it)
  unfolding next
  next-Nexts it v small = elim (Bool-cases (idx % bytes_per_sample == 0)) [
    | inl at ↦ rw (at, next) (fetch-Nexts it.iter scratch idx v small (==→eq _ _ at))
    | inr inside ↦ rw (inside, next) (emit-Nexts it.iter scratch idx v small inside)
  ]
    where
      open it.stream use {current_byte_idx as idx, current_sample_bytes as scratch}
