-- ===== src/Coreaudio/Properties/Sound.antt =====
-- What it takes for an entry of the driver's properties to be sound, and the kinds of entries that
-- are: their sizes are announced as they are written, and they stay within the place for the data.
use Prim.Native.String.{String}
use native.Mathlib.Nat.{le-div_iff_mul-le}
use syfala_test.Common.{
  ℕ, suc, ◌+◌, ◌*◌, ◌/◌, ◌<◌, ◌≤◌, ◌≡◌, ◌≢◌, ap, ap₂, sym, ◌∙◌, false, ◌⊎◌, inl, inr, Option, none,
  some, List, [], ◌∷◌, Each, take_all, length, ltb, ◌==◌, Outcome, done, u32_mod, u64_mod, lt→ltb,
  arith, Bool-cases, ltb_false→le,
}
use syfala_test.Coreaudio.Status.{bad_property_size, no_error}
use syfala_test.Coreaudio.Sys.{Sys, IsLaidOut}
use syfala_test.Coreaudio.State.{Address, Driver}
use syfala_test.Coreaudio.Properties.{
  PropertyData, Value, u32, f32, f64, cf_string, value_range, basic_description, ranged_description,
  channel_layout, unneeded, s, Writer, size_of, Written, Memory, Reader, write_get_size,
  write_once_get_size, computed, listing, settable,
}
use syfala_test.Coreaudio.Properties.Access.{write_out, Got}

unfoldable pub total_size {ℓ} : {F : Type ℓ} → Sys → List (Value F) → ℕ
total_size c [] = 0
total_size c (v ∷ vs) = size_of c v + total_size c vs

-- What was written to a place of `n` bytes for a property of `announced` bytes.
pub record Fits {ℓ} {F : Type ℓ} (c : Sys) (announced n : ℕ) (w : Written F) : Type 0 where
  pub counted : w.size ≡ total_size c w.items
  pub within : w.size ≤ n
  pub whole : (w.size ≡ announced) ⊎ (w.size ≡ 0)

module _ {ℓ} {F : Type ℓ} (c : Sys) where
  -- Of an answer: it comes with data, or an error is its status.
  abbrev pub GotFits : ℕ → ℕ → Got F → Type 0
  GotFits announced n (status, some w) = Fits c announced n w
  GotFits announced n (status, none) = status ≢ no_error

  -- The entry answers any request without panic.
  abbrev pub IsSound : Driver F → ℕ → PropertyData F → Type ℓ
  IsSound d id p =
      (addr : Address) (qual_size : ℕ) (qual_data : Option String) (data_size : ℕ) (out : Memory F)
      → (r : Got F) × (write_out p d id addr qual_size qual_data data_size out ≡ done r)
        × GotFits (p.get_data_size id addr).1 data_size r

  write_get_size-eq :
      (k n : ℕ) (values : List (Value F))
      → 0 < k
      → length values * k ≤ n
      → length values * k < u32_mod
      → write_get_size k n values ≡ done (record { size = length values * k; items = values })
  unfolding write_get_size
  write_get_size-eq k n values pos enough small =
      let some_size : (k == 0) ≡ false = ground arith in
      let all : length values ≤ n / k = (le-div_iff_mul-le pos).1 enough in
      let fits : length values * k < u64_mod = omega (arith, small) in
      rw (
        some_size,
        take_all (n / k) values all,
        lt→ltb (length values * k) u64_mod fits,
        lt→ltb (length values * k) u32_mod small,
      )

  total_size-same :
      (k : ℕ) (values : List (Value F))
      → Each (λ v. size_of c v ≡ k) values
      → length values * k ≡ total_size c values
  unfolding total_size
  total_size-same k [] h = omega arith
  total_size-same k (v ∷ vs) h =
      let rest : length vs * k ≡ total_size c vs = total_size-same k vs h.1 in
      let one : size_of c v ≡ k = h.0 in
      let step : suc (length vs) * k ≡ k + length vs * k = omega arith in
      step ∙ ap₂ (λ a b. a + b) (sym one) rest

  -- An entry whose function needs no qualifier data is sound if the function is, on places that are
  -- large enough.
  pub unneeded-IsSound :
      (d : Driver F) (id size : ℕ) (w : Writer F)
      → ((addr : Address) (n : ℕ) (out : Memory F)
          → size ≤ n
          → (r : Written F) × (w d id addr n out ≡ done r) × Fits c size n r)
      → IsSound d id
          (record { get_data_size = λ _ _. s size; write_data = unneeded w; read_data = none })
  unfolding write_out
  unneeded-IsSound d id size w sound addr qual_size qual_data n out =
      elim (Bool-cases (ltb n size)) [
        | inl e ↦ ((bad_property_size, none), rw e, λ h. cc)
        | inr e ↦
            let (r, run, fits) = sound addr n out (ltb_false→le n size e) in
            ((no_error, some r), rw (e, run), fits)
      ]

  -- What an entry does when it is set does not matter here.
  pub settable-IsSound :
      (d : Driver F) (id : ℕ) (p : PropertyData F) (reader : Reader F)
      → IsSound d id p
      → IsSound d id (settable reader p)
  unfolding write_out
  settable-IsSound d id p reader sound = sound

  pub listing-IsSound :
      (d : Driver F) (id size k : ℕ) (values : Address → List (Value F))
      → 0 < k
      → size < u32_mod
      → ((addr : Address)
          → Each (λ v. size_of c v ≡ k) (values addr)
            × ((length (values addr) * k ≡ size) ⊎ (length (values addr) * k ≡ 0)))
      → IsSound d id (listing size k values)
  listing-IsSound d id size k values pos small h = unneeded-IsSound d id size _ λ addr n out large.
      let bound : length (values addr) * k ≤ size = elim (h addr).1 [
        | inl e ↦ omega (arith, e)
        | inr e ↦ omega (arith, e)
      ] in
      (
        record { size = length (values addr) * k; items = values addr },
        write_get_size-eq k n (values addr) pos (omega (arith, bound, large))
            (omega (arith, bound, small)),
        record {
          counted = total_size-same k (values addr) (h addr).0;
          within = omega (arith, bound, large);
          whole = (h addr).1;
        },
      )

  module _ (l : IsLaidOut c) where
    size_of_bounds : (v : Value F) → (0 < size_of c v) × (size_of c v < 0x2_0000)
    unfolding size_of
    size_of_bounds (u32 n) = (omega arith, omega arith)
    size_of_bounds (f32 x) = (omega arith, omega arith)
    size_of_bounds (f64 x) = (omega arith, omega arith)
    size_of_bounds (cf_string t) = (l.cf_string_size_pos, omega (arith, l.cf_string_size_small))
    size_of_bounds (value_range a b) =
        (l.value_range_size_pos, omega (arith, l.value_range_size_small))
    size_of_bounds (basic_description b) =
        (l.basic_description_size_pos, omega (arith, l.basic_description_size_small))
    size_of_bounds (ranged_description b x y) =
        (l.ranged_description_size_pos, omega (arith, l.ranged_description_size_small))
    size_of_bounds (channel_layout tag bitmap label) = (
      omega (arith, l.channel_description_size_pos),
      omega (arith, l.channel_description_size_small, l.channel_descriptions_offset_small),
    )

    pub write_once-eq :
        (v : Value F)
        → write_once_get_size c v ≡ done (record { size = size_of c v; items = v ∷ [] })
    unfolding write_once_get_size
    write_once-eq v =
        let (pos, small) = size_of_bounds v in
        let one : 1 * size_of c v ≡ size_of c v = omega arith in
        let run : write_get_size (size_of c v) (size_of c v) (v ∷ [])
            ≡ done (record { size = 1 * size_of c v; items = v ∷ [] }) =
          write_get_size-eq (size_of c v) (size_of c v) (v ∷ []) pos (omega arith)
            (omega (arith, small)) in
        run ∙ ap (λ n. done (record { size = n; items = v ∷ [] })) one

    pub once-Fits :
        (v : Value F) (size n : ℕ)
        → size_of c v ≡ size
        → size ≤ n
        → Fits c size n (record { size = size_of c v; items = v ∷ [] })
    unfolding total_size
    once-Fits v size n e large = record {
      counted = omega arith;
      within = omega (arith, e, large);
      whole = inl e;
    }

    pub computed-IsSound :
        (d : Driver F) (id size : ℕ) (value : Driver F → ℕ → Address → Memory F → Outcome (Value F))
        → ((addr : Address) (out : Memory F)
            → (v : Value F) × (value d id addr out ≡ done v) × (size_of c v ≡ size))
        → IsSound d id (computed c size value)
    computed-IsSound d id size value h = unneeded-IsSound d id size _ λ addr n out large.
        let (v, run, e) = h addr out in
        (
          record { size = size_of c v; items = v ∷ [] },
          rw (run, write_once-eq v),
          once-Fits v size n e large,
        )
