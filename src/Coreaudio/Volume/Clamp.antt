-- ===== src/Coreaudio/Volume/Clamp.antt =====
-- What the clamps of the volumes do.
use syfala_test.Common.{
  ℕ, ◌≡◌, ap, ◌∙◌, ◌⊎◌, inl, inr, true, false, some, List, get_elem?, Bool-cases,
}
use syfala_test.Coreaudio.Volume.{
  Float32, IsIeee, gain_to_db, volume_control_db_val, db_to_norm, linear_remap, sq, vol_min_db,
  vol_max_db, vol_db_range,
}

module _ {ℓ} {F : Type ℓ} ⦃f : Float32 F⦄ (laws : IsIeee F) where
  clamped_high : (db : F) → f.fmax (f.fmin db vol_min_db) vol_max_db ≡ vol_max_db
  clamped_high db =
      laws.max_of_lt (f.fmin db vol_min_db) vol_max_db
        (laws.min-lt db vol_min_db vol_max_db laws.eighty_below)

  -- `db_to_norm` takes every level to the same position, that of 0 dB: it clamps between the bounds
  -- in the wrong order.
  pub db_to_norm_full :
      (db : F) → db_to_norm db ≡ sq (linear_remap vol_max_db vol_min_db vol_db_range f.nought f.one)
  unfolding db_to_norm
  db_to_norm_full db = rw (clamped_high db)

  -- A level that is a number within the bounds.
  abbrev InRange : F → Type 0
  InRange db = (f.eq db db ≡ true) × (f.lt db vol_min_db ≡ false) × (f.lt vol_max_db db ≡ false)

  -- The level `db` that is reported for the level `g`.
  abbrev Reports : F → F → Type ℓ
  Reports g db =
      ((f.eq g g ≡ false) × (db ≡ vol_max_db))
      ⊎ ((f.lt g vol_min_db ≡ true) × (db ≡ vol_min_db))
      ⊎ ((f.lt vol_max_db g ≡ true) × (db ≡ vol_max_db))
      ⊎ ((f.eq g g ≡ true)
          × (f.lt g vol_min_db ≡ false)
          × (f.lt vol_max_db g ≡ false)
          × (f.eq db g ≡ true))

  abbrev clamp : F → F
  clamp g = f.fmax (f.fmin g vol_max_db) vol_min_db

  lt_irrefl : (x : F) → f.lt x x ≡ false
  lt_irrefl x = elim (Bool-cases (f.lt x x)) [ inl e ↦ laws.lt_asym x x e | inr e ↦ e ]

  vol_max_db-InRange : InRange vol_max_db
  vol_max_db-InRange = (
    (laws.lt_number vol_min_db vol_max_db laws.eighty_below).1,
    laws.lt_asym vol_min_db vol_max_db laws.eighty_below,
    lt_irrefl vol_max_db,
  )

  vol_min_db-InRange : InRange vol_min_db
  vol_min_db-InRange = (
    (laws.lt_number vol_min_db vol_max_db laws.eighty_below).0,
    lt_irrefl vol_min_db,
    laws.lt_asym vol_min_db vol_max_db laws.eighty_below,
  )

  high-clamp : (g : F) → f.fmin g vol_max_db ≡ vol_max_db → clamp g ≡ vol_max_db
  high-clamp g e =
      ap (λ x. f.fmax x vol_min_db) e ∙ laws.max_of_gt vol_max_db vol_min_db laws.eighty_below

  low-clamp : (g : F) → f.lt g vol_min_db ≡ true → clamp g ≡ vol_min_db
  low-clamp g low =
      let below = laws.lt_trans g vol_min_db vol_max_db low laws.eighty_below in
      ap (λ x. f.fmax x vol_min_db) (laws.min_of_lt g vol_max_db below)
      ∙ laws.max_of_lt g vol_min_db low

  -- Of a level in range, the two clamps choose the level, or a bound that is `eq` to it.
  raised-eq : (g : F) → InRange g → f.eq (f.fmax g vol_min_db) g ≡ true
  raised-eq g (number, not_low, not_high) = elim (Bool-cases (f.lt vol_min_db g)) [
    | inl above ↦ rw (laws.max_of_gt g vol_min_db above) number
    | inr not_above ↦ elim (laws.max_choice g vol_min_db number vol_min_db-InRange.0) [
      | inl same ↦ rw same number
      | inr bound ↦
          rw bound (laws.eq_of_not_lt vol_min_db g vol_min_db-InRange.0 number not_above not_low)
    ]
  ]

  lowered-eq : (g : F) → InRange g → f.fmin g vol_max_db ≡ g → f.eq (clamp g) g ≡ true
  lowered-eq g within same = ap (λ x. f.eq (f.fmax x vol_min_db) g) same ∙ raised-eq g within

  clamp-eq : (g : F) → InRange g → f.eq (clamp g) g ≡ true
  clamp-eq g (number, not_low, not_high) =
      elim (laws.min_choice g vol_max_db number vol_max_db-InRange.0) [
        | inl same ↦ lowered-eq g (number, not_low, not_high) same
        | inr bound ↦ elim (Bool-cases (f.lt g vol_max_db)) [
          | inl below ↦ lowered-eq g (number, not_low, not_high) (laws.min_of_lt g vol_max_db below)
          | inr not_below ↦
              ap (λ x. f.eq x g) (high-clamp g bound)
              ∙ (laws.eq_of_not_lt vol_max_db g vol_max_db-InRange.0 number not_high not_below)
        ]
      ]

  clamp-Reports : (g : F) → Reports g (clamp g)
  clamp-Reports g = elim (Bool-cases (f.eq g g)) [
    | inr nan ↦ inl (nan, high-clamp g (laws.min_nan g vol_max_db nan vol_max_db-InRange.0))
    | inl number ↦ elim (Bool-cases (f.lt g vol_min_db)) [
      | inl low ↦ inr (inl (low, low-clamp g low))
      | inr not_low ↦ elim (Bool-cases (f.lt vol_max_db g)) [
        | inl high ↦ inr (inr (inl (high, high-clamp g (laws.min_of_gt g vol_max_db high))))
        | inr not_high ↦
            let within : InRange g = (number, not_low, not_high) in
            inr (inr (inr (number, not_low, not_high, clamp-eq g within)))
      ]
    ]
  ]

  -- The level that a volume control of gain `v` reports, by the level `g` in decibels of that gain.
  -- It is 0 dB if `g` is a NaN or above 0 dB, and -80 dB if `g` is below -80 dB. Otherwise it is
  -- `==` to `g`, which is a number that is neither below -80 dB nor above 0 dB.
  pub volume_control_db_val_lem :
      (output_volume : List F) (index : ℕ) (v : F)
      → get_elem? output_volume index ≡ some v
      → let g = gain_to_db v in
        (db : F) × (volume_control_db_val output_volume index ≡ some db)
        × (((f.eq g g ≡ false) × (db ≡ vol_max_db))
            ⊎ ((f.lt g vol_min_db ≡ true) × (db ≡ vol_min_db))
            ⊎ ((f.lt vol_max_db g ≡ true) × (db ≡ vol_max_db))
            ⊎ ((f.eq g g ≡ true)
                × (f.lt g vol_min_db ≡ false)
                × (f.lt vol_max_db g ≡ false)
                × (f.eq db g ≡ true)))
  unfolding volume_control_db_val
  volume_control_db_val_lem output_volume index v held =
      (clamp (gain_to_db v), rw held, clamp-Reports (gain_to_db v))
