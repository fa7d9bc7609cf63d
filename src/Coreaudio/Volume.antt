-- ===== src/Coreaudio/Volume.antt =====
-- The volumes of the driver, the conversions between gains, decibels and positions of a slider of
-- `syfala_coreaudio/src/lib.rs`. The operations of `f32` are a parameter, with the laws of IEEE 754
-- that the conversions rely on.
pub mod Clamp
use mathlib.Core.Option.{map as map_option}
use syfala_test.Common.{
  ℕ, ◌≡◌, ◌⊎◌, Bool, true, false, Option, none, some, List, get_elem?, if◌then◌else◌,
}

-- What the code does with an `f32`, literals included.
pub record Float32 {ℓ} (F : Type ℓ) : Type ℓ where
  pub nought : F
  pub one : F
  pub ten : F
  pub twentieth : F
  pub minus_eighty : F
  pub eq : F → F → Bool
  pub lt : F → F → Bool
  pub sub : F → F → F
  pub mul : F → F → F
  pub div : F → F → F
  pub mul_add : F → F → F → F
  pub powf : F → F → F
  pub log10 : F → F
  pub sqrt : F → F
  pub fmin : F → F → F
  pub fmax : F → F → F

-- `eq` and `lt` are `==` and `<`, so that a NaN is the value that is not `eq` to itself. `f32::min`
-- and `f32::max` give the lesser and the greater of two numbers, either one of two zeros of different
-- sign, which are `eq`, and the number where one argument is a NaN.
pub record IsIeee {ℓ} (F : Type ℓ) ⦃f : Float32 F⦄ : Type ℓ where
  pub lt_asym : (x y : F) → f.lt x y ≡ true → f.lt y x ≡ false
  pub lt_trans : (x y z : F) → f.lt x y ≡ true → f.lt y z ≡ true → f.lt x z ≡ true
  pub lt_number : (x y : F) → f.lt x y ≡ true → (f.eq x x ≡ true) × (f.eq y y ≡ true)
  pub eq_of_not_lt :
      (x y : F)
      → f.eq x x ≡ true
      → f.eq y y ≡ true
      → f.lt x y ≡ false
      → f.lt y x ≡ false
      → f.eq x y ≡ true
  pub min_nan : (x y : F) → f.eq x x ≡ false → f.eq y y ≡ true → f.fmin x y ≡ y
  pub min_of_lt : (x y : F) → f.lt x y ≡ true → f.fmin x y ≡ x
  pub min_of_gt : (x y : F) → f.lt y x ≡ true → f.fmin x y ≡ y
  pub min_choice :
      (x y : F) → f.eq x x ≡ true → f.eq y y ≡ true → (f.fmin x y ≡ x) ⊎ (f.fmin x y ≡ y)
  pub min-lt : (x y z : F) → f.lt y z ≡ true → f.lt (f.fmin x y) z ≡ true
  pub max_of_lt : (x y : F) → f.lt x y ≡ true → f.fmax x y ≡ y
  pub max_of_gt : (x y : F) → f.lt y x ≡ true → f.fmax x y ≡ x
  pub max_choice :
      (x y : F) → f.eq x x ≡ true → f.eq y y ≡ true → (f.fmax x y ≡ x) ⊎ (f.fmax x y ≡ y)
  pub eighty_below : f.lt f.minus_eighty f.nought ≡ true

module _ {ℓ} {F : Type ℓ} ⦃f : Float32 F⦄ where
  abbrev pub vol_min_db : F
  vol_min_db = f.minus_eighty

  abbrev pub vol_max_db : F
  vol_max_db = f.nought

  abbrev pub vol_db_range : F
  vol_db_range = f.sub vol_max_db vol_min_db

  unfoldable pub sq : F → F
  sq x = f.mul x x

  unfoldable pub db_to_gain : F → F
  db_to_gain db = f.powf f.ten (f.mul db f.twentieth)

  unfoldable pub gain_to_db : F → F
  unfolding sq
  gain_to_db gain = f.mul f.ten (f.log10 (sq gain))

  -- Of an empty interval, `x_start` and not `y_start`.
  unfoldable pub linear_remap : F → F → F → F → F → F
  linear_remap x x_start x_len y_start y_len =
      if f.eq x_len f.nought
      then x_start
      else f.mul_add (f.sub x x_start) (f.div y_len x_len) y_start

  -- `volume_control_db_val`, of the gains in `OUTPUT_VOLUME`.
  unfoldable pub volume_control_db_val : List F → ℕ → Option F
  unfolding gain_to_db
  volume_control_db_val output_volume index =
      map_option (λ v. f.fmax (f.fmin (gain_to_db v) vol_max_db) vol_min_db)
        (get_elem? output_volume index)

  unfoldable pub volume_control_norm_val : List F → ℕ → Option F
  unfolding volume_control_db_val linear_remap sq
  volume_control_norm_val output_volume index =
      map_option (λ db. sq (linear_remap db vol_min_db vol_db_range f.nought f.one))
        (volume_control_db_val output_volume index)

  unfoldable pub norm_to_db : F → F
  unfolding linear_remap
  norm_to_db v =
      let clamped = f.fmax (f.fmin v f.one) f.nought in
      let skewed = f.sqrt clamped in linear_remap skewed f.nought f.one vol_min_db vol_db_range

  unfoldable pub norm_to_gain : F → F
  unfolding db_to_gain norm_to_db
  norm_to_gain v = db_to_gain (norm_to_db v)

  -- The bounds stand the wrong way around in the source.
  unfoldable pub db_to_norm : F → F
  unfolding linear_remap sq
  db_to_norm db =
      let clamped = f.fmax (f.fmin db vol_min_db) vol_max_db in
      let gain = linear_remap clamped vol_min_db vol_db_range f.nought f.one in sq gain
