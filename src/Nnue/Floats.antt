-- ===== src/Nnue/Floats.antt =====
-- The single-precision operations that nnue/eval_cache.h calls.
use jhbr.Base.{ℕ, Bool, true, false, ◌||◌, ◌≡◌, ◌≤◌}

pub record Floats : Type 1 where
  pub Value : Type 0
  -- static_cast<float> of an integer, and the literals 0.0f, 1.0f and 65535.0f.
  pub of_uint : ℕ → Value
  -- 0.5f
  pub half : Value
  pub plus : Value → Value → Value
  pub times : Value → Value → Value
  pub over : Value → Value → Value
  pub less : Value → Value → Bool
  -- static_cast<uint64_t>
  pub to_uint : Value → ℕ

module _ (f : Floats) where
  -- Not a NaN, which compares false with everything: a number is below 2 or above 1.
  abbrev pub IsNumber : f.Value → Type 0
  IsNumber x = (f.less x (f.of_uint 2) || f.less (f.of_uint 1) x) ≡ true

  -- A value in units of 1/65535, rounded.
  abbrev pub nearest_level : f.Value → ℕ
  nearest_level x = f.to_uint (f.plus (f.times x (f.of_uint 65535)) f.half)

  -- How the rounding of a value between 0 and 1 comes out. Single precision holds 65535.5 exactly.
  pub record IsRounding : Type 0 where
    pub zero_level : nearest_level (f.of_uint 0) ≡ 0
    pub one_level : nearest_level (f.of_uint 1) ≡ 65535
    pub between :
        (x : f.Value)
        → IsNumber x
        → f.less x (f.of_uint 0) ≡ false
        → f.less (f.of_uint 1) x ≡ false
        → nearest_level x ≤ 65535
