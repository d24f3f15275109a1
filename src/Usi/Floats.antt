-- ===== src/Usi/Floats.antt =====
-- The floating-point operations that usi/time_manager.cc calls. Nothing is assumed of them.
use jhbr.Base.{ℕ, Bool, if◌then◌else◌, ℤ}

pub record Floats : Type 1 where
  pub Value : Type 0
  pub of_int : ℤ → Value
  -- `literal n k` is the literal n / 10^k.
  pub literal : ℕ → ℕ → Value
  pub plus : Value → Value → Value
  pub minus : Value → Value → Value
  pub times : Value → Value → Value
  pub over : Value → Value → Value
  pub less : Value → Value → Bool
  pub less_eq : Value → Value → Bool
  -- static_cast<int>, std::lround and std::ceil.
  pub truncate : Value → ℤ
  pub lround : Value → ℤ
  pub ceil : Value → ℤ

-- std::max and std::clamp.
module _ (f : Floats) where
  abbrev pub max_of : f.Value → f.Value → f.Value
  max_of a b = if f.less a b then b else a

  abbrev pub clamp_of : f.Value → f.Value → f.Value → f.Value
  clamp_of v lo hi = if f.less v lo then lo else if f.less hi v then hi else v
