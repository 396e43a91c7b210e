-- ===== src/Common/Double.antt =====
-- The floating-point numbers of the C code, of which the models use only these operations.
pub mod Numbers
use adi_bbp.Common.{ℕ}

-- `double` and its conversions. The integer that a conversion gives is the bit pattern of an
-- `int16_t` or an `int32_t`.
pub record Double : Type 1 where
  pub D : Type 0
  -- an integer or its quotient by a power of ten, as a literal
  pub of_ℕ : ℕ → D
  pub mul : D → D → D
  pub div : D → D → D
  pub neg : D → D
  pub sqrt : D → D
  pub pow : D → D → D
  -- `(int16_t) x` and `(int32_t) x`
  pub to_int16 : D → ℕ
  pub to_int32 : D → ℕ
