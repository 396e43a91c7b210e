-- ===== src/Common/Double/Numbers.antt =====
-- Natural numbers in the place of doubles, for the tests.
use adi_bbp.Common.{ℕ, ◌-◌, ◌*◌, ◌/◌, ◌%◌, ◌^◌}
use adi_bbp.Common.Double.{Double}

abbrev pub numbers : Double
numbers = record {
  D = ℕ;
  of_ℕ = λ n. n;
  mul = λ a b. a * b;
  div = λ a b. a / b;
  neg = λ a. 2 ^ 16 - a;
  sqrt = λ a. a;
  pow = λ a b. a;
  to_int16 = λ a. a % 2 ^ 16;
  to_int32 = λ a. a % 2 ^ 32;
}
