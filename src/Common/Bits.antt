-- ===== src/Common/Bits.antt =====
-- The C operators `&` and `|` on fields of a word, as arithmetic.
use Prim.Native.Nat.{
  ℕ, zero, suc, ◌+◌, ◌*◌, ◌/◌, ◌%◌, ◌^◌, ◌≤◌, ◌<◌, min, max, bit_and, bit_or, digits,
  bit_and-bitwise, bit_or-bitwise,
}
use mathlib.Core.Path.{◌≡◌, refl, ap, ◌∙◌}
use native.Mathlib.Nat.{pow-suc}
use native.Mathlib.Omega.{arith}

-- Any fuel from `a` on gives the same digits.
module _ (base : ℕ → ℕ) (op : ℕ → ℕ → ℕ) where
  same_digits : (m n a b : ℕ) → a ≤ m → a ≤ n → digits base op m a b ≡ digits base op n a b
  same_digits m n zero b p q = enough m n
    where
      enough : (m n : ℕ) → digits base op m 0 b ≡ digits base op n 0 b
      enough zero zero = refl
      enough zero (suc n) = refl
      enough (suc m) zero = refl
      enough (suc m) (suc n) = refl
  same_digits zero n (suc a) b p q = elim p [ ]
  same_digits (suc m) zero (suc a) b p q = elim q [ ]
  same_digits (suc m) (suc n) (suc a) b p q =
      let half : suc a / 2 ≤ m = omega arith in
      let half' : suc a / 2 ≤ n = omega arith in
      rw (same_digits m n (suc a / 2) (b / 2) half half') refl

-- The lowest digit of `|` and of `&`.
pub or_digit : (a b : ℕ) → bit_or a b ≡ bit_or (a / 2) (b / 2) * 2 + max (a % 2) (b % 2)
or_digit zero b = simp bit_or-bitwise (omega arith)
or_digit (suc a) b = omega (
  arith,
  bit_or-bitwise (suc a) b,
  bit_or-bitwise (suc a / 2) (b / 2),
  same_digits (λ y. y) max a (suc a / 2) (suc a / 2) (b / 2) (omega arith) (omega arith),
)

pub and_digit : (a b : ℕ) → bit_and a b ≡ bit_and (a / 2) (b / 2) * 2 + min (a % 2) (b % 2)
and_digit zero b = simp bit_and-bitwise (omega arith)
and_digit (suc a) b = omega (
  arith,
  bit_and-bitwise (suc a) b,
  bit_and-bitwise (suc a / 2) (b / 2),
  same_digits (λ y. 0) min a (suc a / 2) (suc a / 2) (b / 2) (omega arith) (omega arith),
)

bit_or-zero_below : (n a : ℕ) → a ≤ n → bit_or a 0 ≡ a
bit_or-zero_below n zero h = bit_or-bitwise 0 0
bit_or-zero_below zero (suc a) h = elim h [ ]
bit_or-zero_below (suc n) (suc a) h =
    let smaller : suc a / 2 ≤ n = omega arith in
    omega (arith, or_digit (suc a) 0, bit_or-zero_below n (suc a / 2) smaller)

pub bit_or-zero : (a : ℕ) → bit_or a 0 ≡ a
bit_or-zero a = bit_or-zero_below a a (omega arith)

bit_and-zero_below : (n a : ℕ) → a ≤ n → bit_and a 0 ≡ 0
bit_and-zero_below n zero h = bit_and-bitwise 0 0
bit_and-zero_below zero (suc a) h = elim h [ ]
bit_and-zero_below (suc n) (suc a) h =
    let smaller : suc a / 2 ≤ n = omega arith in
    omega (arith, and_digit (suc a) 0, bit_and-zero_below n (suc a / 2) smaller)

double_pow : (q k : ℕ) → q * 2 ^ suc k ≡ 2 * (q * 2 ^ k)
double_pow q k = omega (arith, ap (λ (t : ℕ). q * t) (pow-suc 2 k))

-- `(q << k) | r` is a sum where `r` fits below the shifted field.
pub bit_or-add : (k q r : ℕ) → r < 2 ^ k → bit_or (q * 2 ^ k) r ≡ q * 2 ^ k + r
bit_or-add zero q r fits = ground (arith, bit_or-zero_below q q (omega arith))
bit_or-add (suc k) q r fits =
    let below : r / 2 < 2 ^ k = omega (arith, pow-suc 2 k) in
    ground (arith, or_digit (q * 2 ^ suc k) r, double_pow q k, bit_or-add k q (r / 2) below)

-- The masks of the program.
pub and_0x01 : (a : ℕ) → bit_and a 0x01 ≡ a % 2
and_0x01 a = omega (arith, and_digit a 1, bit_and-zero_below (a / 2) (a / 2) (omega arith))

pub and_0x03 : (a : ℕ) → bit_and a 0x03 ≡ a % 4
and_0x03 a = omega (arith, and_digit a 3, and_0x01 (a / 2))

pub and_0x02 : (a : ℕ) → bit_and a 0x02 ≡ a / 2 % 2 * 2
and_0x02 a = omega (arith, and_digit a 2, and_0x01 (a / 2))

and_0x07 : (a : ℕ) → bit_and a 0x07 ≡ a % 8
and_0x07 a = omega (arith, and_digit a 7, and_0x03 (a / 2))

pub and_0x0f : (a : ℕ) → bit_and a 0x0f ≡ a % 16
and_0x0f a = omega (arith, and_digit a 15, and_0x07 (a / 2))

pub and_0x1f : (a : ℕ) → bit_and a 0x1f ≡ a % 32
and_0x1f a = omega (arith, and_digit a 31, and_0x0f (a / 2))

pub and_0x1e : (a : ℕ) → bit_and a 0x1e ≡ a / 2 % 16 * 2
and_0x1e a = omega (arith, and_digit a 30, and_0x0f (a / 2))

and_0x0e : (a : ℕ) → bit_and a 0x0e ≡ a / 2 % 8 * 2
and_0x0e a = omega (arith, and_digit a 14, and_0x07 (a / 2))

pub and_0x1c : (a : ℕ) → bit_and a 0x1c ≡ a / 4 % 8 * 4
and_0x1c a = omega (arith, and_digit a 28, and_0x0e (a / 2))

and_0x04 : (a : ℕ) → bit_and a 0x04 ≡ a / 4 % 2 * 4
and_0x04 a = omega (arith, and_digit a 4, and_0x02 (a / 2))

and_0x08 : (a : ℕ) → bit_and a 0x08 ≡ a / 8 % 2 * 8
and_0x08 a = omega (arith, and_digit a 8, and_0x04 (a / 2))

pub and_0x10 : (a : ℕ) → bit_and a 0x10 ≡ a / 16 % 2 * 16
and_0x10 a = omega (arith, and_digit a 16, and_0x08 (a / 2))

pub one-bit_and : (a : ℕ) → bit_and 1 a ≡ a % 2
one-bit_and a = omega (arith, and_digit 1 a, bit_and-bitwise 0 (a / 2))

-- Setting the bit above a number.
or_top : (k a : ℕ) → a < 2 ^ k → bit_or a (2 ^ k) ≡ a + 2 ^ k
or_top zero zero h = bit_or-bitwise 0 1
or_top zero (suc a) h = absurd (omega arith)
or_top (suc k) a h =
    let twice : 2 ^ suc k ≡ 2 * 2 ^ k = omega (arith, pow-suc 2 k) in
    let half : 2 ^ suc k / 2 ≡ 2 ^ k = omega arith in
    let rest : bit_or (a / 2) (2 ^ k) ≡ a / 2 + 2 ^ k = or_top k (a / 2) (omega arith) in
    or_digit a (2 ^ suc k) ∙ rw (half, rest) (omega arith)

-- `a | 0x80`, on a byte that has been shifted right.
pub or_0x80 : (a : ℕ) → a < 128 → bit_or a 0x80 ≡ a + 128
or_0x80 a h = or_top 7 a h
