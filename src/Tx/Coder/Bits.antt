-- ===== src/Tx/Coder/Bits.antt =====
-- The cursors of the coder (sw/tx.c) over bits: what `next_in_bit` reads and what `put_bit`
-- writes, independent of bytes and positions.
use adi_bbp.Common.{
  ℕ, zero, suc, ◌+◌, ◌*◌, ◌/◌, ◌%◌, ◌^◌, ◌≤◌, ◌<◌, ◌≡◌, refl, sym, ap, ◌∙◌, inl, inr, leb, ◌==◌,
  if◌then◌else◌, Bool-cases, ==→eq, ==→ne, bit_and, bit_or, arith,
}
use native.Mathlib.Nat.{add-zero}
use native.Mathlib.Numerals.{add-one}
use adi_bbp.Common.Bits.{and_0x01, bit_or-add, bit_or-zero, or_0x80}
use adi_bbp.Tx.Memory.{Array, update, update_other}
use adi_bbp.Tx.Coder.{Input, Output, update_state, next_in_bit, parity, put_bit}

-- `x >> n`
unfoldable pub shr : (x n : ℕ) → ℕ
shr x zero = x
shr x (suc n) = shr x n / 2

-- Bit `k` of an array of bytes, lowest bit of each byte first.
unfoldable pub bit_at : Array ℕ → ℕ → ℕ
bit_at mem k = shr (mem (k / 8)) (k % 8) % 2

-- The state of the coder after the first `k` bits of a stream.
unfoldable pub state_at : (stream : ℕ → ℕ) → ℕ → ℕ
state_at stream zero = 0
state_at stream (suc k) = (state_at stream k * 2 + stream k) % 2 ^ 16

-- The cursor stands before bit `k`.
pub record AtBit (mem : Array ℕ) (k : ℕ) (s : Input) : Type 0 where
  pub ptr : s.ptr ≡ k / 8
  pub pos : s.pos ≡ k % 8
  pub byte : s.byte ≡ shr (mem (k / 8)) (k % 8)

pub AtBit-start : (mem : Array ℕ) → AtBit mem 0 (record { ptr = 0; byte = mem 0; pos = 0 })
unfolding shr
AtBit-start mem = record { ptr = refl; pos = refl; byte = refl }

pub update_state_lem : (state byte : ℕ) → update_state state byte ≡ (state * 2 + byte % 2) % 2 ^ 16
unfolding update_state
update_state_lem state byte = rw (and_0x01 byte, bit_or-add 1 state (byte % 2) (omega arith)) refl

pub shr-suc_at :
    (mem : Array ℕ) (k : ℕ)
    → k % 8 < 7
    → shr (mem (k / 8)) (k % 8) / 2 ≡ shr (mem ((k + 1) / 8)) ((k + 1) % 8)
unfolding shr
shr-suc_at mem k h =
    let same : (k + 1) / 8 ≡ k / 8 = omega arith in
    let next : (k + 1) % 8 ≡ suc (k % 8) = omega arith in rw (same, next) refl

pub shr-zero_at :
    (mem : Array ℕ) (k : ℕ) → k % 8 ≡ 7 → mem (k / 8 + 1) ≡ shr (mem ((k + 1) / 8)) ((k + 1) % 8)
unfolding shr
shr-zero_at mem k h =
    let same : (k + 1) / 8 ≡ k / 8 + 1 = omega arith in
    let next : (k + 1) % 8 ≡ 0 = omega arith in rw (same, next) refl

pub next_in_bit-AtBit :
    (mem : Array ℕ) (k : ℕ) (s : Input) → AtBit mem k s → AtBit mem (k + 1) (next_in_bit mem s)
unfolding next_in_bit
next_in_bit-AtBit mem k s at = elim (Bool-cases (leb 8 ((s.pos + 1) % 2 ^ 8))) [
  | inl wraps ↦ rw wraps (record {
    ptr = ground (arith, at.ptr, at.pos);
    pos = ground (arith, at.ptr, at.pos);
    byte = ap (λ (p : ℕ). mem (p + 1)) at.ptr ∙ shr-zero_at mem k (ground (arith, at.pos));
  })
  | inr stays ↦ rw stays (record {
    ptr = ground (arith, at.ptr, at.pos);
    pos = ground (arith, at.ptr, at.pos);
    byte = ap (λ (b : ℕ). b / 2) at.byte ∙ shr-suc_at mem k (ground (arith, at.pos));
  })
]

pub next_state :
    (mem : Array ℕ) (k state : ℕ) (s : Input)
    → AtBit mem k s
    → state ≡ state_at (bit_at mem) k
    → update_state state s.byte ≡ state_at (bit_at mem) (k + 1)
unfolding state_at bit_at
next_state mem k state s at e = update_state_lem state s.byte ∙ rw (e, at.byte, add-one) refl

-- The byte that holds eight bits, the first lowest.
unfoldable pub byte_of : (bits : ℕ → ℕ) → ℕ → ℕ
byte_of bits i =
    bits i
    + 2 * bits (i + 1)
    + 4 * bits (i + 2)
    + 8 * bits (i + 3)
    + 16 * bits (i + 4)
    + 32 * bits (i + 5)
    + 64 * bits (i + 6)
    + 128 * bits (i + 7)

-- The byte in the making once `p` bits have been shifted in from the top.
pub part : (bits : ℕ → ℕ) → ℕ → ℕ → ℕ
part bits i zero = 0
part bits i (suc p) = part bits i p / 2 + 128 * bits (i + p)

-- The cursor has taken the first `m` bits into an array that was `old`: the full bytes are
-- written, and nothing behind them is.
pub record Emitted (bits : ℕ → ℕ) (old : Array ℕ) (m : ℕ) (s : Output) : Type 0 where
  pub ptr : s.ptr ≡ m / 8
  pub pos : s.pos ≡ m % 8
  pub byte : s.byte ≡ part bits (8 * (m / 8)) (m % 8)
  pub full : (j : ℕ) → j < m / 8 → s.buf j ≡ byte_of bits (8 * j)
  pub rest : (j : ℕ) → m / 8 ≤ j → s.buf j ≡ old j

pub Emitted-start :
    (bits : ℕ → ℕ) (old : Array ℕ)
    → Emitted bits old 0 (record { buf = old; ptr = 0; byte = 0; pos = 0 })
unfolding part
Emitted-start bits old = record {
  ptr = refl;
  pos = refl;
  byte = refl;
  full = λ j below. elim below [ ];
  rest = λ j above. refl;
}

module _ (bits : ℕ → ℕ) (bit : (i : ℕ) → bits i < 2) where
  part-lt : (i p : ℕ) → part bits i p < 256
  unfolding part
  part-lt i zero = omega arith
  part-lt i (suc p) = omega (arith, part-lt i p, bit (i + p))

  part-eight : (i : ℕ) → part bits i 8 ≡ byte_of bits i
  unfolding part byte_of
  part-eight i = omega (
    arith,
    ap bits (add-zero i),
    bit i,
    bit (i + 1),
    bit (i + 2),
    bit (i + 3),
    bit (i + 4),
    bit (i + 5),
    bit (i + 6),
    bit (i + 7),
  )

  -- The byte after one more bit.
  push_lem :
      (i p v : ℕ)
      → v ≡ bits (i + p)
      → bit_or (part bits i p / 2) (if v == 0 then 0x00 else 0x80) ≡ part bits i (suc p)
  unfolding part
  push_lem i p v e = elim (Bool-cases (v == 0)) [
    | inl zero_bit ↦ rw (zero_bit, bit_or-zero) (omega (arith, ==→eq v 0 zero_bit))
    | inr one_bit ↦
        rw (one_bit, or_0x80 (part bits i p / 2) (omega (arith, part-lt i p)))
          (omega (arith, ==→ne v 0 one_bit, bit (i + p)))
  ]

  full_byte :
      (m b j : ℕ) (old : Array ℕ) (s : Output)
      → Emitted bits old m s
      → m % 8 ≡ 7
      → b ≡ part bits (8 * (m / 8)) (suc (m % 8))
      → j < (m + 1) / 8
      → update s.buf s.ptr b j ≡ byte_of bits (8 * j)
  full_byte m b j old s at last e below = elim (Bool-cases (s.ptr == j)) [
    | inl here ↦ rw here (
        e
        ∙ ap (λ (p : ℕ). part bits (8 * (m / 8)) (suc p)) last
        ∙ part-eight (8 * (m / 8))
        ∙ ap (λ (q : ℕ). byte_of bits (8 * q)) (sym at.ptr ∙ ==→eq s.ptr j here))
    | inr other ↦ rw other (at.full j (omega (arith, at.ptr, ==→ne s.ptr j other)))
  ]

  store_byte :
      (m b : ℕ) (old : Array ℕ) (s : Output)
      → Emitted bits old m s
      → b ≡ part bits (8 * (m / 8)) (suc (m % 8))
      → Emitted bits old (m + 1) (
          if leb 8 ((s.pos + 1) % 2 ^ 8)
          then record { buf = update s.buf s.ptr b; ptr = s.ptr + 1; byte = 0; pos = 0 }
          else record { buf = s.buf; ptr = s.ptr; byte = b; pos = (s.pos + 1) % 2 ^ 8 })
  unfolding part
  store_byte m b old s at e = elim (Bool-cases (leb 8 ((s.pos + 1) % 2 ^ 8))) [
    | inl wraps ↦ rw wraps (record {
      ptr = ground (arith, at.ptr, at.pos);
      pos = ground (arith, at.ptr, at.pos);
      byte =
          let zero_pos : (m + 1) % 8 ≡ 0 = ground (arith, at.pos) in
          ap (part bits (8 * ((m + 1) / 8))) (sym zero_pos);
      full = λ j below. full_byte m b j old s at (ground (arith, at.pos)) e below;
      rest = λ j above.
          update_other s.buf s.ptr j b (ground (arith, at.ptr, at.pos))
          ∙ at.rest j (omega (arith, at.pos));
    })
    | inr stays ↦ rw stays (record {
      ptr = ground (arith, at.ptr, at.pos);
      pos = ground (arith, at.ptr, at.pos);
      byte =
          let same : (m + 1) / 8 ≡ m / 8 = ground (arith, at.pos) in
          let next : (m + 1) % 8 ≡ suc (m % 8) = ground (arith, at.pos) in rw (same, next) e;
      full = λ j below. at.full j (ground (arith, at.pos));
      rest = λ j above. at.rest j (omega (arith, at.pos));
    })
  ]

  pub put_bit-Emitted :
      (constr mask state m : ℕ) (old : Array ℕ) (s : Output)
      → parity (bit_and (bit_and constr state) mask) ≡ bits m
      → Emitted bits old m s
      → Emitted bits old (m + 1) (put_bit constr mask state s)
  unfolding put_bit
  put_bit-Emitted constr mask state m old s e at =
      store_byte m _ old s at
        (rw at.byte (push_lem (8 * (m / 8)) (m % 8) _ (e ∙ ap bits (omega arith))))
