-- ===== src/Tx/Coder/PastEnd.antt =====
-- What the tail of `cc_encode_tb` (sw/tx.c) depends on, at the constraints that the repository's
-- programs use: a byte behind the message.
use adi_bbp.Common.{
  ℕ, zero, suc, ◌+◌, ◌-◌, ◌*◌, ◌/◌, ◌%◌, ◌<◌, ◌≡◌, refl, ap, ◌∙◌, ltb, ge→ltb, some, false, arith,
}
use adi_bbp.Common.Bits.{and_0x03, one-bit_and}
use adi_bbp.Tx.Memory.{Array}
use adi_bbp.Tx.Coder.{ones, parity, cc_encode_tb}
use adi_bbp.Tx.Coder.Bits.{shr, bit_at, state_at, byte_of}
use adi_bbp.Tx.Coder.Loops.{coded}
use adi_bbp.Tx.Coder.Tail.{extended_within}
use adi_bbp.Tx.Coder.Laws.{initial, input, output_state, code, code-lt, cc_encode_tb_lem}

parity_bit : (b : ℕ) → b < 2 → parity b ≡ b
unfolding parity ones
parity_bit zero h = refl
parity_bit (suc zero) h = refl
parity_bit (suc (suc b)) h = absurd (omega arith)

-- The constraint 1 puts out the bit that came in last.
coded_one : (state : ℕ) → coded 2 1 state ≡ state % 2
coded_one state =
    rw (one-bit_and state, and_0x03 (state % 2))
      (ap parity (omega arith) ∙ parity_bit (state % 2) (omega arith))

module _ (mem constrs : Array ℕ) (n : ℕ) (pos : 0 < n) (one : constrs 0 ≡ 1) where
  last_input : input mem constrs 2 n (n * 8) ≡ mem n % 2
  unfolding bit_at shr
  last_input =
      let byte : n * 8 / 8 ≡ n = omega arith in
      let bit : n * 8 % 8 ≡ 0 = omega arith in
      rw (byte, bit, extended_within mem n (initial mem constrs 2 n) n (omega arith)) refl

  last_state : output_state mem constrs 2 n (8 * n - 1) % 2 ≡ mem n % 2
  unfolding output_state state_at
  last_state =
      let tail : ltb (8 * n - 1) (n * 8 - 2) ≡ false = ge→ltb _ _ (omega arith) in
      let index : 2 + (8 * n - 1) ≡ suc (n * 8) = omega arith in
      rw (tail, index) (omega (arith, last_input))

  last_code : code mem constrs 2 n (8 * (2 * n - 1) + 6) ≡ mem n % 2
  unfolding code
  last_code =
      let even : (8 * (2 * n - 1) + 6) % 2 ≡ 0 = omega arith in
      let half : (8 * (2 * n - 1) + 6) / 2 ≡ 8 * n - 1 = omega arith in
      rw (even, half, one) (coded_one _ ∙ last_state)

  -- At a constraint length of 2, with 1 for the first constraint and a message that is not empty, bit 6 of the last byte of the
  -- output is the lowest bit of the byte behind the message, and so no part of the message.
  pub cc_encode_tb_past_end :
      (out : Array ℕ)
      → (out' : Array ℕ) × (cc_encode_tb mem constrs 2 n out ≡ some out')
        × (out' (2 * n - 1) / 64 % 2 ≡ mem n % 2)
  unfolding byte_of
  cc_encode_tb_past_end out =
      let i : ℕ = 8 * (2 * n - 1) in
      let c = code mem constrs 2 n in
      let small = code-lt mem constrs 2 n in
      let sixth : byte_of c i / 64 % 2 ≡ mem n % 2 = omega (
        arith,
        last_code,
        small i,
        small (i + 1),
        small (i + 2),
        small (i + 3),
        small (i + 4),
        small (i + 5),
        small (i + 6),
        small (i + 7),
      ) in
      let (out', ran, bytes, _) = cc_encode_tb_lem mem constrs 2 n out (omega arith) in
      (out', ran, ap (λ (b : ℕ). b / 64 % 2) (bytes (2 * n - 1) (omega arith)) ∙ sixth)
