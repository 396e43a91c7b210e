-- ===== src/Tx/Coder/Laws.antt =====
-- `cc_encode_tb` of sw/tx.c writes the code of its input, bit for bit.
use adi_bbp.Common.{
  ℕ, ◌+◌, ◌-◌, ◌*◌, ◌/◌, ◌%◌, ◌≤◌, ◌<◌, ◌≡◌, refl, sym, ◌∙◌, none, some, ltb, if◌then◌else◌, lt→ltb,
  ge→ltb, arith,
}
use adi_bbp.Tx.Memory.{Array}
use adi_bbp.Tx.Coder.{parity, cc_encode_tb}
use adi_bbp.Tx.Coder.Bits.{bit_at, state_at, AtBit-start, byte_of, Emitted-start}
use adi_bbp.Tx.Coder.Loops.{coded, Pair, init_loop_lem, main_loop_lem}
use adi_bbp.Tx.Coder.Tail.{extended, state_at-extended, tail_loop_lem, AtTail-start}

module _ (mem constrs : Array ℕ) (constr_len n : ℕ) where
  -- The state after `constr_len` bits, from which the last loop takes input too.
  abbrev pub initial : ℕ
  initial = state_at (bit_at mem) constr_len

  -- The input of the coder: the bits of the message, of the byte behind it, and of `initial`.
  abbrev pub input : ℕ → ℕ
  input = bit_at (extended mem n initial)

  -- The state whose output is pair `t`. The first pair comes after `constr_len + 1` bits; the last
  -- state of the message is put out twice.
  unfoldable pub output_state : ℕ → ℕ
  output_state t =
      state_at input (if ltb t (n * 8 - constr_len) then constr_len + t + 1 else constr_len + t)

  -- The code as a sequence of bits: each pair has a bit for either constraint.
  unfoldable pub code : ℕ → ℕ
  code m = coded constr_len (constrs (m % 2)) (output_state (m / 2))

  pub code-lt : (m : ℕ) → code m < 2
  unfolding code parity
  code-lt m = omega arith

  code-Pair : (t : ℕ) → Pair code constrs constr_len t (output_state t)
  unfolding code
  code-Pair t =
      let even : 2 * t % 2 ≡ 0 = omega arith in
      let odd : (2 * t + 1) % 2 ≡ 1 = omega arith in
      let half : 2 * t / 2 ≡ t = omega arith in
      let half' : (2 * t + 1) / 2 ≡ t = omega arith in (rw (even, half) refl, rw (odd, half') refl)

  main_pairs :
      (u : ℕ)
      → u < n * 8 - constr_len
      → Pair code constrs constr_len u (state_at (bit_at mem) (constr_len + u + 1))
  unfolding output_state
  main_pairs u h =
      let main : output_state u ≡ state_at input (constr_len + u + 1) = rw (lt→ltb u _ h) refl in
      rw (main ∙ state_at-extended mem n initial (constr_len + u + 1) (omega arith)) at
        (code-Pair u)

  tail_pairs :
      (u : ℕ)
      → n * 8 - constr_len ≤ u
      → Pair code constrs constr_len u (state_at input (constr_len + u))
  unfolding output_state
  tail_pairs u h =
      let tail : output_state u ≡ state_at input (constr_len + u) = rw (ge→ltb u _ h) refl in
      rw tail at (code-Pair u)

  -- With fewer bits in the constraint than in the message, the coder fails no assertion, writes
  -- the code, eight bits to a byte with the first lowest, to the first 2 * n bytes of its output,
  -- and writes nothing behind them.
  pub cc_encode_tb_lem :
      (out : Array ℕ)
      → constr_len < n * 8
      → (out' : Array ℕ) × (cc_encode_tb mem constrs constr_len n out ≡ some out')
        × ((j : ℕ) → j < 2 * n → out' j ≡ byte_of code (8 * j))
        × ((j : ℕ) → 2 * n ≤ j → out' j ≡ out j)
  unfolding cc_encode_tb state_at
  cc_encode_tb_lem out fits =
      let (s₁, ran₁, at₁) =
        init_loop_lem mem constr_len 0 constr_len 0 _ (omega arith) refl (AtBit-start mem) in
      let (s₂, o₂, ran₂, at₂, em₂) =
        main_loop_lem code code-lt out constrs constr_len mem (n * 8 - constr_len) constr_len 0
          constr_len (n * 8) (n * 8 - constr_len) initial s₁
          (record { buf = out; ptr = 0; byte = 0; pos = 0 }) (omega arith) (omega arith)
          (omega arith) (λ u lo hi. main_pairs u hi) refl at₁ (Emitted-start code out) in
      let (o₃, ran₃, em₃) =
        tail_loop_lem code code-lt out constrs constr_len mem n initial constr_len constr_len
          (n * 8 - constr_len) (n * 8) (n * 8) (state_at (bit_at mem) (n * 8)) initial s₂.byte
          s₂.pos o₂ (omega arith) (omega arith) (λ u lo hi. tail_pairs u lo)
          (sym (state_at-extended mem n initial (n * 8) (omega arith)))
          (AtTail-start mem n initial s₂ at₂) em₂ in
      (
        o₃.buf,
        rw (ran₁, lt→ltb constr_len (n * 8) fits, ran₂, ran₃) refl,
        λ j below. em₃.full j (omega arith),
        λ j above. em₃.rest j (omega arith),
      )

  -- With as many bits in the constraint as in the message, or more, the assertion fails.
  pub cc_encode_tb_assert :
      (out : Array ℕ) → n * 8 ≤ constr_len → cc_encode_tb mem constrs constr_len n out ≡ none
  unfolding cc_encode_tb
  cc_encode_tb_assert out long = rw (ge→ltb constr_len (n * 8) long) refl
