-- ===== src/Tx/Coder/Loops.antt =====
-- The three loops of `cc_encode_tb` (sw/tx.c) over the bits of a stream.
use adi_bbp.Common.{
  ℕ, zero, suc, ◌+◌, ◌-◌, ◌*◌, ◌%◌, ◌^◌, ◌≤◌, ◌<◌, ◌≡◌, ap, ◌∙◌, some, lt→ltb, bit_and, arith,
}
use adi_bbp.Tx.Memory.{Array}
use adi_bbp.Tx.Coder.{
  Input, Output, update_state, next_in_bit, parity, put_bit, next_out_bits, init_loop, main_loop,
}
use adi_bbp.Tx.Coder.Bits.{
  bit_at, state_at, AtBit, next_state, next_in_bit-AtBit, Emitted, put_bit-Emitted,
}

-- `(((constraint_t) 1) << constr_len) - 1`
abbrev pub mask_of : ℕ → ℕ
mask_of constr_len = (2 ^ constr_len + 2 ^ 16 - 1) % 2 ^ 16

-- The output bit of a constraint in a state.
abbrev pub coded : (constr_len constr state : ℕ) → ℕ
coded constr_len constr state = parity (bit_and (bit_and constr state) (mask_of constr_len))

-- Pair `t` of the bits is the output of both constraints in the state.
abbrev pub Pair : (bits : ℕ → ℕ) (constrs : Array ℕ) (constr_len t state : ℕ) → Type 0
Pair bits constrs constr_len t state =
    (coded constr_len (constrs 0) state ≡ bits (2 * t))
    × (coded constr_len (constrs 1) state ≡ bits (2 * t + 1))

module _ (bits : ℕ → ℕ) (bit : (i : ℕ) → bits i < 2) (old constrs : Array ℕ) (constr_len : ℕ) where
  pub next_out_bits-Emitted :
      (t state : ℕ) (s : Output)
      → Pair bits constrs constr_len t state
      → Emitted bits old (2 * t) s
      → (s' : Output) × (next_out_bits constrs constr_len state s ≡ some s')
        × Emitted bits old (2 * (t + 1)) s'
  unfolding next_out_bits
  next_out_bits-Emitted t state s pair at =
      let first : Output = put_bit (constrs 0) (mask_of constr_len) state s in
      let both =
        put_bit-Emitted bits bit (constrs 1) (mask_of constr_len) state (2 * t + 1) old first pair.1
          (put_bit-Emitted bits bit (constrs 0) (mask_of constr_len) state (2 * t) old s pair.0
            at) in
      let count : 2 * t + 1 + 1 ≡ 2 * (t + 1) = omega arith in
      (
        put_bit (constrs 1) (mask_of constr_len) state first,
        rw (lt→ltb s.pos 8 (omega (arith, at.pos))),
        rw count at both,
      )

  module _ (mem : Array ℕ) where
    -- The loop for the message: pair `u` is the output in the state after `d + 1 + u` bits.
    pub main_loop_lem :
        (left d t k n last state : ℕ) (s : Input) (out : Output)
        → k ≡ d + t
        → t + left ≡ last
        → k + left ≡ n
        → ((u : ℕ)
            → t ≤ u
            → u < last
            → Pair bits constrs constr_len u (state_at (bit_at mem) (d + u + 1)))
        → state ≡ state_at (bit_at mem) k
        → AtBit mem k s
        → Emitted bits old (2 * t) out
        → (s' : Input) × (out' : Output) × (main_loop mem constrs constr_len left state s out
            ≡ some (state_at (bit_at mem) n, s', out'))
          × AtBit mem n s'
          × Emitted bits old (2 * last) out'
    unfolding main_loop
    main_loop_lem zero d t k n last state s out hk ht hn pairs e at em =
        let same : k ≡ n = omega arith in
        let done : t ≡ last = omega arith in
        (
          s,
          out,
          ap (λ (x : ℕ). some (x, s, out)) (e ∙ ap (state_at (bit_at mem)) same),
          rw same at at,
          rw done at em,
        )
    main_loop_lem (suc left) d t k n last state s out hk ht hn pairs e at em =
        let next = next_state mem k state s at e in
        let here : k + 1 ≡ d + t + 1 = omega arith in
        let pair : Pair bits constrs constr_len t (update_state state s.byte) =
          rw (next, here) (pairs t (omega arith) (omega arith)) in
        let (out₁, ran, em₁) = next_out_bits-Emitted t (update_state state s.byte) out pair em in
        let (s', out', rest, at', em') =
          main_loop_lem left d (t + 1) (k + 1) n last (update_state state s.byte)
            (next_in_bit mem s) out₁ (omega arith) (omega arith) (omega arith)
            (λ u lo hi. pairs u (omega arith) hi) next (next_in_bit-AtBit mem k s at) em₁ in
        (s', out', rw ran rest, at', em')

-- The loop for the initial state takes bits and emits none.
pub init_loop_lem :
    (mem : Array ℕ) (left k n state : ℕ) (s : Input)
    → k + left ≡ n
    → state ≡ state_at (bit_at mem) k
    → AtBit mem k s
    → (s' : Input) × (init_loop mem left state s ≡ (state_at (bit_at mem) n, s')) × AtBit mem n s'
unfolding init_loop
init_loop_lem mem zero k n state s h e at =
    let same : k ≡ n = omega arith in
    (s, ap (λ (x : ℕ). (x, s)) (e ∙ ap (state_at (bit_at mem)) same), rw same at at)
init_loop_lem mem (suc left) k n state s h e at =
    init_loop_lem mem left (k + 1) n _ _ (omega arith) (next_state mem k state s at e)
      (next_in_bit-AtBit mem k s at)
