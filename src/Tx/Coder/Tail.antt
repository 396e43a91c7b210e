-- ===== src/Tx/Coder/Tail.antt =====
-- The last loop of `cc_encode_tb` (sw/tx.c), in which the input goes on with the byte behind the
-- message and then with the bytes of the initial state.
use native.Mathlib.Numerals.{towards_suc}
use adi_bbp.Common.{
  ℕ, zero, suc, ◌+◌, ◌-◌, ◌*◌, ◌/◌, ◌%◌, ◌^◌, ◌≤◌, ◌<◌, ◌≡◌, refl, sym, ap, ◌∙◌, Bool, true, false,
  some, leb, if◌then◌else◌, leb→gt, leb→le, arith,
}
use adi_bbp.Tx.Memory.{Array}
use adi_bbp.Tx.Coder.{Input, Output, update_state, tail_loop}
use adi_bbp.Tx.Coder.Bits.{
  shr, bit_at, state_at, AtBit, next_state, shr-suc_at, shr-zero_at, Emitted,
}
use adi_bbp.Tx.Coder.Loops.{Pair, next_out_bits-Emitted}

-- The bytes that the coder takes its input from: the message of `n` bytes, the byte that stands
-- behind it, and the initial state, lowest byte first.
pub extended : (mem : Array ℕ) (n init : ℕ) → Array ℕ
extended mem n init i = if leb i n then mem i else shr init (8 * (i - n - 1)) % 2 ^ 8

pub extended_within : (mem : Array ℕ) (n init i : ℕ) → i ≤ n → extended mem n init i ≡ mem i
unfolding extended
extended_within mem n init i h = ground arith

extended_beyond :
    (mem : Array ℕ) (n init i : ℕ)
    → n ≤ i
    → extended mem n init (i + 1) ≡ shr init (8 * (i - n)) % 2 ^ 8
unfolding extended
extended_beyond mem n init i h =
    let past : leb (i + 1) n ≡ false = ground arith in
    let same : i + 1 - n - 1 ≡ i - n = omega arith in rw (past, same) refl

shr-eight : (x m : ℕ) → shr x (m + 8) ≡ shr x m / 2 ^ 8
unfolding shr
shr-eight x m = simp towards_suc (omega arith)

-- Both streams give the same states as far as the message goes.
pub state_at-extended :
    (mem : Array ℕ) (n init k : ℕ)
    → k ≤ 8 * n
    → state_at (bit_at (extended mem n init)) k ≡ state_at (bit_at mem) k
unfolding state_at bit_at
state_at-extended mem n init zero h = refl
state_at-extended mem n init (suc k) h =
    rw
      (
        state_at-extended mem n init k (omega arith),
        extended_within mem n init (k / 8) (omega arith),
      )
      refl

-- The loop's variables stand before bit `k` of the extended input.
pub record AtTail (mem : Array ℕ) (n init k init_state byte pos : ℕ) : Type 0 where
  pub beyond : n ≤ k / 8
  pub place : pos ≡ k % 8
  pub current : byte ≡ shr (extended mem n init (k / 8)) (k % 8)
  pub left_over : init_state ≡ shr init (8 * (k / 8 - n))

-- Behind the message the last loop goes on where the one before it has stopped.
pub AtTail-start :
    (mem : Array ℕ) (n init : ℕ) (s : Input)
    → AtBit mem (n * 8) s
    → AtTail mem n init (n * 8) init s.byte s.pos
unfolding shr
AtTail-start mem n init s at = record {
  beyond = omega arith;
  place = at.pos;
  current =
      at.byte
      ∙ ap (λ (b : ℕ). shr b (n * 8 % 8))
          (sym (extended_within mem n init (n * 8 / 8) (omega arith)));
  left_over = let none_yet : 8 * (n * 8 / 8 - n) ≡ 0 = omega arith in ap (shr init) (sym none_yet);
}

module _ (bits : ℕ → ℕ) (bit : (i : ℕ) → bits i < 2) (old constrs : Array ℕ) (constr_len : ℕ)
    (mem : Array ℕ) (n init : ℕ) where
  abbrev stream : ℕ → ℕ
  stream = bit_at (extended mem n init)

  tail_state :
      (k state init_state byte pos : ℕ)
      → AtTail mem n init k init_state byte pos
      → state ≡ state_at stream k
      → update_state state byte ≡ state_at stream (k + 1)
  tail_state k state init_state byte pos at e =
      next_state (extended mem n init) k state (record { ptr = k / 8; byte = byte; pos = pos })
        (record { ptr = refl; pos = at.place; byte = at.current }) e

  wrap-AtTail :
      (k init_state byte pos : ℕ)
      → AtTail mem n init k init_state byte pos
      → 8 ≤ (pos + 1) % 2 ^ 8
      → AtTail mem n init (k + 1) (init_state / 2 ^ 8) (init_state % 2 ^ 8) 0
  wrap-AtTail k init_state byte pos at wraps = record {
    beyond = omega (arith, at.beyond);
    place = omega (arith, at.place);
    current =
        ap (λ (b : ℕ). b % 2 ^ 8) at.left_over
        ∙ sym (extended_beyond mem n init (k / 8) at.beyond)
        ∙ shr-zero_at (extended mem n init) k (omega (arith, at.place));
    left_over =
        let next : 8 * ((k + 1) / 8 - n) ≡ 8 * (k / 8 - n) + 8 =
          omega (arith, at.place, at.beyond) in
        ap (λ (b : ℕ). b / 2 ^ 8) at.left_over
        ∙ sym (shr-eight init (8 * (k / 8 - n)))
        ∙ ap (shr init) (sym next);
  }

  stay-AtTail :
      (k init_state byte pos : ℕ)
      → AtTail mem n init k init_state byte pos
      → (pos + 1) % 2 ^ 8 < 8
      → AtTail mem n init (k + 1) init_state (byte / 2) ((pos + 1) % 2 ^ 8)
  stay-AtTail k init_state byte pos at stays = record {
    beyond = omega (arith, at.beyond);
    place = omega (arith, at.place);
    current =
        ap (λ (b : ℕ). b / 2) at.current
        ∙ shr-suc_at (extended mem n init) k (omega (arith, at.place));
    left_over = let same : (k + 1) / 8 ≡ k / 8 = omega (arith, at.place) in rw same at.left_over;
  }

  move-AtTail :
      (k init_state byte pos : ℕ) (wraps : Bool)
      → leb 8 ((pos + 1) % 2 ^ 8) ≡ wraps
      → AtTail mem n init k init_state byte pos
      → AtTail mem n init
          (k + 1)
          (if wraps then init_state / 2 ^ 8 else init_state)
          (if wraps then init_state % 2 ^ 8 else byte / 2)
          (if wraps then 0 else (pos + 1) % 2 ^ 8)
  move-AtTail k init_state byte pos true e at = wrap-AtTail k init_state byte pos at (leb→le _ _ e)
  move-AtTail k init_state byte pos false e at = stay-AtTail k init_state byte pos at (leb→gt _ _ e)

  -- Pair `u` is the output in the state after `d + u` bits.
  pub tail_loop_lem :
      (left d t k last state init_state byte pos : ℕ) (out : Output)
      → k ≡ d + t
      → t + left ≡ last
      → ((u : ℕ) → t ≤ u → u < last → Pair bits constrs constr_len u (state_at stream (d + u)))
      → state ≡ state_at stream k
      → AtTail mem n init k init_state byte pos
      → Emitted bits old (2 * t) out
      → (out' : Output) × (tail_loop mem constrs constr_len left state init_state byte pos out
          ≡ some out')
        × Emitted bits old (2 * last) out'
  unfolding tail_loop
  tail_loop_lem zero d t k last state init_state byte pos out hk ht pairs e at em =
      let done : t ≡ last = omega arith in (out, refl, rw done at em)
  tail_loop_lem (suc left) d t k last state init_state byte pos out hk ht pairs e at em =
      let here : k ≡ d + t = hk in
      let pair : Pair bits constrs constr_len t state =
        rw (e, here) (pairs t (omega arith) (omega arith)) in
      let (out₁, ran, em₁) =
        next_out_bits-Emitted bits bit old constrs constr_len t state out pair em in
      let next = tail_state k state init_state byte pos at e in
      let (out', rest, em') =
        tail_loop_lem left d (t + 1) (k + 1) last (update_state state byte) _ _ _ out₁ (omega arith)
          (omega arith) (λ u lo hi. pairs u (omega arith) hi) next
          (move-AtTail k init_state byte pos _ refl at) em₁ in
      (out', rw ran rest, em')
