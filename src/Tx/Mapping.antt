-- ===== src/Tx/Mapping.antt =====
-- The subcarriers of sw/tx.c: `modulate`, `add_pilots` and `pilot_compare`. Arrays of doubles hold
-- a complex number in two places.
pub mod Laws
pub mod Pilots
use adi_bbp.Common.{
  ℕ, zero, suc, ◌+◌, ◌*◌, ◌/◌, ◌%◌, ◌^◌, Bool, true, false, ◌&&◌, bit_and, ltb, leb, ◌==◌,
  if◌then◌else◌,
}
use adi_bbp.Common.Double.{Double}
use adi_bbp.Tx.Memory.{Array, update}
use adi_bbp.Tx.Samples.{pp}

-- The result of `pilot_compare`.
pub data Compared : Type 0 where
  less equal greater : Compared

module _ (d : Double) where
  pub record PilotTone : Type 0 where
    pub pos : ℕ
    pub real : d.D
    pub imag : d.D

  pub pilot_compare : PilotTone → PilotTone → Compared
  pilot_compare p1 p2 =
      if ltb p1.pos p2.pos then less else if ltb p2.pos p1.pos then greater else equal

  -- `(sym & mask) ? pp : -pp`
  abbrev pub level : (masked : ℕ) → d.D
  level masked = if masked == 0 then d.neg (pp d) else pp d

  -- The inner loop of `modulate`, with `left` rounds to go from `j`.
  pub symbol_loop : (i left j current : ℕ) → Array d.D → Array d.D
  symbol_loop i zero j current samps = samps
  symbol_loop i (suc left) j current samps =
      let sym = bit_and current 0x3 in
      let idx = (i * 2 ^ 2 + j) * 2 in
      symbol_loop i left (j + 1) (current / 2 ^ 2)
        (update (update samps idx (level (bit_and sym 0x2))) (idx + 1) (level (bit_and sym 0x1)))

  pub modulate_loop : (mem : Array ℕ) (left i : ℕ) → Array d.D → Array d.D
  modulate_loop mem zero i samps = samps
  modulate_loop mem (suc left) i samps =
      modulate_loop mem left (i + 1) (symbol_loop i 4 0 (mem i) samps)

  pub modulate : (mem : Array ℕ) (in_len : ℕ) → Array d.D → Array d.D
  modulate mem in_len samps = modulate_loop mem in_len 0 samps

  -- The variables of the loop of `add_pilots`, with the array that it writes.
  pub record Adding : Type 0 where
    pub out : Array d.D
    pub in_idx : ℕ
    pub pilots_idx : ℕ

  -- `out[2 * k] = r; out[2 * k + 1] = i`
  abbrev pub put : Array d.D → ℕ → (r i : d.D) → Array d.D
  put out k r i = update (update out (k * 2) r) (k * 2 + 1) i

  module _ (input : Array d.D) (n_in n_fft num_pilots : ℕ) (pilots : Array PilotTone) where
    -- One round for the output `out_idx`.
    pub add_step : (out_idx : ℕ) → Adding → Adding
    add_step out_idx s =
        if ltb s.pilots_idx num_pilots && (pilots s.pilots_idx).pos == out_idx % n_fft
        then record {
          out =
              put s.out out_idx (d.mul (pilots s.pilots_idx).real (pp d))
                (d.mul (pilots s.pilots_idx).imag (pp d));
          in_idx = s.in_idx;
          pilots_idx = if leb num_pilots (s.pilots_idx + 1) then 0 else s.pilots_idx + 1;
        }
        else if ltb s.in_idx n_in
        then record {
          out = put s.out out_idx (input (s.in_idx * 2)) (input (s.in_idx * 2 + 1));
          in_idx = s.in_idx + 1;
          pilots_idx = s.pilots_idx;
        }
        else record s { out = put s.out out_idx (d.of_ℕ 0) (d.of_ℕ 0) }

    -- `while (out_idx < n_out)`, with `left` rounds to go; the result has the last `out_idx`.
    pub add_loop : (left out_idx : ℕ) → Adding → ℕ × Adding
    add_loop zero out_idx s = (out_idx, s)
    add_loop (suc left) out_idx s = add_loop left (out_idx + 1) (add_step out_idx s)

    pub add_pilots : (n_out : ℕ) (out : Array d.D) → ℕ × Array d.D
    add_pilots n_out out =
        let (out_idx, s) = add_loop n_out 0 (record { out = out; in_idx = 0; pilots_idx = 0 }) in
        (out_idx, s.out)
