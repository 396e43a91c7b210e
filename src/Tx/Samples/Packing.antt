-- ===== src/Tx/Samples/Packing.antt =====
-- The packing of samples (sw/tx.c): fields, and where the training fields repeat.
use adi_bbp.Common.{
  ℕ, zero, suc, ◌+◌, ◌*◌, ◌/◌, ◌%◌, ◌^◌, ◌<◌, ◌≡◌, ◌∙◌, arith, if◌then◌else◌, ltb, false,
}
use adi_bbp.Common.Bits.{bit_or-add}
use adi_bbp.Common.Double.{Double}
use adi_bbp.Tx.Memory.{Array}
use adi_bbp.Tx.Samples.{
  Fft, samp_mult, sample, double_to_packed_fixed, packing_loop, tf64_to_packed_160,
}

module _ (d : Double) where
  -- A packed sample is a 32-bit word with the 16-bit pattern of the scaled real part in its
  -- upper half and that of the imaginary part in its lower half.
  pub double_to_packed_fixed_lem :
      (r i : d.D)
      → (double_to_packed_fixed d r i / 2 ^ 16 ≡ d.to_int16 (d.mul r (samp_mult d)) % 2 ^ 16)
        × (double_to_packed_fixed d r i % 2 ^ 16 ≡ d.to_int16 (d.mul i (samp_mult d)) % 2 ^ 16)
        × (double_to_packed_fixed d r i < 2 ^ 32)
  unfolding double_to_packed_fixed
  double_to_packed_fixed_lem r i =
      let re : ℕ = d.to_int16 (d.mul r (samp_mult d)) % 2 ^ 16 in
      let im : ℕ = d.to_int16 (d.mul i (samp_mult d)) % 2 ^ 16 in
      omega (arith, bit_or-add 16 re im (omega arith))

  packing_loop_lem :
      (scratch : Array d.D) (start left i j : ℕ) (out : Array ℕ)
      → packing_loop d scratch start left i out j ≡ (
          if ltb j i
          then out j
          else (if ltb j (i + left) then sample d scratch ((j + start) % 64) else out j))
  unfolding packing_loop
  packing_loop_lem scratch start zero i j out = ground arith
  packing_loop_lem scratch start (suc left) i j out =
      packing_loop_lem scratch start left (i + 1) j _ ∙ ground arith

  -- The 160 samples of a field are the 64 of the transform over and over, from the start index
  -- on, and nothing behind them is written.
  pub tf64_to_packed_160_lem :
      (f : Fft d) (freq : Array d.D) (out : Array ℕ) (start j : ℕ)
      → tf64_to_packed_160 d f freq out start j ≡ (
          if ltb j 160
          then sample d (f.cdft (2 * 64) false 0 (freq, f.fresh)).0 ((j + start) % 64)
          else out j)
  unfolding tf64_to_packed_160
  tf64_to_packed_160_lem f freq out start j = packing_loop_lem _ start 160 0 j out ∙ ground arith
