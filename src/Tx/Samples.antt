-- ===== src/Tx/Samples.antt =====
-- The samples of sw/tx.c: fixed-point packing, the training fields with their tones, and the
-- cyclic prefix. The Fourier transform is a parameter.
pub mod Packing
pub mod Prefix
use adi_bbp.Common.{
  ℕ, zero, suc, ◌+◌, ◌-◌, ◌*◌, ◌%◌, ◌^◌, List, [], ◌∷◌, bit_or, Bool, true, false, ltb,
  if◌then◌else◌,
}
use adi_bbp.Common.Double.{Double}
use adi_bbp.Tx.Memory.{Array, update}

-- `cdft(n, isgn, a, ip, w)` of the Fourier transform library on the array from `base`: `Work`
-- stands for its tables `ip` and `w`, which it fills when `ip[0]` is 0.
pub record Fft (d : Double) : Type 1 where
  pub Work : Type 0
  pub fresh : Work
  pub cdft : (n : ℕ) (inverse : Bool) (base : ℕ) → Array d.D × Work → Array d.D × Work

-- The values of the preambles' tables: `c_zero`, `c_one`, `-c_one`, `c_pp` and `c_mm`.
pub data Tone : Type 0 where
  ze on mo pl mi : Tone

module _ (d : Double) where
  -- `samp_mult`
  abbrev pub samp_mult : d.D
  samp_mult = d.of_ℕ 32768

  -- `sqrt(13.0 / 6.0) / 64.0`
  abbrev pub pp : d.D
  pp = d.div (d.sqrt (d.div (d.of_ℕ 13) (d.of_ℕ 6))) (d.of_ℕ 64)

  pub real_of : Tone → d.D
  real_of ze = d.of_ℕ 0
  real_of on = pp
  real_of mo = d.neg pp
  real_of pl = pp
  real_of mi = d.neg pp

  pub imag_of : Tone → d.D
  imag_of ze = d.of_ℕ 0
  imag_of on = d.of_ℕ 0
  imag_of mo = d.of_ℕ 0
  imag_of pl = pp
  imag_of mi = d.neg pp

  -- The array that a table of tones initialises.
  pub tones : List Tone → Array d.D
  tones [] j = d.of_ℕ 0
  tones (t ∷ ts) zero = real_of t
  tones (t ∷ ts) (suc zero) = imag_of t
  tones (t ∷ ts) (suc (suc j)) = tones ts j

  unfoldable pub double_to_packed_fixed : (r i : d.D) → ℕ
  double_to_packed_fixed r i =
      let r_uint = d.to_int16 (d.mul r samp_mult) % 2 ^ 16 in
      let i_uint = d.to_int16 (d.mul i samp_mult) % 2 ^ 16 in bit_or (r_uint * 2 ^ 16) i_uint

  -- Sample `k` of an array of pairs.
  abbrev pub sample : Array d.D → ℕ → ℕ
  sample a k = double_to_packed_fixed (a (2 * k)) (a (2 * k + 1))

  -- The loop of `tf64_to_packed_160`, with `left` rounds to go from `i`.
  pub packing_loop : (scratch : Array d.D) (start left i : ℕ) → Array ℕ → Array ℕ
  packing_loop scratch start zero i out = out
  packing_loop scratch start (suc left) i out =
      packing_loop scratch start left (i + 1) (update out i (sample scratch ((i + start) % 64)))

  pub tf64_to_packed_160 :
      (f : Fft d) (freq : Array d.D) (out : Array ℕ) (time_start_idx : ℕ) → Array ℕ
  tf64_to_packed_160 f freq out time_start_idx =
      packing_loop (f.cdft (2 * 64) false 0 (freq, f.fresh)).0 time_start_idx 160 0 out

  -- The inner loops of `double_to_fixed_with_cp`: `left` samples from `ridx` to `widx` on.
  pub copy_loop : (a : Array d.D) (left ridx widx : ℕ) → Array ℕ → Array ℕ
  copy_loop a zero ridx widx out = out
  copy_loop a (suc left) ridx widx out =
      copy_loop a left (ridx + 2) (widx + 1)
        (update out widx (double_to_packed_fixed (a ridx) (a (ridx + 1))))

  -- The loop over the symbols, with `left` to go from `cnt_fft`.
  pub prefix_loop : (a : Array d.D) (nfft ncp left cnt_fft widx : ℕ) → Array ℕ → Array ℕ
  prefix_loop a nfft ncp zero cnt_fft widx out = out
  prefix_loop a nfft ncp (suc left) cnt_fft widx out =
      let out₁ = copy_loop a ncp (((cnt_fft + 1) * nfft - ncp) * 2) widx out in
      prefix_loop a nfft ncp left (cnt_fft + 1) (widx + ncp + nfft)
        (copy_loop a nfft (cnt_fft * nfft * 2) (widx + ncp) out₁)

  pub double_to_fixed_with_cp : (a : Array d.D) (nfft nsym ncp : ℕ) → Array ℕ → Array ℕ
  double_to_fixed_with_cp a nfft nsym ncp out = prefix_loop a nfft ncp nsym 0 0 out

  -- `i * 1.0 * pow(2.0, -15)` and `i * -1.0 * pow(2.0, -15)`
  pub linear_loop : (left i : ℕ) → Array ℕ → Array ℕ
  linear_loop zero i samps = samps
  linear_loop (suc left) i samps =
      let scale = d.pow (d.of_ℕ 2) (d.neg (d.of_ℕ 15)) in
      linear_loop left (i + 1) (
        update samps i (
          double_to_packed_fixed (d.mul (d.mul (d.of_ℕ i) (d.of_ℕ 1)) scale)
            (d.mul (d.mul (d.of_ℕ i) (d.neg (d.of_ℕ 1))) scale)))

  pub encode_linear_seq : (n : ℕ) → Array ℕ → Array ℕ
  encode_linear_seq n samps = linear_loop n 0 samps

-- `stf_freq` and `ltf_freq`, a pair of numbers to an entry.
pub stf_freq : List Tone
stf_freq =
    ze ∷ ze ∷ ze ∷ ze ∷ mi ∷ ze ∷ ze ∷ ze ∷ mi ∷ ze ∷ ze ∷ ze ∷ pl ∷ ze ∷ ze ∷ ze ∷ pl ∷ ze ∷ ze
    ∷ ze ∷ pl ∷ ze ∷ ze ∷ ze ∷ pl ∷ ze ∷ ze ∷ ze ∷ ze ∷ ze ∷ ze ∷ ze ∷ ze ∷ ze ∷ ze ∷ ze ∷ ze ∷ ze
    ∷ ze ∷ ze ∷ pl ∷ ze ∷ ze ∷ ze ∷ mi ∷ ze ∷ ze ∷ ze ∷ pl ∷ ze ∷ ze ∷ ze ∷ mi ∷ ze ∷ ze ∷ ze ∷ mi
    ∷ ze ∷ ze ∷ ze ∷ pl ∷ ze ∷ ze ∷ ze ∷ []

pub ltf_freq : List Tone
ltf_freq =
    ze ∷ on ∷ mo ∷ mo ∷ on ∷ on ∷ mo ∷ on ∷ mo ∷ on ∷ mo ∷ mo ∷ mo ∷ mo ∷ mo ∷ on ∷ on ∷ mo ∷ mo
    ∷ on ∷ mo ∷ on ∷ mo ∷ on ∷ on ∷ on ∷ on ∷ ze ∷ ze ∷ ze ∷ ze ∷ ze ∷ ze ∷ ze ∷ ze ∷ ze ∷ ze ∷ ze
    ∷ on ∷ on ∷ mo ∷ mo ∷ on ∷ on ∷ mo ∷ on ∷ mo ∷ on ∷ on ∷ on ∷ on ∷ on ∷ on ∷ mo ∷ mo ∷ on ∷ on
    ∷ mo ∷ on ∷ mo ∷ on ∷ on ∷ on ∷ on ∷ []

module _ (d : Double) (f : Fft d) where
  unfoldable pub get_stf : Array ℕ → Array ℕ
  get_stf stf = tf64_to_packed_160 d f (tones d stf_freq) stf 0

  pub get_ltf : Array ℕ → Array ℕ
  get_ltf ltf = tf64_to_packed_160 d f (tones d ltf_freq) ltf 32
