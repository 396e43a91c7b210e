-- ===== src/Tx/Frame.antt =====
-- `encode` of sw/tx.c with its header: the whole path from a message to samples.
pub mod Header
pub mod Samples
use adi_bbp.Common.{
  ℕ, zero, suc, ◌+◌, ◌-◌, ◌*◌, ◌/◌, ◌%◌, ◌^◌, Bool, true, false, not, Option, none, some, bit_and,
  bit_or, ltb, ◌==◌, if◌then◌else◌,
}
use adi_bbp.Common.Double.{Double}
use adi_bbp.Tx.Memory.{Array}
use adi_bbp.Tx.Coder.{cc_encode_tb, ◌>>=◌}
use adi_bbp.Tx.Samples.{Fft, double_to_fixed_with_cp}
use adi_bbp.Tx.Mapping.{PilotTone, modulate, add_pilots}

-- `tx_info_t`
pub record TxInfo (d : Double) : Type 0 where
  pub src : ℕ
  pub dst : ℕ
  pub time : ℕ
  pub r0 : ℕ
  pub r1 : ℕ
  pub r2 : ℕ
  pub cc_length : ℕ
  pub cc_constr : Array ℕ
  pub num_pilots : ℕ
  pub pilots : Array (PilotTone d)

-- What the arrays of `encode` hold before they are written, and the byte that stands behind
-- `frame`.
pub record Stack (d : Double) : Type 0 where
  pub encoded : Array ℕ
  pub modulated : Array d.D
  pub mapped : Array d.D
  pub behind : ℕ

module _ (d : Double) where
  -- The four bytes of the header. `bit_or` of a shifted field and the one below it.
  pub header : TxInfo d → Array ℕ
  header info zero = bit_or (bit_and info.src 0x1f * 2 ^ 3) (bit_and info.dst 0x1c / 2 ^ 2) % 2 ^ 8
  header info (suc zero) =
      bit_or (bit_and info.dst 0x03 * 2 ^ 6)
        (bit_or (bit_and info.r0 0x1f * 2 ^ 1) (bit_and info.r1 0x10 / 2 ^ 4))
      % 2 ^ 8
  header info (suc (suc zero)) =
      bit_or (bit_and info.r1 0x0f * 2 ^ 4) (bit_and info.r2 0x1e / 2 ^ 1) % 2 ^ 8
  header info (suc (suc (suc j))) = bit_and info.r2 0x01 * 2 ^ 7 % 2 ^ 8

  -- `frame`: the header, 20 bytes of data, and what stands behind.
  pub frame : (info : TxInfo d) (message : Array ℕ) (behind : ℕ) → Array ℕ
  frame info message behind j =
      if ltb j 4 then header info j else if ltb j 24 then message (j - 4) else behind

  -- `memset(encoded, 0x66, 48)`
  pub overwrite : Array ℕ → Array ℕ
  overwrite encoded j = if ltb j 48 then 0x66 else encoded j

  module _ (f : Fft d) where
    -- `for (i = 0; i < 3; i++) cdft(2 * 64, -1, mapped + 2 * 64 * i, ip, w)`
    pub fft_loop : (left i : ℕ) → Array d.D × f.Work → Array d.D × f.Work
    fft_loop zero i s = s
    fft_loop (suc left) i s = fft_loop left (i + 1) (f.cdft (2 * 64) true (2 * 64 * i) s)

    -- The samples, and whether the error message of `add_pilots` is printed. `none` is a failed
    -- assertion.
    pub encode :
        (stack : Stack d) (message : Array ℕ) (samps : Array ℕ) (info : TxInfo d)
        → Option (Array ℕ × Bool)
    encode stack message samps info =
        cc_encode_tb (frame info message stack.behind) info.cc_constr info.cc_length 24
          stack.encoded
        >>= λ encoded.
            let modulated = modulate d (overwrite encoded) 48 stack.modulated in
            let (size_out, mapped) =
              add_pilots d modulated 192 64 info.num_pilots info.pilots 216 stack.mapped in
            let (time_domain, _) = fft_loop 3 0 (mapped, f.fresh) in
            some (double_to_fixed_with_cp d time_domain 64 3 10 samps, not (size_out == 216))
