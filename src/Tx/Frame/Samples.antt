-- ===== src/Tx/Frame/Samples.antt =====
-- The samples of `encode` (sw/tx.c): their number, their cyclic prefix, and what they depend on.
use mathlib.Core.Path.{fun_ext}
use adi_bbp.Common.{
  false, lt→ltb, ge→ltb, Option, ℕ, ◌+◌, ◌-◌, ◌*◌, ◌≤◌, ◌<◌, ◌≡◌, refl, sym, ap, ◌∙◌, Bool, not,
  some, ltb, ◌==◌, if◌then◌else◌, Bool-cases, inl, inr, ltb→le, arith,
}
use adi_bbp.Common.Double.{Double}
use adi_bbp.Tx.Memory.{Array}
use adi_bbp.Tx.Coder.Laws.{cc_encode_tb_lem}
use adi_bbp.Tx.Samples.{Fft, sample, double_to_fixed_with_cp}
use adi_bbp.Tx.Samples.Prefix.{double_to_fixed_with_cp_lem}
use adi_bbp.Tx.Mapping.{modulate, add_pilots}
use adi_bbp.Tx.Mapping.Laws.{add_pilots-size}
use adi_bbp.Tx.Frame.{TxInfo, Stack, frame, overwrite, fft_loop, encode}

module _ (d : Double) (f : Fft d) where
  same_bytes :
      (a b : Array ℕ) → ((j : ℕ) → 48 ≤ j → a j ≡ b j) → (j : ℕ) → overwrite d a j ≡ overwrite d b j
  unfolding overwrite
  same_bytes a b rest j = elim (Bool-cases (ltb j 48)) [
    | inl t ↦ rw t refl
    | inr e ↦ rw e (rest j (omega (arith, ltb→le j 48 e)))
  ]

  -- `encode` behind the coder.
  finish : Stack d → (samps : Array ℕ) → TxInfo d → Array ℕ → Option (Array ℕ × Bool)
  finish stack samps info encoded =
      let modulated = modulate d encoded 48 stack.modulated in
      let (size_out, mapped) =
        add_pilots d modulated 192 64 info.num_pilots info.pilots 216 stack.mapped in
      let (time_domain, _) = fft_loop d f 3 0 (mapped, f.fresh) in
      some (double_to_fixed_with_cp d time_domain 64 3 10 samps, not (size_out == 216))

  encode-finish :
      (stack : Stack d) (message samps : Array ℕ) (info : TxInfo d)
      → info.cc_length < 192
      → encode d f stack message samps info ≡ finish stack samps info (overwrite d stack.encoded)
  unfolding encode finish
  encode-finish stack message samps info short =
      let (encoded, ran, _, rest) =
        cc_encode_tb_lem (frame d info message stack.behind) info.cc_constr info.cc_length 24
          stack.encoded short in
      let same : overwrite d encoded ≡ overwrite d stack.encoded =
        fun_ext λ j. same_bytes encoded stack.encoded rest j in
      rw ran (ap (λ e. finish stack samps info e) same)

  -- The samples do not depend on the message, on the header or on the code: two calls with the
  -- same pilots give the same, as long as neither constraint has 192 bits or more.
  pub encode-same :
      (stack : Stack d) (message message' samps : Array ℕ) (info info' : TxInfo d)
      → info.cc_length < 192
      → info'.cc_length < 192
      → info.num_pilots ≡ info'.num_pilots
      → info.pilots ≡ info'.pilots
      → encode d f stack message samps info ≡ encode d f stack message' samps info'
  unfolding finish
  encode-same stack message message' samps info info' short short' number pilots =
      rw
        (
          encode-finish stack message samps info short,
          encode-finish stack message' samps info' short',
          number,
          pilots,
        )
        refl

  -- With a constraint of fewer than 192 bits no assertion fails and the error message is not
  -- printed; each of the three symbols is 74 samples, of which the first 10 are the last 10 once more, and nothing is written behind the
  -- 222 samples.
  pub encode_lem :
      (stack : Stack d) (message samps : Array ℕ) (info : TxInfo d)
      → info.cc_length < 192
      → (out : Array ℕ) × (encode d f stack message samps info ≡ some (out, false))
        × ((s j : ℕ) → s < 3 → j < 10 → out (s * 74 + j) ≡ out (s * 74 + 64 + j))
        × ((i : ℕ) → 222 ≤ i → out i ≡ samps i)
  unfolding finish
  encode_lem stack message samps info short =
      let modulated = modulate d (overwrite d stack.encoded) 48 stack.modulated in
      let (size_out, mapped) =
        add_pilots d modulated 192 64 info.num_pilots info.pilots 216 stack.mapped in
      let (time_domain, _) = fft_loop d f 3 0 (mapped, f.fresh) in
      let (inside, beyond) =
        double_to_fixed_with_cp_lem d time_domain 64 10 (omega arith) 3 samps in
      (
        double_to_fixed_with_cp d time_domain 64 3 10 samps,
        rw
            (
              encode-finish stack message samps info short,
              add_pilots-size d modulated 192 64 info.num_pilots info.pilots 216 stack.mapped,
            )
            refl,
        λ s j symbol below.
            let same : (if ltb j 10 then 64 - 10 + j else j - 10)
                ≡ (if ltb (64 + j) 10 then 64 - 10 + (64 + j) else 64 + j - 10) =
              rw (lt→ltb j 10 below, ge→ltb (64 + j) 10 (omega arith)) (omega arith) in
            let at = double_to_fixed_with_cp d time_domain 64 3 10 samps in
            let index : s * 74 + 64 + j ≡ s * 74 + (64 + j) = omega arith in
            inside s j symbol (omega arith)
            ∙ ap (λ (t : ℕ). sample d time_domain (s * 64 + t)) same
            ∙ sym (ap at index ∙ inside s (64 + j) symbol (omega arith)),
        λ i above. beyond i (omega arith),
      )
