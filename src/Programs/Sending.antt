-- ===== src/Programs/Sending.antt =====
-- What sw/tx_test.c sends.
use adi_bbp.Common.{
  ℕ, ◌+◌, ◌-◌, ◌*◌, ◌%◌, ◌<◌, ◌≤◌, ◌≡◌, ◌≢◌, refl, sym, ap, ◌∙◌, true, false, some, [], ltb, ==_ne,
  if◌then◌else◌, lt→ltb, ge→ltb, arith,
}
use adi_bbp.Common.Double.{Double}
use adi_bbp.Common.Run.{done}
use adi_bbp.Driver.Regs.{ioctl_tx_enable}
use adi_bbp.Tx.Memory.{Array}
use adi_bbp.Tx.Samples.{Fft, tones, stf_freq, sample, get_stf}
use adi_bbp.Tx.Samples.Packing.{tf64_to_packed_160_lem}
use adi_bbp.Tx.Frame.{Stack}
use adi_bbp.Tx.Frame.Samples.{encode_lem}
use adi_bbp.User.{System}
use adi_bbp.User.Laws.{tx_enable-report}
use adi_bbp.Programs.{
  Files, send_frame, hand_over, minus_one, test_message, tx_conf, behind_stf, transmission, tx_test,
  lines,
}

module _ (d : Double) (ft : Fft d) (stack : Stack d) where
  two : (tx_conf d).cc_length < 192
  unfolding tx_conf
  two = omega arith

  -- The first 160 words are the short training field, the next 222 the frame, of which each of the
  -- three symbols of 74 words begins with its last ten; the error message is not printed, no
  -- assertion fails, and no word behind the 382 that the buffer has is written.
  pub transmission_lem :
      (garbage : Array ℕ)
      → (m2s : Array ℕ) × (transmission d ft stack garbage ≡ some (m2s, false))
        × ((j : ℕ)
            → j < 160
            → m2s j ≡ sample d (ft.cdft (2 * 64) false 0 (tones d stf_freq, ft.fresh)).0 (j % 64))
        × ((s j : ℕ) → s < 3 → j < 10 → m2s (160 + (s * 74 + j)) ≡ m2s (160 + (s * 74 + 64 + j)))
        × ((j : ℕ) → 382 ≤ j → m2s j ≡ garbage j)
  unfolding transmission behind_stf get_stf
  transmission_lem garbage =
      let stf = get_stf d ft garbage in
      let (out, ran, prefix, rest) =
        encode_lem d ft stack test_message (λ j. stf (160 + j)) (tx_conf d) two in
      let field = (ft.cdft (2 * 64) false 0 (tones d stf_freq, ft.fresh)).0 in
      let m2s : Array ℕ = λ j. if ltb j 160 then stf j else out (j - 160) in
      let behind : (k : ℕ) → m2s (160 + k) ≡ out k = λ k.
        let back : 160 + k - 160 ≡ k = omega arith in
        rw (ge→ltb (160 + k) 160 (omega arith), back) refl in
      (
        m2s,
        ap (behind_stf d ft stack stf) ran,
        λ j below.
            let at : (j + 0) % 64 ≡ j % 64 = omega arith in
            let in_field : ltb j 160 ≡ true = lt→ltb j 160 below in
            rw in_field
              (tf64_to_packed_160_lem d ft (tones d stf_freq) garbage 0 j ∙ rw (in_field, at) refl),
        λ s j symbol below.
            behind (s * 74 + j) ∙ prefix s j symbol below ∙ sym (behind (s * 74 + 64 + j)),
        λ j beyond.
            let k : 160 + (j - 160) ≡ j = omega arith in
            let past : ltb j 160 ≡ false = ge→ltb j 160 (omega arith) in
            rw past (
              rest (j - 160) (omega arith)
              ∙ ap stf k
              ∙ tf64_to_packed_160_lem d ft (tones d stf_freq) garbage 0 j
              ∙ rw past refl),
      )

  -- Where the device opens, enables both transmitters, and takes 1528 bytes, and there is memory,
  -- the program hands those 382 words to `write`, prints nothing and ends with 0.
  pub tx_test_lem :
      (sys : System) (f : Files sys) (fd : ℕ) (garbage m2s : Array ℕ) (s s₁ s₂ s₃ s₄ s₅ : sys.State)
      → transmission d ft stack garbage ≡ some (m2s, false)
      → f.open_device s ≡ done fd s₁
      → fd ≢ minus_one
      → sys.ioctl fd ioctl_tx_enable 3 s₁ ≡ done 3 s₂
      → f.malloc (382 * 4) s₂ ≡ done (some garbage) s₃
      → f.write fd m2s (382 * 4) s₃ ≡ done (382 * 4) s₄
      → f.close fd s₄ ≡ done tt s₅
      → tx_test d ft stack sys f s ≡ done ([], 0) s₅
  unfolding tx_test send_frame hand_over lines
  tx_test_lem sys f fd garbage m2s s s₁ s₂ s₃ s₄ s₅ built opened valid enabled memory written
        closed =
      rw
        (
          opened,
          ==_ne fd minus_one valid,
          tx_enable-report sys fd 3 s₁ s₂ enabled,
          memory,
          built,
          written,
          closed,
        )
        refl
