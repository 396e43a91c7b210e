-- ===== src/Tx/Mapping/Laws.antt =====
-- What `modulate` and `add_pilots` (sw/tx.c) put on each subcarrier.
use adi_bbp.Common.{
  ℕ, zero, suc, ◌+◌, ◌*◌, ◌/◌, ◌%◌, ◌≤◌, ◌<◌, ◌≡◌, ◌⊎◌, if◌then◌else◌, inl, inr, refl, ◌∙◌, arith,
  ◌==◌, Bool-cases, ==→eq, ==→ne, bit_and,
}
use adi_bbp.Common.Bits.{and_0x01, and_0x02, and_0x03}
use adi_bbp.Common.Double.{Double}
use adi_bbp.Tx.Memory.{Array, update, update_self, update_other}
use adi_bbp.Tx.Coder.Bits.{shr, bit_at}
use adi_bbp.Tx.Mapping.{
  PilotTone, Adding, add_step, add_loop, add_pilots, level, symbol_loop, modulate_loop, modulate,
}

module _ (d : Double) (mem : Array ℕ) where
  level_double : (b : ℕ) → level d (b * 2) ≡ level d b
  level_double b = ground arith

  -- A bit on its axis: 1 is the positive and 0 the negative amplitude, the square root of 13/6
  -- over 64.
  abbrev pub axis : (bit : ℕ) → d.D
  axis bit =
      let amplitude : d.D = d.div (d.sqrt (d.div (d.of_ℕ 13) (d.of_ℕ 6))) (d.of_ℕ 64) in
      if bit == 1 then amplitude else d.neg amplitude

  level-axis : (bit : ℕ) → bit < 2 → level d bit ≡ axis bit
  level-axis zero h = refl
  level-axis (suc zero) h = refl
  level-axis (suc (suc bit)) h = absurd (omega (arith, h))

  upper_bit :
      (i j current : ℕ)
      → j < 4
      → current ≡ shr (mem i) (2 * j)
      → level d (bit_and (bit_and current 0x3) 0x2) ≡ axis (bit_at mem (2 * (i * 4 + j) + 1))
  unfolding shr bit_at
  upper_bit i j current h e =
      let byte : (2 * (i * 4 + j) + 1) / 8 ≡ i = omega arith in
      let place : (2 * (i * 4 + j) + 1) % 8 ≡ suc (2 * j) = omega arith in
      let masked : bit_and (bit_and current 0x3) 0x2 ≡ current / 2 % 2 * 2 =
        omega (arith, and_0x02 (bit_and current 0x3), and_0x03 current) in
      rw (masked, byte, place, ← e)
        (level_double (current / 2 % 2) ∙ level-axis (current / 2 % 2) (omega arith))

  lower_bit :
      (i j current : ℕ)
      → j < 4
      → current ≡ shr (mem i) (2 * j)
      → level d (bit_and (bit_and current 0x3) 0x1) ≡ axis (bit_at mem (2 * (i * 4 + j)))
  unfolding bit_at
  lower_bit i j current h e =
      let byte : 2 * (i * 4 + j) / 8 ≡ i = omega arith in
      let place : 2 * (i * 4 + j) % 8 ≡ 2 * j = omega arith in
      let masked : bit_and (bit_and current 0x3) 0x1 ≡ current % 2 =
        omega (arith, and_0x01 (bit_and current 0x3), and_0x03 current) in
      rw (masked, byte, place, ← e) (level-axis (current % 2) (omega arith))

  symbol_loop_outside :
      (i left j current x : ℕ) (samps : Array d.D)
      → (x < (i * 4 + j) * 2) ⊎ ((i * 4 + j + left) * 2 ≤ x)
      → symbol_loop d i left j current samps x ≡ samps x
  unfolding symbol_loop
  symbol_loop_outside i zero j current x samps h = refl
  symbol_loop_outside i (suc left) j current x samps h =
      let idx : ℕ = (i * 4 + j) * 2 in
      let high : d.D = level d (bit_and (bit_and current 0x3) 0x2) in
      let low : d.D = level d (bit_and (bit_and current 0x3) 0x1) in
      let half : Array d.D = update samps idx high in
      symbol_loop_outside i left (j + 1) (current / 4) x (update half (idx + 1) low) (omega arith)
      ∙ update_other half (idx + 1) x low (omega arith)
      ∙ update_other samps idx x high (omega arith)

  -- Subcarrier `k` stands for the bits `2 * k` and `2 * k + 1` of the input.
  abbrev pub Carries : Array d.D → ℕ → Type 0
  Carries samps k =
      (samps (k * 2) ≡ axis (bit_at mem (2 * k + 1)))
      × (samps (k * 2 + 1) ≡ axis (bit_at mem (2 * k)))

  symbol_loop_inside :
      (i left j current q : ℕ) (samps : Array d.D)
      → current ≡ shr (mem i) (2 * j)
      → j ≤ q
      → q < j + left
      → j + left ≤ 4
      → Carries (symbol_loop d i left j current samps) (i * 4 + q)
  unfolding symbol_loop shr
  symbol_loop_inside i zero j current q samps e lo hi four = absurd (omega arith)
  symbol_loop_inside i (suc left) j current q samps e lo hi four = elim (Bool-cases (j == q)) [
    | inl here ↦
        let idx : ℕ = (i * 4 + j) * 2 in
        let high : d.D = level d (bit_and (bit_and current 0x3) 0x2) in
        let low : d.D = level d (bit_and (bit_and current 0x3) 0x1) in
        let half : Array d.D = update samps idx high in
        let rest = symbol_loop_outside i left (j + 1) (current / 4) in
        rw (← ==→eq j q here) (
          rest idx (update half (idx + 1) low) (inl (omega arith))
              ∙ update_other half (idx + 1) idx low (omega arith)
              ∙ update_self samps idx high
              ∙ upper_bit i j current (omega arith) e,
          rest (idx + 1) (update half (idx + 1) low) (inl (omega arith))
              ∙ update_self half (idx + 1) low
              ∙ lower_bit i j current (omega arith) e,
        )
    | inr later ↦
        let next : 2 * (j + 1) ≡ suc (suc (2 * j)) = omega arith in
        symbol_loop_inside i left (j + 1) (current / 4) q _ (rw next (omega (arith, e)))
          (omega (arith, ==→ne j q later)) (omega arith) (omega arith)
  ]

  modulate_loop_outside :
      (left i x : ℕ) (samps : Array d.D)
      → (x < i * 8) ⊎ ((i + left) * 8 ≤ x)
      → modulate_loop d mem left i samps x ≡ samps x
  unfolding modulate_loop
  modulate_loop_outside zero i x samps h = refl
  modulate_loop_outside (suc left) i x samps h =
      modulate_loop_outside left (i + 1) x _ (omega arith)
      ∙ symbol_loop_outside i 4 0 (mem i) x samps (omega arith)

  modulate_loop_inside :
      (left i s q : ℕ) (samps : Array d.D)
      → i ≤ s
      → s < i + left
      → q < 4
      → Carries (modulate_loop d mem left i samps) (s * 4 + q)
  unfolding modulate_loop shr
  modulate_loop_inside zero i s q samps lo hi four = absurd (omega arith)
  modulate_loop_inside (suc left) i s q samps lo hi four = elim (Bool-cases (i == s)) [
    | inl here ↦
        let symbol =
          symbol_loop_inside i 4 0 (mem i) q samps refl (omega arith) (omega arith) (omega arith) in
        rw (← ==→eq i s here) (
          modulate_loop_outside left (i + 1) ((i * 4 + q) * 2) _ (inl (omega arith)) ∙ symbol.0,
          modulate_loop_outside left (i + 1) ((i * 4 + q) * 2 + 1) _ (inl (omega arith)) ∙ symbol.1,
        )
    | inr later ↦
        modulate_loop_inside left (i + 1) s q _ (omega (arith, ==→ne i s later)) (omega arith) four
  ]

  -- For an input of `n` bytes there are 4 * n subcarriers. Each carries its two bits, the higher
  -- one on the real axis, with the square root of 13/6 over 64 for a 1 and its negative for a 0.
  -- Nothing behind them is written.
  pub modulate_lem :
      (n : ℕ) (samps : Array d.D)
      → ((k : ℕ) → k < 4 * n → Carries (modulate d mem n samps) k)
        × ((x : ℕ) → 8 * n ≤ x → modulate d mem n samps x ≡ samps x)
  unfolding modulate
  modulate_lem n samps = (
    λ k inside.
        let split : k / 4 * 4 + k % 4 ≡ k = omega arith in
        rw split at (
          modulate_loop_inside n 0 (k / 4) (k % 4) samps (omega arith) (omega arith) (omega arith)),
    λ x beyond. modulate_loop_outside n 0 x samps (inr (omega arith)),
  )

module _ (d : Double) (input : Array d.D) (n_in n_fft num : ℕ) (pilots : Array (PilotTone d)) where
  add_loop-size :
      (left k : ℕ) (s : Adding d) → (add_loop d input n_in n_fft num pilots left k s).0 ≡ k + left
  unfolding add_loop
  add_loop-size zero k s = omega arith
  add_loop-size (suc left) k s =
      omega (arith, add_loop-size left (k + 1) (add_step d input n_in n_fft num pilots k s))

  -- `add_pilots` gives back the number of subcarriers that it was asked for.
  pub add_pilots-size :
      (n_out : ℕ) (out : Array d.D) → (add_pilots d input n_in n_fft num pilots n_out out).0 ≡ n_out
  unfolding add_pilots
  add_pilots-size n_out out =
      add_loop-size n_out 0 (record { out = out; in_idx = 0; pilots_idx = 0 }) ∙ omega arith
