-- ===== src/Tx/Mapping/Pilots.antt =====
-- Where `add_pilots` of sw/tx.c puts the pilots and the data: an independent description.
pub mod Place
pub mod Rounds
use native.Mathlib.Nat.{mod_self, mod-eq_of_lt, mod-lt, mod-add-mod}
use adi_bbp.Common.{
  leb→le, leb→gt, ℕ, zero, suc, ◌+◌, ◌*◌, ◌%◌, ◌≤◌, ◌<◌, ◌≡◌, ◌≢◌, ◌⊎◌, refl, ◌∙◌, Bool, true,
  false, Option, none, some, ltb, leb, ◌==◌, ==→eq, ==→ne, ==_refl, ==_ne, Bool-cases, inl, inr,
  if◌then◌else◌, arith, lt→ltb, ge→ltb, ltb→lt, ltb→le,
}
use adi_bbp.Common.Double.{Double}
use adi_bbp.Tx.Memory.{Array, update, update_self, update_other}
use adi_bbp.Tx.Samples.{pp}
use adi_bbp.Tx.Mapping.{PilotTone, Adding, put, add_step, add_loop, add_pilots}

module _ (d : Double) (pilots : Array (PilotTone d)) where
  -- The pilot at a position, among the first `n`.
  unfoldable pub find : (n r : ℕ) → Option ℕ
  find zero r = none
  find (suc n) r = if (pilots n).pos == r then some n else find n r

  module _ (num n_fft : ℕ) where
    -- The number of subcarriers below `k` that have no pilot.
    unfoldable pub data_before : ℕ → ℕ
    data_before zero = 0
    data_before (suc k) = elim (find num (k % n_fft)) [
      | some q ↦ data_before k
      | none ↦ data_before k + 1
    ]

    -- What subcarrier `k` of the output carries.
    unfoldable pub real_at : (input : Array d.D) (n_in : ℕ) → ℕ → d.D
    real_at input n_in k = elim (find num (k % n_fft)) [
      | some q ↦ d.mul (pilots q).real (pp d)
      | none ↦ if ltb (data_before k) n_in then input (data_before k * 2) else d.of_ℕ 0
    ]

    unfoldable pub imag_at : (input : Array d.D) (n_in : ℕ) → ℕ → d.D
    imag_at input n_in k = elim (find num (k % n_fft)) [
      | some q ↦ d.mul (pilots q).imag (pp d)
      | none ↦ if ltb (data_before k) n_in then input (data_before k * 2 + 1) else d.of_ℕ 0
    ]
