-- ===== src/User/Laws.antt =====
-- What the calls of sw/baseband.c report.
use adi_bbp.Common.{
  ℕ, zero, suc, ◌+◌, ◌%◌, ◌^◌, ◌≡◌, ◌<◌, ◌≤◌, refl, [], ◌∷◌, ltb, Bool-cases, inl, inr, ltb→lt,
  ltb→le, ==_refl, ==_ne, if◌then◌else◌, arith,
}
use adi_bbp.Common.Run.{done}
use adi_bbp.Driver.Regs.{ioctl_tx_enable, ioctl_test_plus_one}
use adi_bbp.User.{System, tx_enable_error, report, tx_enable, test_loop, test_bb}

module _ (sys : System) (fd : ℕ) where
  -- When the device replies with the two low bits of the mask, `tx_enable` is silent for a mask
  -- below 4, and writes its error message for every other.
  pub tx_enable-report :
      (mask : ℕ) (s s' : sys.State)
      → sys.ioctl fd ioctl_tx_enable mask s ≡ done (mask % 4) s'
      → tx_enable sys fd mask s ≡ done (if ltb mask 4 then [] else tx_enable_error ∷ []) s'
  unfolding tx_enable report
  tx_enable-report mask s s' reply = elim (Bool-cases (ltb mask 4)) [
    | inl small ↦
        let low : mask % 4 ≡ mask = omega (arith, ltb→lt mask 4 small) in
        rw (reply, small, low, ==_refl mask) refl
    | inr large ↦ rw (reply, large, ==_ne (mask % 4) mask (omega (arith, ltb→le mask 4 large))) refl
  ]

  -- The device replies to each number below 30 with the next one and keeps `P`.
  abbrev pub PlusOne : (sys.State → Type 0) → Type 0
  PlusOne P =
      (i : ℕ) (s : sys.State)
      → i < 30
      → P s
      → (s' : sys.State) × (sys.ioctl fd ioctl_test_plus_one i s ≡ done (i + 1) s') × P s'

  module _ (P : sys.State → Type 0) (next : PlusOne P) where
    test_loop_silent :
        (left i : ℕ) (s : sys.State)
        → i + left ≤ 30
        → P s
        → (s' : sys.State) × (test_loop sys left i fd s ≡ done [] s') × P s'
    unfolding test_loop report
    test_loop_silent zero i s inside p = (s, refl, p)
    test_loop_silent (suc left) i s inside p =
        let (s', reply, p') = next i s (omega arith) p in
        let (s'', later, p'') = test_loop_silent left (i + 1) s' (omega arith) p' in
        let low : (i + 1) % 2 ^ 32 ≡ i + 1 = omega arith in
        (s'', rw (reply, later, low, ==_refl (i + 1)) refl, p'')

    -- On a device that replies to each number below 30 with the next one, `test_bb` returns and is
    -- silent.
    pub test_bb_silent :
        (s : sys.State) → P s → (s' : sys.State) × (test_bb sys fd s ≡ done [] s') × P s'
    unfolding test_bb
    test_bb_silent s p = test_loop_silent 30 0 s (omega arith) p
