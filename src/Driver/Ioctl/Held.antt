-- ===== src/Driver/Ioctl/Held.antt =====
-- No command of `baseband_ioctl` (boot/baseband/baseband.c) gives back a mutex that it finds held.
use adi_bbp.Common.{
  ℕ, ◌*◌, ◌≡◌, ◌∙◌, inl, inr, Bool, true, false, Option-cases, ◌==◌, if◌then◌else◌,
}
use adi_bbp.Driver.World.{Env, World, Cmd, Run, Ret}
use adi_bbp.Driver.Ends.{Returns, IfDone, if_done}
use adi_bbp.Driver.Ioctl.{scratch_read, scratch_write, rx_conf, rx_use_baseband, baseband_ioctl}
use adi_bbp.Driver.Ioctl.Loops.{Holds}
use adi_bbp.Driver.Ioctl.Lock.{
  set_checked-Holds, set_register-Holds, get_register-Holds, dma_scratch_tx-Holds, tx_enable-Holds,
  test_plus_one-Holds, scratch_read-Holds, scratch_write-Holds,
}

module _ {e : Env} where
  abbrev pub Locked : Ret → World e → Type 0
  Locked r v = v.locked ≡ true

  branch :
      (b : Bool) (m n : Cmd e Ret) (w : World e)
      → IfDone Locked (m w)
      → IfDone Locked (n w)
      → IfDone Locked ((if b then m else n) w)
  branch true m n w p q = p
  branch false m n w p q = q

  Holds-Locked :
      (w : World e) (r : Run (World e) Ret)
      → w.locked ≡ true
      → Returns (λ _. Holds w) r
      → IfDone Locked r
  Holds-Locked w r locked h = if_done (λ _. Holds w) Locked (λ _. ⊥) r h λ _ v k. k.0 ∙ locked

  scratch_read-Locked :
      (arg : ℕ) (w : World e) → w.locked ≡ true → IfDone Locked (scratch_read arg w)
  unfolding scratch_read
  scratch_read-Locked arg w locked = elim (Option-cases (e.kmalloc (4096 * 4) w.outside).0) [
    | inl null ↦ rw null tt
    | inr (p, got) ↦ Holds-Locked w _ locked (scratch_read-Holds p arg w got)
  ]

  scratch_write-Locked :
      (arg : ℕ) (w : World e) → w.locked ≡ true → IfDone Locked (scratch_write arg w)
  unfolding scratch_write
  scratch_write-Locked arg w locked = elim (Option-cases (e.kmalloc (4096 * 4) w.outside).0) [
    | inl null ↦ rw null tt
    | inr (p, got) ↦ Holds-Locked w _ locked (scratch_write-Holds p arg w got)
  ]

  rx_conf-Locked : (arg : ℕ) (w : World e) → w.locked ≡ true → IfDone Locked (rx_conf arg w)
  unfolding rx_conf
  rx_conf-Locked arg w locked = rw locked tt

  rx_use_baseband-Locked :
      (arg : ℕ) (w : World e) → w.locked ≡ true → IfDone Locked (rx_use_baseband arg w)
  unfolding rx_use_baseband
  rx_use_baseband-Locked arg w locked = rw locked tt

  -- Every command that returns from a driver with the lock held leaves it held.
  pub baseband_ioctl-Locked :
      (cmd arg : ℕ) (w : World e) → w.locked ≡ true → IfDone Locked (baseband_ioctl cmd arg w)
  unfolding baseband_ioctl
  baseband_ioctl-Locked cmd arg w h =
      let keep = Holds-Locked w in
      branch (cmd == 0) _ _ w (keep _ h (set_checked-Holds arg _ w)) (
        branch (cmd == 1) _ _ w (keep _ h (get_register-Holds _ w)) (
          branch (cmd == 2) _ _ w (keep _ h (get_register-Holds _ w)) (
            branch (cmd == 3) _ _ w (keep _ h (set_checked-Holds arg _ w)) (
              branch (cmd == 4) _ _ w (keep _ h (set_register-Holds arg _ w)) (
                branch (cmd == 5) _ _ w (keep _ h (get_register-Holds _ w)) (
                  branch (cmd == 6) _ _ w (keep _ h (set_register-Holds arg _ w)) (
                    branch (cmd == 7) _ _ w (keep _ h (set_register-Holds arg _ w)) (
                      branch (cmd == 8) _ _ w (scratch_read-Locked arg w h) (
                        branch (cmd == 9) _ _ w (scratch_write-Locked arg w h) (
                          branch (cmd == 10) _ _ w (keep _ h (dma_scratch_tx-Holds arg w)) (
                            branch (cmd == 11) _ _ w h (
                              branch (cmd == 12) _ _ w (keep _ h (tx_enable-Holds arg w)) (
                                branch (cmd == 13) _ _ w (rx_conf-Locked arg w h) (
                                  branch (cmd == 14) _ _ w (keep _ h (test_plus_one-Holds arg w)) (
                                    branch (cmd == 15) _ _ w (rx_use_baseband-Locked arg w h)
                                      h)))))))))))))))
