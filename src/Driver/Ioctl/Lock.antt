-- ===== src/Driver/Ioctl/Lock.antt =====
-- The lock and the buffers under `baseband_ioctl` (boot/baseband/baseband.c), for every command.
use adi_bbp.Common.{
  ℕ, ◌*◌, ◌≡◌, refl, ap, ◌∙◌, inl, inr, ◌⊎◌, ◌<◌, arith, true, false, some, List, ◌∷◌, ◌==◌,
}
use adi_bbp.Driver.Regs.{
  ioctl_stream_out_sel, ioctl_rx_conf, ioctl_rx_use_baseband, time_rx_base, ram_base,
}
use adi_bbp.Driver.World.{Env, World, Run, blocked, done, forget, Ret, error, enotty}
use adi_bbp.Driver.Ends.{Returns, bind, mono, forget_head}
use adi_bbp.Driver.Ioctl.{
  set_checked, set_register, get_register, read_words, write_words, scratch_read, scratch_write,
  dma_scratch_tx, tx_enable, rx_conf, test_plus_one, rx_use_baseband, baseband_ioctl,
}
use adi_bbp.Driver.Ioctl.Loops.{Holds, branch, read_words-Holds, write_words-Holds}

free_live : (p : ℕ) (live now : List ℕ) → now ≡ p ∷ live → forget p now ≡ live
free_live p live now held = ap (forget p) held ∙ forget_head p live

module _ {e : Env} where
  -- The lock is free and no buffer has been lost or freed.
  abbrev pub Clean : World e → Ret → World e → Type 0
  Clean w r v = (v.locked ≡ false) × (v.live ≡ w.live)

  pub set_checked-Holds :
      (arg reg : ℕ) (w : World e) → Returns (λ _. Holds w) (set_checked arg reg w)
  unfolding set_checked
  set_checked-Holds arg reg w = (refl, refl, refl)

  pub set_register-Holds :
      (arg reg : ℕ) (w : World e) → Returns (λ _. Holds w) (set_register arg reg w)
  unfolding set_register
  set_register-Holds arg reg w = (refl, refl, refl)

  pub get_register-Holds : (reg : ℕ) (w : World e) → Returns (λ _. Holds w) (get_register reg w)
  unfolding get_register
  get_register-Holds reg w = (refl, refl, refl)

  pub dma_scratch_tx-Holds : (arg : ℕ) (w : World e) → Returns (λ _. Holds w) (dma_scratch_tx arg w)
  unfolding dma_scratch_tx
  dma_scratch_tx-Holds arg w = (refl, refl, refl)

  pub tx_enable-Holds : (arg : ℕ) (w : World e) → Returns (λ _. Holds w) (tx_enable arg w)
  unfolding tx_enable
  tx_enable-Holds arg w = (refl, refl, refl)

  pub test_plus_one-Holds : (arg : ℕ) (w : World e) → Returns (λ _. Holds w) (test_plus_one arg w)
  unfolding test_plus_one
  test_plus_one-Holds arg w = (refl, refl, refl)

  rx_use_baseband-Clean :
      (arg : ℕ) (w : World e) → w.locked ≡ false → Returns (Clean w) (rx_use_baseband arg w)
  unfolding rx_use_baseband
  rx_use_baseband-Clean arg w unlocked =
      rw unlocked (branch (Clean w) (arg == 0) _ _ _ (refl, refl) (refl, refl))

  module _ (p : ℕ) where
    pub scratch_read-Holds :
        (arg : ℕ) (w : World e)
        → (e.kmalloc (4096 * 4) w.outside).0 ≡ some p
        → Returns (λ _. Holds w) (scratch_read arg w)
    unfolding scratch_read
    scratch_read-Holds arg w got = rw got (
        bind _ (λ _. Holds w) (λ _. ⊥) (read_words p 0 4096 _) _ (read_words-Holds 4096 p 0 _)
          λ _ v k. (k.0, k.1, free_live p w.live v.live k.2))

    pub scratch_write-Holds :
        (arg : ℕ) (w : World e)
        → (e.kmalloc (4096 * 4) w.outside).0 ≡ some p
        → Returns (λ _. Holds w) (scratch_write arg w)
    unfolding scratch_write
    scratch_write-Holds arg w got = rw got (
        bind _ (λ _. Holds w) (λ _. ⊥) (write_words ram_base p 0 4096 _) _
          (write_words-Holds 4096 ram_base p 0 _)
          λ _ v k. (k.0, k.1, free_live p w.live v.live k.2))

    rx_conf-Clean :
        (arg : ℕ) (w : World e)
        → (e.kmalloc (4 * 11) w.outside).0 ≡ some p
        → w.locked ≡ false
        → Returns (Clean w) (rx_conf arg w)
    unfolding rx_conf
    rx_conf-Clean arg w got unlocked =
        rw (unlocked, got)
          (bind _ (Clean w) (λ _. ⊥) (write_words time_rx_base p 0 11 _) _
            (write_words-Holds 11 time_rx_base p 0 _)
            λ _ v k. (refl, free_live p w.live v.live k.2))

  Holds-Clean :
      (w : World e) (r : Run (World e) Ret)
      → w.locked ≡ false
      → Returns (λ _. Holds w) r
      → Returns (Clean w) r
  Holds-Clean w r unlocked h =
      mono (λ _. Holds w) (Clean w) (λ _. ⊥) r h λ _ v k. (k.0 ∙ unlocked, k.2)

  -- Every command, with any argument and any command number, returns from an unlocked driver
  -- with the lock free again and exactly the buffers that were live before, if `kmalloc` finds
  -- memory for the two sizes that the commands ask for.
  pub baseband_ioctl-Clean :
      (cmd arg p q : ℕ) (w : World e)
      → w.locked ≡ false
      → (e.kmalloc (4096 * 4) w.outside).0 ≡ some p
      → (e.kmalloc (4 * 11) w.outside).0 ≡ some q
      → Returns (Clean w) (baseband_ioctl cmd arg w)
  unfolding baseband_ioctl
  baseband_ioctl-Clean cmd arg p q w unlocked big small =
      let keep = Holds-Clean w in
      let P = Clean w in
      branch P (cmd == 0) _ _ w (keep _ unlocked (set_checked-Holds arg _ w)) (
        branch P (cmd == 1) _ _ w (keep _ unlocked (get_register-Holds _ w)) (
          branch P (cmd == 2) _ _ w (keep _ unlocked (get_register-Holds _ w)) (
            branch P (cmd == 3) _ _ w (keep _ unlocked (set_checked-Holds arg _ w)) (
              branch P (cmd == 4) _ _ w (keep _ unlocked (set_register-Holds arg _ w)) (
                branch P (cmd == 5) _ _ w (keep _ unlocked (get_register-Holds _ w)) (
                  branch P (cmd == 6) _ _ w (keep _ unlocked (set_register-Holds arg _ w)) (
                    branch P (cmd == 7) _ _ w (keep _ unlocked (set_register-Holds arg _ w)) (
                      branch P (cmd == 8) _ _ w (keep _ unlocked (scratch_read-Holds p arg w big)) (
                        branch P (cmd == 9) _ _ w
                          (keep _ unlocked (scratch_write-Holds p arg w big))
                          (branch P (cmd == 10) _ _ w (keep _ unlocked (dma_scratch_tx-Holds arg w))
                            (branch P (cmd == 11) _ _ w (unlocked, refl)
                              (branch P (cmd == 12) _ _ w (keep _ unlocked (tx_enable-Holds arg w))
                                (branch P (cmd == 13) _ _ w (rx_conf-Clean q arg w small unlocked) (
                                  branch P (cmd == 14) _ _ w
                                    (keep _ unlocked (test_plus_one-Holds arg w))
                                    (branch P (cmd == 15) _ _ w
                                      (rx_use_baseband-Clean arg w unlocked)
                                      (unlocked, refl))))))))))))))))

  -- Where the lock is held, the two commands that configure the receiver never return.
  pub baseband_ioctl-blocked :
      (cmd arg : ℕ) (w : World e)
      → w.locked ≡ true
      → (cmd ≡ ioctl_rx_conf) ⊎ (cmd ≡ ioctl_rx_use_baseband)
      → (v : World e) × (baseband_ioctl cmd arg w ≡ blocked v)
  unfolding baseband_ioctl rx_conf rx_use_baseband
  baseband_ioctl-blocked cmd arg w locked (inl c) = (w, rw (c, locked))
  baseband_ioctl-blocked cmd arg w locked (inr c) = (w, rw (c, locked))

  -- `IOCTL_STREAM_OUT_SEL` and every number past the last command are refused with `-ENOTTY`,
  -- and nothing is changed.
  pub baseband_ioctl-enotty :
      (cmd arg : ℕ) (w : World e)
      → (cmd ≡ ioctl_stream_out_sel) ⊎ (ioctl_rx_use_baseband < cmd)
      → baseband_ioctl cmd arg w ≡ done (error enotty) w
  unfolding baseband_ioctl
  baseband_ioctl-enotty cmd arg w (inl c) = rw c
  baseband_ioctl-enotty cmd arg w (inr c) = ground arith
