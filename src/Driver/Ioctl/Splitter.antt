-- ===== src/Driver/Ioctl/Splitter.antt =====
-- No command of `baseband_ioctl` (boot/baseband/baseband.c) makes the splitter feed both paths.
use adi_bbp.Common.{
  ℕ, zero, suc, ◌+◌, ◌*◌, ◌<◌, ◌≡◌, refl, sym, ◌∙◌, false, some, List, ◌==◌, ==_ne, arith,
}
use adi_bbp.Driver.Regs.{word, ram_base, time_rx_base, splitter_bb_sel, splitter_bypass_sel}
use adi_bbp.Common.Run.{Run}
use adi_bbp.Driver.World.{Env, World, Access, Ret}
use adi_bbp.Driver.Ends.{Returns, bind, mono}
use adi_bbp.Driver.Ioctl.{
  baseband_ioctl, set_checked, set_register, get_register, read_words, write_words, scratch_read,
  scratch_write, dma_scratch_tx, tx_enable, rx_conf, test_plus_one,
}
use adi_bbp.Driver.Ioctl.Loops.{branch}
use adi_bbp.Driver.Ioctl.Route.{
  latest, AtMostOne, Since, here, next, Switched, rx_use_baseband-Switched,
}

Since-now : (P : List Access → Type 0) (old log : List Access) → Since P old log → P log
Since-now P old log (here p) = p
Since-now P old log (next a p s) = p

-- No register of the splitter.
abbrev Other : ℕ → Type 0
Other reg = ((reg == splitter_bb_sel) ≡ false) × ((reg == splitter_bypass_sel) ≡ false)

module _ {e : Env} where
  -- The splitter is as it was.
  abbrev Paths : World e → World e → Type 0
  Paths w v =
      (latest splitter_bb_sel v.writes ≡ latest splitter_bb_sel w.writes)
      × (latest splitter_bypass_sel v.writes ≡ latest splitter_bypass_sel w.writes)

  set_checked-Paths :
      (arg reg : ℕ) (w : World e) → Other reg → Returns (λ _. Paths w) (set_checked arg reg w)
  unfolding set_checked latest
  set_checked-Paths arg reg w (a, b) = (rw a refl, rw b refl)

  set_register-Paths :
      (arg reg : ℕ) (w : World e) → Other reg → Returns (λ _. Paths w) (set_register arg reg w)
  unfolding set_register latest
  set_register-Paths arg reg w (a, b) = (rw a refl, rw b refl)

  get_register-Paths : (reg : ℕ) (w : World e) → Returns (λ _. Paths w) (get_register reg w)
  unfolding get_register
  get_register-Paths reg w = (refl, refl)

  dma_scratch_tx-Paths : (arg : ℕ) (w : World e) → Returns (λ _. Paths w) (dma_scratch_tx arg w)
  unfolding dma_scratch_tx latest
  dma_scratch_tx-Paths arg w = (refl, refl)

  tx_enable-Paths : (arg : ℕ) (w : World e) → Returns (λ _. Paths w) (tx_enable arg w)
  unfolding tx_enable latest
  tx_enable-Paths arg w = (refl, refl)

  test_plus_one-Paths : (arg : ℕ) (w : World e) → Returns (λ _. Paths w) (test_plus_one arg w)
  unfolding test_plus_one latest
  test_plus_one-Paths arg w = (refl, refl)

  read_words-Paths :
      (left kbuf i : ℕ) (w : World e) → Returns (λ _. Paths w) (read_words kbuf i left w)
  unfolding read_words
  read_words-Paths zero kbuf i w = (refl, refl)
  read_words-Paths (suc left) kbuf i w = read_words-Paths left kbuf (i + 1) _

  write_words-Paths :
      (left base kbuf i : ℕ) (w : World e)
      → ((j : ℕ) → j < i + left → Other (base + word j))
      → Returns (λ _. Paths w) (write_words base kbuf i left w)
  unfolding write_words latest
  write_words-Paths zero base kbuf i w others = (refl, refl)
  write_words-Paths (suc left) base kbuf i w others =
      let (a, b) = others i (omega arith) in
      mono _ (λ _. Paths w) (λ _. ⊥) _
        (write_words-Paths left base kbuf (i + 1) _ (λ j below. others j (omega arith)))
        λ _ v k. (k.0 ∙ rw a refl, k.1 ∙ rw b refl)

  module _ (p : ℕ) where
    scratch_read-Paths :
        (arg : ℕ) (w : World e)
        → (e.kmalloc (4096 * 4) w.outside).0 ≡ some p
        → Returns (λ _. Paths w) (scratch_read arg w)
    unfolding scratch_read
    scratch_read-Paths arg w got = rw got (
        bind _ (λ _. Paths w) (λ _. ⊥) (read_words p 0 4096 _) _ (read_words-Paths 4096 p 0 _)
          λ _ v k. k)

    scratch_write-Paths :
        (arg : ℕ) (w : World e)
        → (e.kmalloc (4096 * 4) w.outside).0 ≡ some p
        → Returns (λ _. Paths w) (scratch_write arg w)
    unfolding scratch_write
    scratch_write-Paths arg w got = rw got (
        bind _ (λ _. Paths w) (λ _. ⊥) (write_words ram_base p 0 4096 _) _
          (write_words-Paths 4096 ram_base p 0 _ (λ j below. (
            ==_ne (ram_base + word j) splitter_bb_sel (omega arith),
            ==_ne (ram_base + word j) splitter_bypass_sel (omega arith),
          )))
          λ _ v k. k)

    rx_conf-Paths :
        (arg : ℕ) (w : World e)
        → (e.kmalloc (4 * 11) w.outside).0 ≡ some p
        → w.locked ≡ false
        → Returns (λ _. Paths w) (rx_conf arg w)
    unfolding rx_conf
    rx_conf-Paths arg w got unlocked =
        simp (unlocked, got)
          (bind _ (λ _. Paths w) (λ _. ⊥) (write_words time_rx_base p 0 11 _) _
            (write_words-Paths 11 time_rx_base p 0 _ (λ j below. (
              ==_ne (time_rx_base + word j) splitter_bb_sel (omega arith),
              ==_ne (time_rx_base + word j) splitter_bypass_sel (omega arith),
            )))
            λ _ v k. k)

  Paths-One :
      (w : World e) (r : Run (World e) Ret)
      → AtMostOne w.writes
      → Returns (λ _. Paths w) r
      → Returns (λ _ v. AtMostOne v.writes) r
  Paths-One w r one h =
      mono (λ _. Paths w) _ (λ _. ⊥) r h λ _ v (bb, bypass) a b. one (sym bb ∙ a) (sym bypass ∙ b)

  -- Every command, with any argument and any command number, leaves a splitter that feeds at most
  -- one of the baseband and the bypass such, from an unlocked driver and if `kmalloc` finds memory.
  pub baseband_ioctl-AtMostOne :
      (cmd arg p q : ℕ) (w : World e)
      → w.locked ≡ false
      → AtMostOne w.writes
      → (e.kmalloc (4096 * 4) w.outside).0 ≡ some p
      → (e.kmalloc (4 * 11) w.outside).0 ≡ some q
      → Returns (λ _ v. AtMostOne v.writes) (baseband_ioctl cmd arg w)
  unfolding baseband_ioctl
  baseband_ioctl-AtMostOne cmd arg p q w unlocked one big small =
      let P : Ret → World e → Type 0 = λ _ v. AtMostOne v.writes in
      let keep = λ (r : Run (World e) Ret) (h : Returns (λ _. Paths w) r). Paths-One w r one h in
      branch P (cmd == 0) _ _ w (keep _ (set_checked-Paths arg _ w (refl, refl))) (
        branch P (cmd == 1) _ _ w (keep _ (get_register-Paths _ w)) (
          branch P (cmd == 2) _ _ w (keep _ (get_register-Paths _ w)) (
            branch P (cmd == 3) _ _ w (keep _ (set_checked-Paths arg _ w (refl, refl))) (
              branch P (cmd == 4) _ _ w (keep _ (set_register-Paths arg _ w (refl, refl))) (
                branch P (cmd == 5) _ _ w (keep _ (get_register-Paths _ w)) (
                  branch P (cmd == 6) _ _ w (keep _ (set_register-Paths arg _ w (refl, refl))) (
                    branch P (cmd == 7) _ _ w (keep _ (set_register-Paths arg _ w (refl, refl))) (
                      branch P (cmd == 8) _ _ w (keep _ (scratch_read-Paths p arg w big)) (
                        branch P (cmd == 9) _ _ w (keep _ (scratch_write-Paths p arg w big)) (
                          branch P (cmd == 10) _ _ w (keep _ (dma_scratch_tx-Paths arg w)) (
                            branch P (cmd == 11) _ _ w one (
                              branch P (cmd == 12) _ _ w (keep _ (tx_enable-Paths arg w)) (
                                branch P (cmd == 13) _ _ w
                                  (keep _ (rx_conf-Paths q arg w small unlocked))
                                  (branch P (cmd == 14) _ _ w (keep _ (test_plus_one-Paths arg w)) (
                                    branch P (cmd == 15) _ _ w
                                      (mono (Switched arg w) P (λ _. ⊥) _
                                        (rx_use_baseband-Switched arg w unlocked one)
                                        λ r v k. Since-now AtMostOne w.writes v.writes k.4)
                                      one)))))))))))))))
