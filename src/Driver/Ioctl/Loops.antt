-- ===== src/Driver/Ioctl/Loops.antt =====
-- The word loops and the branching of `baseband_ioctl` (boot/baseband/baseband.c).
use adi_bbp.Common.{ℕ, zero, suc, ◌+◌, ◌≡◌, refl, Bool, true, false, List, ◌∷◌, if◌then◌else◌}
use adi_bbp.Driver.Regs.{word}
use adi_bbp.Driver.World.{Env, World, Access, Cmd}
use adi_bbp.Driver.Ends.{Returns}
use adi_bbp.Driver.Ioctl.{read_words, write_words}

-- The log after the words `f i`, `f (i + 1)`, … have been written to the registers from `base`.
unfoldable pub logged : (f : ℕ → ℕ) (base i left : ℕ) → List Access → List Access
logged f base i zero log = log
logged f base i (suc left) log = logged f base (i + 1) left ((base + word i, f i) ∷ log)

module _ {e : Env} where
  -- The driver's own state is that of `w`; registers may have been written.
  abbrev pub Holds : (w w' : World e) → Type 0
  Holds w w' = (w'.locked ≡ w.locked) × (w'.rx_enabled ≡ w.rx_enabled) × (w'.live ≡ w.live)

  pub branch :
      {A : Type 0} (P : A → World e → Type 0) (b : Bool) (m n : Cmd e A) (w : World e)
      → Returns P (m w)
      → Returns P (n w)
      → Returns P ((if b then m else n) w)
  branch P true m n w p q = p
  branch P false m n w p q = q

  pub read_words-Holds :
      (left kbuf i : ℕ) (w : World e) → Returns (λ _. Holds w) (read_words kbuf i left w)
  unfolding read_words
  read_words-Holds zero kbuf i w = (refl, refl, refl)
  read_words-Holds (suc left) kbuf i w = read_words-Holds left kbuf (i + 1) _

  pub write_words-Holds :
      (left base kbuf i : ℕ) (w : World e) → Returns (λ _. Holds w) (write_words base kbuf i left w)
  unfolding write_words
  write_words-Holds zero base kbuf i w = (refl, refl, refl)
  write_words-Holds (suc left) base kbuf i w = write_words-Holds left base kbuf (i + 1) _
