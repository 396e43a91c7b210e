-- ===== src/Programs/Device.antt =====
-- sw/tx_test.c over the library of sw/baseband.c and the driver of boot/baseband/baseband.c.
use adi_bbp.Common.{ℕ, zero, suc, ◌+◌, ◌*◌, ◌/◌, ◌≡◌, ◌⊎◌, Option, some, List, [], ◌∷◌}
use adi_bbp.Common.Double.{Double}
use adi_bbp.Common.Run.{pure, ◌>>=◌}
use adi_bbp.Driver.Regs.{enable_tx}
use adi_bbp.Driver.World.{Env, World, Access, Buffer}
use adi_bbp.Driver.Transfer.{baseband_write}
use adi_bbp.Driver.Transfer.Write.{transfer}
use adi_bbp.Driver.Ioctl.Config.{Memory}
use adi_bbp.Tx.Memory.{Array}
use adi_bbp.User.{Call}
use adi_bbp.User.Device.{reply, Placing, system}
use adi_bbp.Programs.{Files, Line, bad_write, minus_one}

-- The words of a buffer, `left` of them from `i`.
pub words_from : (left i : ℕ) → Array ℕ → List ℕ
words_from zero i ws = []
words_from (suc left) i ws = ws i ∷ words_from left (i + 1) ws

module _ {e : Env} {m : Memory e} (p : Placing e m) where
  -- The files of a program whose device is the driver: `write` polls at most `rounds` times. There
  -- is memory, and it holds `garbage`.
  abbrev pub files :
      (fd rounds : ℕ) (garbage : Array ℕ)
      (read : (fd : ℕ) (words : Option (Array ℕ)) (size : ℕ)
        → Call (system p) (ℕ × Option (Array ℕ)))
      → Files (system p)
  files fd rounds garbage read = record {
    open_device = pure fd;
    write = λ fd' ws size w.
        (baseband_write rounds (p.place (words_from (size / 4) 0 ws) w.outside).0 size >>= λ r.
        pure (reply r))
          (record w { outside = (p.place (words_from (size / 4) 0 ws) w.outside).1 });
    read = read;
    close = λ fd'. pure tt;
    malloc = λ size. pure (some garbage);
  }

  -- The writes that enable both transmitters, latest first.
  abbrev pub enabling : List Access → List Access
  enabling log = (enable_tx + 4, 1) ∷ (enable_tx, 1) ∷ log

  -- The log from `w` on when the transfer of the frame was started in a buffer of the kernel.
  abbrev pub Transferred : (w v : World e) → Type 0
  Transferred w v =
      (b : Buffer) × (o : e.Outside) × ((e.dma_alloc (382 * 4) o).0 ≡ some b)
      × (v.writes ≡ transfer (382 * 4) b (enabling w.writes))

  -- From the world `w` on, the program has enabled both transmitters and then written its frame to
  -- the device, or says that it could not. No buffer is left over, and the lock is as it was.
  pub data Outcome (w : World e) : List Line × ℕ → World e → Type 0 where
    transferred :
        {v : World e}
        → Transferred w v
        → v.live ≡ w.live
        → v.locked ≡ w.locked
        → Outcome w ([], 0) v
    refused :
        {v : World e}
        → (v.writes ≡ enabling w.writes) ⊎ Transferred w v
        → v.live ≡ w.live
        → v.locked ≡ w.locked
        → Outcome w (bad_write minus_one ∷ [], 0) v
