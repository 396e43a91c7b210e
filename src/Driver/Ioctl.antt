-- ===== src/Driver/Ioctl.antt =====
-- `baseband_ioctl` of boot/baseband/baseband.c: one command for each case of its switch, with the
-- debug reads of BASEBAND_DEBUG. `unsigned long` has 32 bits, so `arg` is a word.
pub mod Loops
pub mod Lock
pub mod Held
pub mod Route
pub mod Splitter
pub mod Config
use Prim.Native.Nat.{bit_or}
use adi_bbp.Common.{
  ℕ, zero, suc, ◌+◌, ◌*◌, ◌/◌, ◌%◌, ◌^◌, true, false, none, some, ◌==◌, if◌then◌else◌,
}
use adi_bbp.Driver.Regs.{
  word, dma_en, dma_m2s_base, dma_m2s_length, dma_m2s_cycles, dma_m2s_wgo_rremaining,
  stream_aligner_en, stream_aligner_aligned, stream_aligner_cnt, stream_aligner_maxcnt,
  stream_aligner_cntpassthrough, skid_overflowed, stream_out_sel, time_rx_base, splitter_bb_sel,
  splitter_bypass_sel, enable_tx, ram_base,
}
use adi_bbp.Driver.Regs.{
  ioctl_stream_aligner_maxcnt, ioctl_stream_aligner_aligned, ioctl_stream_aligner_cnt,
  ioctl_stream_aligner_cntpassthrough, ioctl_stream_aligner_en, ioctl_skid_overflowed,
  ioctl_skid_set_overflow, ioctl_dma_set_cycle, ioctl_scratch_read, ioctl_scratch_write,
  ioctl_dma_scratch_tx, ioctl_stream_out_sel, ioctl_tx_enable, ioctl_rx_conf, ioctl_test_plus_one,
  ioctl_rx_use_baseband,
}
use adi_bbp.Driver.World.{
  Env, Cmd, pure, ◌>>=◌, ◌>>◌, oops, iowrite32, ioread32, mutex_lock, mutex_unlock, set_rx_enabled,
  kmalloc, free, copy_to_user, copy_from_user, load, store, Ret, value, error, enotty,
}

module _ {e : Env} where
  -- A write, the debug read that checks it, and `break`.
  pub set_checked : (arg reg : ℕ) → Cmd e Ret
  set_checked arg reg = do iowrite32 arg reg; _ ← ioread32 reg; pure (value 0)

  pub set_register : (arg reg : ℕ) → Cmd e Ret
  set_register arg reg = do iowrite32 arg reg; pure (value 0)

  pub get_register : (reg : ℕ) → Cmd e Ret
  get_register reg = do v ← ioread32 reg; pure (value v)

  -- The loops of the scratch commands, with `left` words to go from word `i`. The read adds `i`
  -- to the base where the write adds `i << ADDRESS_SHIFT`.
  pub read_words : (kbuf i left : ℕ) → Cmd e (Unit {0})
  read_words kbuf i zero = pure tt
  read_words kbuf i (suc left) = do
    v ← ioread32 (ram_base + i)
    store kbuf i v
    read_words kbuf (i + 1) left

  -- `for (i...) iowrite32(kbuf[i], base + (i << ADDRESS_SHIFT))`, of the scratch write and of
  -- the receiver's configuration.
  pub write_words : (base kbuf i left : ℕ) → Cmd e (Unit {0})
  write_words base kbuf i zero = pure tt
  write_words base kbuf i (suc left) = do
    v ← load kbuf i
    iowrite32 v (base + word i)
    write_words base kbuf (i + 1) left

  pub scratch_read : (arg : ℕ) → Cmd e Ret
  scratch_read arg = do
    pointer ← kmalloc (4096 * 4)
    elim pointer [
      | none ↦ do _ ← ioread32 ram_base; oops
      | some kbuf ↦ do
        read_words kbuf 0 4096
        _ ← copy_to_user arg kbuf (4096 * 4)
        free kbuf
        pure (value 0)
    ]

  pub scratch_write : (arg : ℕ) → Cmd e Ret
  scratch_write arg = do
    pointer ← kmalloc (4096 * 4)
    elim pointer [
      | none ↦ oops
      | some kbuf ↦ do
        _ ← copy_from_user kbuf arg (4096 * 4)
        write_words ram_base kbuf 0 4096
        free kbuf
        pure (value 0)
    ]

  pub dma_scratch_tx : (arg : ℕ) → Cmd e Ret
  dma_scratch_tx arg = do
    iowrite32 1 dma_en
    iowrite32 0x79044000 dma_m2s_base
    iowrite32 (arg % 2 ^ 32) dma_m2s_length
    iowrite32 0 dma_m2s_wgo_rremaining
    pure (value 0)

  -- Both loops of `IOCTL_TX_ENABLE` have two rounds.
  pub tx_enable : (arg : ℕ) → Cmd e Ret
  tx_enable arg = do
    iowrite32 (arg % 2) (enable_tx + word 0)
    iowrite32 (arg / 2 % 2) (enable_tx + word 1)
    first ← ioread32 (enable_tx + word 0)
    second ← ioread32 (enable_tx + word 1)
    let low : ℕ = if first == 0 then 0 else 1
    pure (value (if second == 0 then low else bit_or low 2))

  pub rx_conf : (arg : ℕ) → Cmd e Ret
  rx_conf arg = do
    mutex_lock
    pointer ← kmalloc (4 * 11)
    elim pointer [
      | none ↦ oops
      | some kbuf ↦ do
        _ ← copy_from_user kbuf arg (4 * 11)
        write_words time_rx_base kbuf 0 11
        mutex_unlock
        free kbuf
        pure (value 0)
    ]

  unfoldable pub test_plus_one : (arg : ℕ) → Cmd e Ret
  test_plus_one arg = do
    iowrite32 arg (enable_tx + word 2)
    v ← ioread32 (enable_tx + word 2)
    pure (value v)

  pub rx_use_baseband : (arg : ℕ) → Cmd e Ret
  rx_use_baseband arg = do
    mutex_lock
    if arg == 0
        then (do
          set_rx_enabled false
          iowrite32 1 splitter_bb_sel
          iowrite32 1 stream_out_sel
          iowrite32 0 splitter_bypass_sel
          mutex_unlock
          pure (value 0))
        else (do
          set_rx_enabled true
          iowrite32 1 splitter_bypass_sel
          iowrite32 0 stream_out_sel
          iowrite32 0 splitter_bb_sel
          mutex_unlock
          pure (value 0))

  unfoldable pub baseband_ioctl : (cmd arg : ℕ) → Cmd e Ret
  baseband_ioctl cmd arg =
      if cmd == ioctl_stream_aligner_maxcnt
      then set_checked arg stream_aligner_maxcnt
      else if cmd == ioctl_stream_aligner_aligned
      then get_register stream_aligner_aligned
      else if cmd == ioctl_stream_aligner_cnt
      then get_register stream_aligner_cnt
      else if cmd == ioctl_stream_aligner_cntpassthrough
      then set_checked arg stream_aligner_cntpassthrough
      else if cmd == ioctl_stream_aligner_en
      then set_register arg stream_aligner_en
      else if cmd == ioctl_skid_overflowed
      then get_register skid_overflowed
      else if cmd == ioctl_skid_set_overflow
      then set_register arg skid_overflowed
      else if cmd == ioctl_dma_set_cycle
      then set_register arg dma_m2s_cycles
      else if cmd == ioctl_scratch_read
      then scratch_read arg
      else if cmd == ioctl_scratch_write
      then scratch_write arg
      else if cmd == ioctl_dma_scratch_tx
      then dma_scratch_tx arg
      else if cmd == ioctl_stream_out_sel
      then pure (error enotty)
      else if cmd == ioctl_tx_enable
      then tx_enable arg
      else if cmd == ioctl_rx_conf
      then rx_conf arg
      else if cmd == ioctl_test_plus_one
      then test_plus_one arg
      else if cmd == ioctl_rx_use_baseband
      then rx_use_baseband arg
      else pure (error enotty)
