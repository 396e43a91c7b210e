-- ===== src/Driver/Transfer.antt =====
-- The file operations that move samples: `baseband_read`, `baseband_write` and `baseband_mmap` of
-- boot/baseband/baseband.c, with the debug reads that BASEBAND_DEBUG compiles in. Each polling
-- loop takes the rounds that it may make; `printk` and the barriers change no state here.
pub mod Waits
pub mod Read
pub mod Timeout
pub mod Write
pub mod Finish
pub mod Mmap
use adi_bbp.Common.{
  ℕ, zero, suc, ◌+◌, ◌-◌, ◌/◌, ◌%◌, ◌^◌, Bool, true, false, not, none, some, ltb, leb, ◌==◌,
  if◌then◌else◌,
}
use adi_bbp.Driver.Regs.{
  dma_en, dma_idle, dma_s2m_base, dma_s2m_length, dma_s2m_wgo_rremaining, dma_m2s_base,
  dma_m2s_length, dma_m2s_wgo_rremaining, stream_aligner_en, skid_en, skid_count, skid_overflowed,
  skid_drain_when_disabled,
}
use adi_bbp.Driver.World.{
  Env, Cmd, pure, ◌>>=◌, ◌>>◌, keep_polling, iowrite32, ioread32, mutex_lock, mutex_unlock,
  dma_alloc_coherent, kmalloc, free, copy_to_user, copy_from_user, store, getnstimeofday, udelay,
  remap_pfn_range, Ret, value, error, einval, efault, eio,
}
use adi_bbp.Driver.Dma.{estimate_max_time, dma_length, elapsed}

-- `(u32) p`
abbrev pub u32 : ℕ → ℕ
u32 p = p % 2 ^ 32

module _ {e : Env} where
  -- `while (ioread32(SKID_COUNT) > 0) pr_err(..., ioread32(SKID_COUNT))`
  pub drain_skid : ℕ → Cmd e (Unit {0})
  drain_skid zero = keep_polling
  drain_skid (suc rounds) = do
    count ← ioread32 skid_count
    if ltb 0 count then (do _ ← ioread32 skid_count; drain_skid rounds) else pure tt

  -- `ioread32(reg) != 0 || ioread32(reg) != 0`: the second read is made if the first gives 0.
  pub remaining : (reg : ℕ) → Cmd e Bool
  remaining reg = do
    first ← ioread32 reg
    if first == 0 then (do second ← ioread32 reg; pure (not (second == 0))) else pure true

  -- The first part of `baseband_read`: the transfer is set up under the lock and started.
  pub start_s2m : (dbuf size rounds : ℕ) → Cmd e (Unit {0})
  start_s2m dbuf size rounds = do
    iowrite32 0 dma_en
    iowrite32 (u32 dbuf) dma_s2m_base
    iowrite32 (dma_length size) dma_s2m_length
    mutex_lock
    iowrite32 0 stream_aligner_en
    iowrite32 1 skid_drain_when_disabled
    iowrite32 0 skid_en
    iowrite32 0 skid_overflowed
    drain_skid rounds
    udelay 10
    iowrite32 1 dma_en
    iowrite32 1 dma_s2m_wgo_rremaining
    iowrite32 1 skid_en
    iowrite32 1 stream_aligner_en

  -- The polling loop of `baseband_read`: `false` is the jump to `err_dma_timeout`.
  pub wait_s2m : (init : ℕ × ℕ) (max_time rounds : ℕ) → Cmd e Bool
  wait_s2m init max_time zero = keep_polling
  wait_s2m init max_time (suc rounds) = do
    more ← remaining dma_s2m_wgo_rremaining
    if more
        then (do
          now ← getnstimeofday
          if leb max_time (elapsed init now) then pure false else wait_s2m init max_time rounds)
        else pure true

  -- What `baseband_read` does when the loop has ended by its test.
  pub finish_s2m : (user kbuf size : ℕ) → Cmd e Ret
  finish_s2m user kbuf size = do
    iowrite32 0 skid_en
    iowrite32 0 stream_aligner_en
    mutex_unlock
    _ ← ioread32 dma_s2m_wgo_rremaining
    _ ← ioread32 skid_overflowed
    left ← copy_to_user user kbuf size
    if left == 0 then (do free kbuf; pure (value size)) else (do free kbuf; pure (error efault))

  -- The labels `err_dma_timeout` and `err_copy`, reached from the loop.
  pub abandon_s2m : (kbuf : ℕ) → Cmd e Ret
  abandon_s2m kbuf = do free kbuf; pure (error efault)

  pub poll_s2m : (max_time rounds : ℕ) → Cmd e Bool
  poll_s2m max_time rounds = do
    init ← getnstimeofday
    _ ← ioread32 dma_s2m_wgo_rremaining
    wait_s2m init max_time rounds

  unfoldable pub baseband_read : (rounds user size : ℕ) → Cmd e Ret
  baseband_read rounds user size = do
    buffer ← dma_alloc_coherent size
    elim buffer [
      | none ↦ pure (error einval)
      | some b ↦ do
        start_s2m b.dbuf size rounds
        finished ← poll_s2m (estimate_max_time size) rounds
        if finished then finish_s2m user b.kbuf size else abandon_s2m b.kbuf
    ]

  -- The loop of `baseband_write`, which returns `wait_cnt`.
  pub wait_m2s : (wait_cnt rounds : ℕ) → Cmd e ℕ
  wait_m2s wait_cnt zero = keep_polling
  wait_m2s wait_cnt (suc rounds) = do
    more ← remaining dma_m2s_wgo_rremaining
    if more then (do udelay 1; wait_m2s (u32 (wait_cnt + 1)) rounds) else pure wait_cnt

  pub start_m2s : (dbuf size : ℕ) → Cmd e (Unit {0})
  start_m2s dbuf size = do
    iowrite32 1 dma_en
    iowrite32 (u32 dbuf) dma_m2s_base
    iowrite32 (dma_length size) dma_m2s_length
    iowrite32 0 dma_m2s_wgo_rremaining

  unfoldable pub baseband_write : (rounds user size : ℕ) → Cmd e Ret
  baseband_write rounds user size = do
    buffer ← dma_alloc_coherent size
    elim buffer [
      | none ↦ pure (error einval)
      | some b ↦ do
        left ← copy_from_user b.kbuf user size
        if left == 0
            then (do
              start_m2s b.dbuf size
              _ ← ioread32 dma_m2s_wgo_rremaining
              wait_cnt ← wait_m2s 0 rounds
              if wait_cnt == 1_000_000
                  then (do free b.kbuf; pure (error einval))
                  else (do free b.kbuf; pure (value size)))
            else (do free b.kbuf; pure (error einval))
    ]

  -- The loop of `baseband_mmap`, which ends by itself after at most `left` rounds; `wait_cnt`
  -- is used only in a message.
  pub wait_mmap : (left : ℕ) → Cmd e (Unit {0})
  wait_mmap zero = do _ ← ioread32 dma_s2m_wgo_rremaining; pure tt
  wait_mmap (suc left) = do
    more ← ioread32 dma_s2m_wgo_rremaining
    if more == 0 then pure tt else (do udelay 10; wait_mmap left)

  unfoldable pub baseband_mmap : (vm_start vm_end : ℕ) → Cmd e Ret
  baseband_mmap vm_start vm_end = do
    let len = u32 (vm_end + 2 ^ 32 - vm_start)
    pointer ← kmalloc len
    elim pointer [
      | none ↦ pure (error einval)
      | some kbuf ↦ do
        iowrite32 1 dma_en
        iowrite32 (u32 kbuf) dma_s2m_base
        iowrite32 (u32 (len / 2 ^ 2 + 2 ^ 32 - 1)) dma_s2m_length
        iowrite32 0 dma_s2m_wgo_rremaining
        _ ← ioread32 dma_idle
        wait_mmap 1_000_000
        _ ← ioread32 dma_s2m_wgo_rremaining
        store kbuf 0 0xdeadbeef
        failed ← remap_pfn_range kbuf len
        if failed then pure (error eio) else pure (value 0)
    ]
