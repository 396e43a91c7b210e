-- ===== src/Driver/Deadlock.antt =====
-- What a read that timed out does to the calls after it (boot/baseband/baseband.c): the jump to
-- `err_dma_timeout` leaves `baseband_rx_lock` held.
use adi_bbp.Common.{
  ℕ, ◌+◌, ◌*◌, ◌/◌, ◌^◌, ◌<◌, ◌≡◌, ◌⊎◌, ◌∙◌, inl, inr, Option-cases, true, false, some,
}
use adi_bbp.Driver.Regs.{ioctl_rx_conf, ioctl_rx_use_baseband}
use adi_bbp.Driver.World.{Env, World, Buffer, Run, Ret, done, blocked, error, efault}
use adi_bbp.Driver.Ends.{Returns, IfDone, if_done, Any, mono}
use adi_bbp.Driver.Transfer.{baseband_read, baseband_write, baseband_mmap}
use adi_bbp.Driver.Transfer.Waits.{NeverDone, armed}
use adi_bbp.Driver.Transfer.Read.{baseband_read-blocked}
use adi_bbp.Driver.Transfer.Timeout.{Clock, Drains, baseband_read_timeout}
use adi_bbp.Driver.Transfer.Write.{Written, baseband_write-Written}
use adi_bbp.Driver.Transfer.Mmap.{Mapped, baseband_mmap-Mapped}
use adi_bbp.Driver.Ioctl.{baseband_ioctl}
use adi_bbp.Driver.Ioctl.Held.{Locked, baseband_ioctl-Locked}
use adi_bbp.Driver.Ioctl.Lock.{baseband_ioctl-blocked}

module _ {e : Env} where
  -- A command that configures the receiver waits for ever.
  abbrev pub Stuck : World e → Type 0
  Stuck v =
      (cmd arg : ℕ)
      → (cmd ≡ ioctl_rx_conf) ⊎ (cmd ≡ ioctl_rx_use_baseband)
      → (u : World e) × (baseband_ioctl cmd arg v ≡ blocked u)

  -- And so does the next read that gets memory.
  abbrev pub NoRead : World e → Type 0
  NoRead v =
      (rounds user size : ℕ) (b : Buffer)
      → (e.dma_alloc size v.outside).0 ≡ some b
      → (u : World e) × (baseband_read rounds user size v ≡ blocked u)

  -- The worlds that a program can reach from `v` by calls of the driver that return.
  pub data Later (v : World e) : World e → Type 0 where
    now : Later v v
    after_ioctl :
        {u u' : World e} (cmd arg : ℕ) (r : Ret)
        → Later v u
        → baseband_ioctl cmd arg u ≡ done r u'
        → Later v u'
    after_read :
        {u u' : World e} (rounds user size : ℕ) (r : Ret)
        → Later v u
        → baseband_read rounds user size u ≡ done r u'
        → Later v u'
    after_write :
        {u u' : World e} (rounds user size : ℕ) (r : Ret)
        → Later v u
        → baseband_write rounds user size u ≡ done r u'
        → Later v u'
    after_mmap :
        {u u' : World e} (vm_start vm_end : ℕ) (r : Ret)
        → Later v u
        → baseband_mmap vm_start vm_end u ≡ done r u'
        → Later v u'

  baseband_read-Locked :
      (rounds user size : ℕ) (w : World e)
      → w.locked ≡ true
      → IfDone Locked (baseband_read rounds user size w)
  unfolding baseband_read
  baseband_read-Locked rounds user size w locked =
      elim (Option-cases (e.dma_alloc size w.outside).0) [
        | inl null ↦ rw null locked
        | inr (b, got) ↦ rw (baseband_read-blocked rounds user size w locked b got).1 tt
      ]

  done-Locked :
      (run : Run (World e) Ret) (r : Ret) (u' : World e)
      → run ≡ done r u'
      → IfDone Locked run
      → u'.locked ≡ true
  done-Locked run r u' end keeps = rw end at keeps

  -- A mutex that is held stays so.
  Later-Locked : {v u : World e} → v.locked ≡ true → Later v u → u.locked ≡ true
  Later-Locked locked now = locked
  Later-Locked locked (after_ioctl {u} {u'} cmd arg r before end) =
      done-Locked _ r u' end (baseband_ioctl-Locked cmd arg u (Later-Locked locked before))
  Later-Locked locked (after_read {u} {u'} rounds user size r before end) =
      done-Locked _ r u' end (baseband_read-Locked rounds user size u (Later-Locked locked before))
  Later-Locked locked (after_write {u} {u'} rounds user size r before end) =
      done-Locked _ r u' end (
        if_done (Written user size u) Locked Any _ (baseband_write-Written rounds user size u)
          λ _ v k. k.1 ∙ Later-Locked locked before)
  Later-Locked locked (after_mmap {u} {u'} vm_start vm_end r before end) = done-Locked _ r u' end (
      if_done (Mapped u) Locked (λ _. ⊥) _ (baseband_mmap-Mapped vm_start vm_end u)
        λ _ v k. k.1 ∙ Later-Locked locked before)

-- On a clock that moves and with a skid buffer that drains, and with as many polls as its limit
-- needs, a read of fewer than 2 ^ 32 bytes from an unlocked driver, with memory for its buffer, of
-- a device that never reports the end, returns `-EFAULT`. From there on, after any calls of
-- `baseband_ioctl`, `baseband_read`, `baseband_write` and `baseband_mmap` that return, a
-- configuration of the receiver and a read with memory for its buffer wait for ever on the mutex.
pub read_timeout_deadlock :
    {e : Env} (c : Clock e) (d : Drains e) (rounds user size : ℕ) (w : World e) (b : Buffer)
    → size < 2 ^ 32
    → d.depth < rounds
    → 5_000_000_000 + 400 * (size / 4) < rounds
    → w.locked ≡ false
    → NeverDone e
    → (e.dma_alloc size w.outside).0 ≡ some b
    → Returns
        (λ r v. (r ≡ error efault) × ((u : World e) → Later v u → Stuck u × NoRead u))
        (baseband_read rounds user size w)
read_timeout_deadlock {e} c d rounds user size w b word deep long unlocked never got =
    mono
      (λ r v.
        (r ≡ error efault)
        × (v.locked ≡ true)
        × (v.writes ≡ armed size b w.writes)
        × (v.live ≡ w.live))
      (λ r v. (r ≡ error efault) × ((u : World e) → Later v u → Stuck u × NoRead u)) (λ _. ⊥) _
      (baseband_read_timeout c d rounds user size w b word deep long unlocked never got)
      λ r v t. (
        t.0,
        λ u later.
            let locked : u.locked ≡ true = Later-Locked t.1 later in
            (
              λ cmd arg. baseband_ioctl-blocked cmd arg u locked,
              λ n user' s. baseband_read-blocked n user' s u locked,
            ),
      )
