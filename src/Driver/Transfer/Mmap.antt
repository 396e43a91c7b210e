-- ===== src/Driver/Transfer/Mmap.antt =====
-- `baseband_mmap` of boot/baseband/baseband.c: it ends by itself, and keeps its buffer.
use adi_bbp.Common.{
  ℕ, zero, suc, ◌+◌, ◌-◌, ◌%◌, ◌^◌, ◌≡◌, refl, inl, inr, Bool, true, false, ◌∷◌, ◌==◌,
  if◌then◌else◌, Bool-cases, Option-cases,
}
use adi_bbp.Driver.Regs.{dma_s2m_wgo_rremaining}
use adi_bbp.Driver.World.{Env, World, pure, Ret, value, error, einval, eio}
use adi_bbp.Driver.Ends.{Returns, bind, Keeps}
use adi_bbp.Driver.Transfer.{wait_mmap, baseband_mmap}

module _ {e : Env} where
  wait_mmap-Keeps : (left : ℕ) (w : World e) → Returns (λ _. Keeps w) (wait_mmap left w)
  unfolding wait_mmap
  wait_mmap-Keeps zero w = (refl, refl, refl, refl)
  wait_mmap-Keeps (suc left) w =
      elim (Bool-cases ((e.read32 dma_s2m_wgo_rremaining w.outside).0 == 0)) [
        | inl z ↦ rw z (refl, refl, refl, refl)
        | inr n ↦ rw n (wait_mmap-Keeps left _)
      ]

  -- The value of a mapping and the buffers that it leaves.
  pub data MmapEnd (w w' : World e) : Ret → Type 0 where
    no_memory : w'.live ≡ w.live → MmapEnd w w' (error einval)
    not_mapped : (p : ℕ) → w'.live ≡ p ∷ w.live → MmapEnd w w' (error eio)
    mapped : (p : ℕ) → w'.live ≡ p ∷ w.live → MmapEnd w w' (value 0)

  abbrev pub Mapped : World e → Ret → World e → Type 0
  Mapped w r v = MmapEnd w v r × (v.locked ≡ w.locked) × (v.rx_enabled ≡ w.rx_enabled)

  map_user :
      (p : ℕ) (w v : World e) (failed : Bool)
      → v.live ≡ p ∷ w.live
      → v.locked ≡ w.locked
      → v.rx_enabled ≡ w.rx_enabled
      → Returns (Mapped w) ((if failed then pure (error eio) else pure (value 0)) v)
  map_user p w v true held lock rx = (not_mapped p held, lock, rx)
  map_user p w v false held lock rx = (mapped p held, lock, rx)

  -- A mapping always returns: with `-EINVAL` and no buffer, with `-EIO`, or with 0. The last two
  -- leave the buffer allocated, since nothing frees it, also where the user gets no mapping. The
  -- lock is neither taken nor asked for.
  pub baseband_mmap-Mapped :
      (vm_start vm_end : ℕ) (w : World e) → Returns (Mapped w) (baseband_mmap vm_start vm_end w)
  unfolding baseband_mmap
  baseband_mmap-Mapped vm_start vm_end w =
      elim (Option-cases (e.kmalloc ((vm_end + 2 ^ 32 - vm_start) % 2 ^ 32) w.outside).0) [
        | inl null ↦ rw null (no_memory refl, refl, refl)
        | inr (p, got) ↦ rw got (
            bind _ (Mapped w) (λ _. ⊥) (wait_mmap 1_000_000 _) _ (wait_mmap-Keeps 1_000_000 _)
              λ _ v k. map_user p w _ _ k.2 k.0 k.1)
      ]
