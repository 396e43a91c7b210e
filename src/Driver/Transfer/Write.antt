-- ===== src/Driver/Transfer/Write.antt =====
-- `baseband_write` of boot/baseband/baseband.c: what it leaves behind on each way out, and that
-- its polling loop has no limit.
use adi_bbp.Common.{
  ℕ, zero, suc, ◌+◌, ◌≡◌, ◌≢◌, refl, ap, ◌∙◌, inl, inr, Bool, true, false, none, some, List, ◌∷◌,
  ◌==◌, if◌then◌else◌, Bool-cases, Option-cases, ==_ne, ==→eq, ==→ne,
}
use adi_bbp.Driver.Regs.{dma_en, dma_m2s_base, dma_m2s_length, dma_m2s_wgo_rremaining}
use adi_bbp.Driver.Dma.{dma_length}
use adi_bbp.Driver.World
use adi_bbp.Driver.World.{
  Env, World, Access, Buffer, Run, Cmd, polling, pure, ◌>>=◌, ◌>>◌, udelay, forget, Ret, value,
  error, einval,
}
use adi_bbp.Driver.Ends.{Ends, bind, mono, Keeps, Keeps-trans, Any, forget_head}
use adi_bbp.Driver.Transfer.{u32, remaining, wait_m2s, start_m2s, baseband_write}

-- The register writes that start a transfer of the buffer `b`, latest first.
abbrev pub transfer : (size : ℕ) → Buffer → List Access → List Access
transfer size b log =
    (dma_m2s_wgo_rremaining, 0)
    ∷ (dma_m2s_length, dma_length size)
    ∷ (dma_m2s_base, u32 b.dbuf)
    ∷ (dma_en, 1)
    ∷ log

-- The device never reports the end of a transfer from memory.
abbrev pub NeverSent : Env → Type 0
NeverSent e = (o : e.Outside) → (e.read32 dma_m2s_wgo_rremaining o).0 ≢ 0

module _ {e : Env} where
  remaining-Keeps : (reg : ℕ) (w : World e) → Ends (λ _. Keeps w) Any (remaining reg w)
  unfolding remaining
  remaining-Keeps reg w = elim (Bool-cases ((e.read32 reg w.outside).0 == 0)) [
    | inl z ↦ rw z (refl, refl, refl, refl)
    | inr n ↦ rw n (refl, refl, refl, refl)
  ]

  wait_round-Keeps :
      (wait_cnt rounds : ℕ) (w v : World e) (more : Bool)
      → ((u : World e) → Ends (λ _. Keeps u) Any (wait_m2s (u32 (wait_cnt + 1)) rounds u))
      → Keeps w v
      → Ends
          (λ _. Keeps w)
          Any
          ((if more then (udelay 1 >> wait_m2s (u32 (wait_cnt + 1)) rounds) else pure wait_cnt) v)
  wait_round-Keeps wait_cnt rounds w v false rest k = k
  wait_round-Keeps wait_cnt rounds w v true rest k =
      mono (λ _. Keeps v) (λ _. Keeps w) Any _ (rest _) λ _ u k'. Keeps-trans w v u k k'

  wait_m2s-Keeps :
      (rounds wait_cnt : ℕ) (w : World e) → Ends (λ _. Keeps w) Any (wait_m2s wait_cnt rounds w)
  unfolding wait_m2s
  wait_m2s-Keeps zero wait_cnt w = tt
  wait_m2s-Keeps (suc rounds) wait_cnt w =
      bind (λ _. Keeps w) (λ _. Keeps w) Any (remaining dma_m2s_wgo_rremaining w) _
        (remaining-Keeps dma_m2s_wgo_rremaining w)
        λ more v k.
          wait_round-Keeps wait_cnt rounds w v more (wait_m2s-Keeps rounds (u32 (wait_cnt + 1))) k

  -- How a write ends: the value that it returns and the registers that it wrote.
  pub data WriteEnd (user size : ℕ) (w w' : World e) : Ret → Type 0 where
    no_memory :
        (e.dma_alloc size w.outside).0 ≡ none
        → w'.writes ≡ w.writes
        → WriteEnd user size w w' (error einval)
    not_copied :
        (b : Buffer)
        → (e.dma_alloc size w.outside).0 ≡ some b
        → (e.copy_from_user b.kbuf user size (e.dma_alloc size w.outside).1).0 ≢ 0
        → w'.writes ≡ w.writes
        → WriteEnd user size w w' (error einval)
    sent :
        (b : Buffer)
        → (e.dma_alloc size w.outside).0 ≡ some b
        → (e.copy_from_user b.kbuf user size (e.dma_alloc size w.outside).1).0 ≡ 0
        → w'.writes ≡ transfer size b w.writes
        → WriteEnd user size w w' (value size)
    million :
        (b : Buffer)
        → (e.dma_alloc size w.outside).0 ≡ some b
        → (e.copy_from_user b.kbuf user size (e.dma_alloc size w.outside).1).0 ≡ 0
        → w'.writes ≡ transfer size b w.writes
        → WriteEnd user size w w' (error einval)

  abbrev pub Written : (user size : ℕ) (w : World e) → Ret → World e → Type 0
  Written user size w r v =
      WriteEnd user size w v r
      × (v.locked ≡ w.locked)
      × (v.rx_enabled ≡ w.rx_enabled)
      × (v.live ≡ w.live)

  free_live : (p : ℕ) (w v : World e) → v.live ≡ p ∷ w.live → forget p v.live ≡ w.live
  free_live p w v held = ap (forget p) held ∙ forget_head p w.live

  report :
      (user size : ℕ) (b : Buffer) (w v : World e) (million_rounds : Bool)
      → (e.dma_alloc size w.outside).0 ≡ some b
      → (e.copy_from_user b.kbuf user size (e.dma_alloc size w.outside).1).0 ≡ 0
      → v.locked ≡ w.locked
      → v.rx_enabled ≡ w.rx_enabled
      → v.live ≡ b.kbuf ∷ w.live
      → v.writes ≡ transfer size b w.writes
      → Ends (Written user size w) Any (
          (if million_rounds
              then (World.free b.kbuf >> pure (error einval))
              else (World.free b.kbuf >> pure (value size)))
            v)
  report user size b w v true got copy lock rx held log =
      (million b got copy log, lock, rx, free_live b.kbuf w v held)
  report user size b w v false got copy lock rx held log =
      (sent b got copy log, lock, rx, free_live b.kbuf w v held)

  copied-Written :
      (rounds user size : ℕ) (b : Buffer) (w v : World e) (whole : Bool)
      → (e.dma_alloc size w.outside).0 ≡ some b
      → ((e.copy_from_user b.kbuf user size (e.dma_alloc size w.outside).1).0 == 0) ≡ whole
      → v.locked ≡ w.locked
      → v.rx_enabled ≡ w.rx_enabled
      → v.live ≡ b.kbuf ∷ w.live
      → v.writes ≡ w.writes
      → Ends (Written user size w) Any (
          (if whole
              then (start_m2s b.dbuf size
                  >> (World.ioread32 dma_m2s_wgo_rremaining >>= λ _.
                      wait_m2s 0 rounds >>= λ wait_cnt.
                      if wait_cnt == 1_000_000
                      then (World.free b.kbuf >> pure (error einval))
                      else (World.free b.kbuf >> pure (value size))))
              else (World.free b.kbuf >> pure (error einval)))
            v)
  unfolding start_m2s
  copied-Written rounds user size b w v false got copy lock rx held log =
      (not_copied b got (==→ne _ 0 copy) log, lock, rx, free_live b.kbuf w v held)
  copied-Written rounds user size b w v true got copy lock rx held log =
      bind _ (Written user size w) Any (wait_m2s 0 rounds _) _ (wait_m2s-Keeps rounds 0 _)
        λ wait_cnt u k.
          report user size b w u (wait_cnt == 1_000_000) got (==→eq _ 0 copy) (k.0 ∙ lock)
            (k.1 ∙ rx) (k.2 ∙ held) (k.3 ∙ ap (transfer size b) log)

-- A write that returns does so in one of four ways: without memory or without the user's data,
-- with `-EINVAL` and no register written; or after the four writes that start the transfer, with
-- its size, or with `-EINVAL` where the loop counted to one million. Each way frees the buffer
-- and leaves the lock as it was.
pub baseband_write-Written :
    {e : Env} (rounds user size : ℕ) (w : World e)
    → Ends (Written user size w) Any (baseband_write rounds user size w)
unfolding baseband_write
baseband_write-Written {e} rounds user size w = elim (Option-cases (e.dma_alloc size w.outside).0) [
  | inl null ↦ rw null (no_memory null refl, refl, refl, refl)
  | inr (b, got) ↦ rw got (copied-Written rounds user size b w _ _ got refl refl refl refl refl)
]

module _ {e : Env} where
  wait_m2s-polling :
      (rounds wait_cnt : ℕ) (w : World e)
      → NeverSent e
      → (v : World e) × (wait_m2s wait_cnt rounds w ≡ polling v)
  unfolding wait_m2s remaining
  wait_m2s-polling zero wait_cnt w never = (w, refl)
  wait_m2s-polling (suc rounds) wait_cnt w never =
      rw (==_ne _ 0 (never w.outside)) (wait_m2s-polling rounds (u32 (wait_cnt + 1)) _ never)

  and_then-polling :
      {A B : Type 0} (r : Run (World e) A) (k : A → Cmd e B)
      → ((v : World e) × (r ≡ polling v))
      → (v : World e) × (World.and_then r k ≡ polling v)
  and_then-polling r k (v, on) = (v, rw on)

  -- A write with memory for its buffer and with all of the user's data copied, to a device that
  -- never reports the end of the transfer, is still polling after any number of rounds: the count of
  -- one million is looked at only behind the loop.
  pub baseband_write-polling :
      (rounds user size : ℕ) (w : World e) (b : Buffer)
      → NeverSent e
      → (e.dma_alloc size w.outside).0 ≡ some b
      → (e.copy_from_user b.kbuf user size (e.dma_alloc size w.outside).1).0 ≡ 0
      → (v : World e) × (baseband_write rounds user size w ≡ polling v)
  unfolding baseband_write start_m2s
  baseband_write-polling rounds user size w b never got whole =
      rw (got, whole) (and_then-polling (wait_m2s 0 rounds _) _ (wait_m2s-polling rounds 0 _ never))
