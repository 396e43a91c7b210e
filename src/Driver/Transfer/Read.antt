-- ===== src/Driver/Transfer/Read.antt =====
-- `baseband_read` of boot/baseband/baseband.c: what it leaves behind on each way out.
use adi_bbp.Common.{
  ℕ, ◌≡◌, refl, ap, ◌∙◌, inl, inr, Bool, true, false, none, some, List, ◌∷◌, ◌==◌, if◌then◌else◌,
  Bool-cases, Option-cases, ◌≢◌, ==→eq, ==→ne,
}
use adi_bbp.Driver.Regs.{
  dma_en, dma_s2m_base, dma_s2m_length, dma_s2m_wgo_rremaining, skid_en, stream_aligner_en,
}
use adi_bbp.Driver.World.{
  Env, World, Access, forget, Buffer, blocked, Ret, value, error, einval, efault,
}
use adi_bbp.Driver.Dma.{estimate_max_time, dma_length}
use adi_bbp.Driver.Ends.{Ends, bind, Keeps, forget_head}
use adi_bbp.Driver.Transfer.{
  u32, drain_skid, start_s2m, poll_s2m, finish_s2m, abandon_s2m, baseband_read,
}
use adi_bbp.Driver.Transfer.Waits.{armed, stopped, Ended, Late, begin, settled, draining, Awaited}

-- `start_s2m` behind the draining: the four writes that let the samples in, latest first.
abbrev begun : List Access → List Access
begun log = (stream_aligner_en, 1) ∷ (skid_en, 1) ∷ (dma_s2m_wgo_rremaining, 1) ∷ (dma_en, 1) ∷ log

-- The two writes that stop the queue.
abbrev stop : List Access → List Access
stop log = (stream_aligner_en, 0) ∷ (skid_en, 0) ∷ log

module _ {e : Env} where
  -- How a read ends: the value that it returns, what has led to it, the mutex, and the registers.
  pub data ReadEnd (user size : ℕ) (w w' : World e) : Ret → Type 0 where
    no_memory :
        (e.dma_alloc size w.outside).0 ≡ none
        → w'.locked ≡ false
        → w'.writes ≡ w.writes
        → ReadEnd user size w w' (error einval)
    copied :
        (b : Buffer) (o o' : e.Outside)
        → (e.dma_alloc size w.outside).0 ≡ some b
        → Ended e o o'
        → (e.copy_to_user user b.kbuf size (settled e o')).0 ≡ 0
        → w'.outside ≡ (e.copy_to_user user b.kbuf size (settled e o')).1
        → w'.locked ≡ false
        → w'.writes ≡ stopped size b w.writes
        → ReadEnd user size w w' (value size)
    copy_failed :
        (b : Buffer) (o o' : e.Outside)
        → (e.dma_alloc size w.outside).0 ≡ some b
        → Ended e o o'
        → (e.copy_to_user user b.kbuf size (settled e o')).0 ≢ 0
        → w'.outside ≡ (e.copy_to_user user b.kbuf size (settled e o')).1
        → w'.locked ≡ false
        → w'.writes ≡ stopped size b w.writes
        → ReadEnd user size w w' (error efault)
    timed_out :
        (b : Buffer) (o : e.Outside)
        → (e.dma_alloc size w.outside).0 ≡ some b
        → Late e (e.time (begin e o)).0 (estimate_max_time size) w'.outside
        → w'.locked ≡ true
        → w'.writes ≡ armed size b w.writes
        → ReadEnd user size w w' (error efault)

  abbrev pub Started : (size : ℕ) → Buffer → (w w' : World e) → Type 0
  Started size b w w' =
      (w'.locked ≡ true)
      × (w'.rx_enabled ≡ w.rx_enabled)
      × (w'.live ≡ w.live)
      × (w'.writes ≡ armed size b w.writes)
      × ((o : e.Outside) × (w'.outside ≡ begin e o))

  pub start_s2m-Started :
      (L : World e → Type 0) (b : Buffer) (size rounds : ℕ)
      → ((o : e.Outside) (w : World e)
          → w.outside ≡ draining e o
          → Ends (λ _. Keeps w) L (drain_skid rounds w))
      → (w : World e) → w.locked ≡ false
      → Ends (λ _. Started size b w) L (start_s2m b.dbuf size rounds w)
  unfolding start_s2m
  start_s2m-Started L b size rounds drains w free = rw free (
      bind _ (λ _. Started size b w) L (drain_skid rounds _) _ (drains _ _ refl)
        λ _ w' k. (k.0, k.1, k.2, ap begun k.3, (e.udelay 10 w'.outside, refl)))

  -- The world after a read from `w` with `live` the buffers that were live before it.
  abbrev pub Left : (user size : ℕ) (w : World e) → Ret → World e → Type 0
  Left user size w r v = ReadEnd user size w v r × (v.live ≡ w.live) × (v.rx_enabled ≡ w.rx_enabled)

  free_live : (kbuf : ℕ) (w v : World e) → v.live ≡ kbuf ∷ w.live → forget kbuf v.live ≡ w.live
  free_live kbuf w v held = ap (forget kbuf) held ∙ forget_head kbuf w.live

  -- A transfer to `b` is on.
  abbrev On : (size : ℕ) → Buffer → (w v : World e) → Type 0
  On size b w v =
      ((e.dma_alloc size w.outside).0 ≡ some b)
      × (v.live ≡ b.kbuf ∷ w.live)
      × (v.rx_enabled ≡ w.rx_enabled)
      × (v.writes ≡ armed size b w.writes)

  finish_s2m-Left :
      (L : World e → Type 0) (user size : ℕ) (b : Buffer) (w v : World e)
      → ((o : e.Outside) × Ended e o v.outside)
      → On size b w v
      → Ends (Left user size w) L (finish_s2m user b.kbuf size v)
  unfolding finish_s2m
  finish_s2m-Left L user size b w v (o, ended) (got, held, same, log) =
      let live : forget b.kbuf v.live ≡ w.live = free_live b.kbuf w v held in
      let log' = ap stop log in
      elim (Bool-cases ((e.copy_to_user user b.kbuf size (settled e v.outside)).0 == 0)) [
        | inl whole ↦
            rw whole (copied b o v.outside got ended (==→eq _ _ whole) refl refl log', live, same)
        | inr part ↦
            rw part
              (copy_failed b o v.outside got ended (==→ne _ _ part) refl refl log', live, same)
      ]

  finish_or_abandon :
      (L : World e → Type 0) (user size : ℕ) (b : Buffer) (w v : World e) (o : e.Outside)
      (finished : Bool)
      → (finished ≡ true → (o' : e.Outside) × Ended e o' v.outside)
      → (finished ≡ false → Late e (e.time (begin e o)).0 (estimate_max_time size) v.outside)
      → v.locked ≡ true
      → On size b w v
      → Ends
          (Left user size w)
          L
          ((if finished then finish_s2m user b.kbuf size else abandon_s2m b.kbuf) v)
  unfolding abandon_s2m
  finish_or_abandon L user size b w v o true ended late locked on =
      finish_s2m-Left L user size b w v (ended refl) on
  finish_or_abandon L user size b w v o false ended late locked (got, held, same, log) =
      (timed_out b o got (late refl) locked log, free_live b.kbuf w v held, same)

  -- A read from an unlocked driver, for loops that do `L` where they do not end.
  pub read-Left :
      (L : World e → Type 0) (rounds user size : ℕ)
      → ((o : e.Outside) (w : World e)
          → w.outside ≡ draining e o
          → Ends (λ _. Keeps w) L (drain_skid rounds w))
      → ((w : World e)
          → Ends
              (Awaited (estimate_max_time size) w)
              L
              (poll_s2m (estimate_max_time size) rounds w))
      → (w : World e) → w.locked ≡ false
      → Ends (Left user size w) L (baseband_read rounds user size w)
  unfolding baseband_read
  read-Left L rounds user size drains polls w unlocked =
      elim (Option-cases (e.dma_alloc size w.outside).0) [
        | inl null ↦ rw null (no_memory null unlocked refl, refl, refl)
        | inr (b, got) ↦ rw got (
            bind _ (Left user size w) L (start_s2m b.dbuf size rounds _) _
              (start_s2m-Started L b size rounds drains _ unlocked)
              λ _ v (locked, rx, live, log, (o, now)).
                bind _ (Left user size w) L (poll_s2m (estimate_max_time size) rounds v) _ (polls v)
                  λ finished u (k, ended, late).
                    finish_or_abandon L user size b w u o finished ended (λ f. rw now at (late f))
                      (k.0 ∙ locked) (got, k.2 ∙ live, k.1 ∙ rx, k.3 ∙ log))
      ]

-- Where the lock is held, a read with memory for its buffer never returns.
pub baseband_read-blocked :
    {e : Env} (rounds user size : ℕ) (w : World e)
    → w.locked ≡ true
    → (b : Buffer) → (e.dma_alloc size w.outside).0 ≡ some b
    → (u : World e) × (baseband_read rounds user size w ≡ blocked u)
unfolding baseband_read start_s2m
baseband_read-blocked {e} rounds user size w locked b got = (
  record w {
    outside =
        e.write32 (dma_length size) dma_s2m_length
          (e.write32 (u32 b.dbuf) dma_s2m_base (e.write32 0 dma_en (e.dma_alloc size w.outside).1));
    live = b.kbuf ∷ w.live;
    writes =
        (dma_s2m_length, dma_length size) ∷ (dma_s2m_base, u32 b.dbuf) ∷ (dma_en, 0) ∷ w.writes;
  },
  rw (got, locked),
)
