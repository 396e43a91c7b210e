-- ===== src/Driver/Transfer/Waits.antt =====
-- The start and the polling loop of `baseband_read` (boot/baseband/baseband.c): what they write, and
-- how the loop ends.
use adi_bbp.Common.{
  ℕ, zero, suc, ◌≡◌, refl, inl, inr, Bool, true, false, List, ◌∷◌, ltb, leb, ◌==◌, if◌then◌else◌,
  Bool-cases, ◌≢◌, ==→eq, ◌≤◌, leb→le, not, arith,
}
use adi_bbp.Driver.Regs.{
  dma_en, dma_s2m_base, dma_s2m_length, dma_s2m_wgo_rremaining, skid_en, skid_count,
  skid_overflowed, skid_drain_when_disabled, stream_aligner_en,
}
use adi_bbp.Driver.World.{Env, World, Access, pure, ◌>>=◌, getnstimeofday, Buffer}
use adi_bbp.Driver.Dma.{elapsed, dma_length}
use adi_bbp.Driver.Ends.{Ends, bind, mono, Keeps, Keeps-trans, Any}
use adi_bbp.Driver.Transfer.{u32, drain_skid, remaining, wait_s2m, poll_s2m}

-- The register writes that start a transfer to the buffer `b`, latest first.
abbrev pub armed : (size : ℕ) → Buffer → List Access → List Access
armed size b log =
    (stream_aligner_en, 1)
    ∷ (skid_en, 1)
    ∷ (dma_s2m_wgo_rremaining, 1)
    ∷ (dma_en, 1)
    ∷ (skid_overflowed, 0)
    ∷ (skid_en, 0)
    ∷ (skid_drain_when_disabled, 1)
    ∷ (stream_aligner_en, 0)
    ∷ (dma_s2m_length, dma_length size)
    ∷ (dma_s2m_base, u32 b.dbuf)
    ∷ (dma_en, 0)
    ∷ log

abbrev pub stopped : (size : ℕ) → Buffer → List Access → List Access
stopped size b log = (stream_aligner_en, 0) ∷ (skid_en, 0) ∷ armed size b log

nothing_left : (n : ℕ) → not (n == 0) ≡ false → n ≡ 0
nothing_left n h = ground arith

-- The device never reports the end of a transfer to memory.
abbrev pub NeverDone : Env → Type 0
NeverDone e = (o : e.Outside) → (e.read32 dma_s2m_wgo_rremaining o).0 ≢ 0

-- From `o` on, both looks at what remains find nothing, and leave `o'`.
abbrev pub Ended : (e : Env) (o o' : e.Outside) → Type 0
Ended e o o' =
    let o₁ : e.Outside = (e.read32 dma_s2m_wgo_rremaining o).1 in
    ((e.read32 dma_s2m_wgo_rremaining o).0 ≡ 0)
    × ((e.read32 dma_s2m_wgo_rremaining o₁).0 ≡ 0)
    × (o' ≡ (e.read32 dma_s2m_wgo_rremaining o₁).1)

-- The clock was read, which left `o'`, and the time from `init` on has reached its limit.
abbrev pub Late : (e : Env) (init : ℕ × ℕ) (max_time : ℕ) (o' : e.Outside) → Type 0
Late e init max_time o' =
    (o : e.Outside) × (o' ≡ (e.time o).1) × (max_time ≤ elapsed init (e.time o).0)

-- The last writes of the start of a transfer.
abbrev pub begin : (e : Env) → e.Outside → e.Outside
begin e o =
    e.write32 1 stream_aligner_en
      (e.write32 1 skid_en (e.write32 1 dma_s2m_wgo_rremaining (e.write32 1 dma_en o)))

-- The world outside as `copy_to_user` finds it, from the end of the loop on.
abbrev pub settled : (e : Env) → e.Outside → e.Outside
settled e o =
    (e.read32 skid_overflowed
      (e.read32 dma_s2m_wgo_rremaining (e.write32 0 stream_aligner_en (e.write32 0 skid_en o))).1).1

-- The skid buffer drains, and the receiver does not fill it.
abbrev pub draining : (e : Env) → e.Outside → e.Outside
draining e o =
    e.write32 0 skid_overflowed (e.write32 0 skid_en (e.write32 1 skid_drain_when_disabled o))

module _ {e : Env} where
  pub drain_skid-Keeps : (rounds : ℕ) (w : World e) → Ends (λ _. Keeps w) Any (drain_skid rounds w)
  unfolding drain_skid
  drain_skid-Keeps zero w = tt
  drain_skid-Keeps (suc rounds) w = elim (Bool-cases (ltb 0 (e.read32 skid_count w.outside).0)) [
    | inl more ↦ rw more (drain_skid-Keeps rounds _)
    | inr over ↦ rw over (refl, refl, refl, refl)
  ]

  -- The world after the clock was read.
  abbrev pub tick : World e → World e
  tick w = record w { outside = (e.time w.outside).1 }

  abbrev pub Polled : World e → Bool → World e → Type 0
  Polled w more v = Keeps w v × (more ≡ false → Ended e w.outside v.outside)

  -- The loop has ended by its test, or for the time limit.
  abbrev pub Waited : (init : ℕ × ℕ) (max_time : ℕ) → World e → Bool → World e → Type 0
  Waited init max_time w finished v =
      Keeps w v
      × (finished ≡ true → (o : e.Outside) × Ended e o v.outside)
      × (finished ≡ false → Late e init max_time v.outside)

  pub remaining-Polled :
      (L : World e → Type 0) (w : World e) → Ends (Polled w) L (remaining dma_s2m_wgo_rremaining w)
  unfolding remaining
  remaining-Polled L w =
      let o : e.Outside = (e.read32 dma_s2m_wgo_rremaining w.outside).1 in
      elim (Bool-cases ((e.read32 dma_s2m_wgo_rremaining w.outside).0 == 0)) [
        | inl z ↦ rw z (
          (refl, refl, refl, refl),
          λ none_left.
              (==→eq _ _ z, nothing_left (e.read32 dma_s2m_wgo_rremaining o).0 none_left, refl),
        )
        | inr n ↦ rw n ((refl, refl, refl, refl), λ t. cc)
      ]

  -- One round of the polling loop, given the rounds that follow it.
  pub wait_round-Waited :
      (L : World e → Type 0) (init : ℕ × ℕ) (max_time rounds : ℕ) (w v : World e) (more : Bool)
      → (leb max_time (elapsed init (e.time v.outside).0) ≡ false
          → Ends (Waited init max_time (tick v)) L (wait_s2m init max_time rounds (tick v)))
      → Polled w more v
      → Ends (Waited init max_time w) L (
          (if more
              then (getnstimeofday >>= λ now.
                  if leb max_time (elapsed init now)
                  then pure false
                  else wait_s2m init max_time rounds)
              else pure true)
            v)
  wait_round-Waited L init max_time rounds w v false rest k =
      (k.0, (λ _. (w.outside, k.1 refl)), λ t. cc)
  wait_round-Waited L init max_time rounds w v true rest k =
      elim (Bool-cases (leb max_time (elapsed init (e.time v.outside).0))) [
        | inl late ↦ rw late (k.0, (λ t. cc), λ _. (v.outside, refl, leb→le _ _ late))
        | inr early ↦ rw early (
            mono (Waited init max_time (tick v)) (Waited init max_time w) L _ (rest early)
              λ _ u k'. (Keeps-trans w v u k.0 k'.0, k'.1, k'.2))
      ]

  pub wait_s2m-Waited :
      (init : ℕ × ℕ) (max_time rounds : ℕ) (w : World e)
      → Ends (Waited init max_time w) Any (wait_s2m init max_time rounds w)
  unfolding wait_s2m
  wait_s2m-Waited init max_time zero w = tt
  wait_s2m-Waited init max_time (suc rounds) w =
      bind (Polled w) (Waited init max_time w) Any (remaining dma_s2m_wgo_rremaining w) _
        (remaining-Polled Any w)
        λ more v k.
          wait_round-Waited Any init max_time rounds w v more
            (λ _. wait_s2m-Waited init max_time rounds (tick v)) k

  -- The loop with its start: the limit counts from the time at which it begins.
  abbrev pub Awaited : (max_time : ℕ) → World e → Bool → World e → Type 0
  Awaited max_time w = Waited (e.time w.outside).0 max_time w

  pub poll_s2m-Awaited :
      (L : World e → Type 0) (max_time rounds : ℕ)
      → ((init : ℕ × ℕ) (v : World e)
          → Ends (Waited init max_time v) L (wait_s2m init max_time rounds v))
      → (w : World e) → Ends (Awaited max_time w) L (poll_s2m max_time rounds w)
  unfolding poll_s2m
  poll_s2m-Awaited L max_time rounds waits w = waits _ _
