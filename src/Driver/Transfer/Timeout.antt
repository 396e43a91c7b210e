-- ===== src/Driver/Transfer/Timeout.antt =====
-- The time limit of `baseband_read` (boot/baseband/baseband.c): on a clock that moves, a read of
-- any device returns.
use adi_bbp.Common.{
  ℕ, zero, suc, ◌+◌, ◌-◌, ◌^◌, ◌≤◌, ◌<◌, ◌≡◌, refl, sym, ◌∙◌, Bool, true, false, ltb, leb, ◌==◌,
  Bool-cases, inl, inr, leb→gt, ltb→lt, ◌*◌, ◌/◌, some, arith,
}
use adi_bbp.Driver.Regs.{dma_s2m_wgo_rremaining, skid_count}
use adi_bbp.Driver.World.{Env, World, Buffer, Ret, error, efault}
use adi_bbp.Driver.Dma.{estimate_max_time, elapsed}
use adi_bbp.Driver.Dma.Laws.{nanoseconds, elapsed_lem, estimate_max_time_bounds}
use adi_bbp.Driver.Ends.{Returns, bind, both, mono, Keeps}
use adi_bbp.Driver.Transfer.{drain_skid, remaining, wait_s2m, poll_s2m, baseband_read}
use adi_bbp.Driver.Transfer.Waits.{
  Polled, Waited, Awaited, draining, armed, NeverDone, tick, remaining-Polled, wait_round-Waited,
}
use adi_bbp.Driver.Transfer.Read.{
  Left, ReadEnd, no_memory, copied, copy_failed, timed_out, read-Left,
}

-- What is documented of the skid buffer: a look at its count finds what it holds, at most `depth`.
-- The writes that make it drain and disable it leave it off, and looks at its count leave it so;
-- while it is off, one entry or more leaves from one look to the next.
pub record Drains (e : Env) : Type 1 where
  pub depth : ℕ
  pub held : e.Outside → ℕ
  pub reports : (o : e.Outside) → (e.read32 skid_count o).0 ≡ held o
  pub bounded : (o : e.Outside) → held o ≤ depth
  pub off : e.Outside → Type 0
  pub switches : (o : e.Outside) → off (draining e o)
  pub stays : (o : e.Outside) → off o → off (e.read32 skid_count o).1
  pub falls : (o : e.Outside) → off o → held (e.read32 skid_count o).1 ≤ held o - 1

-- What is documented of the clock: `getnstimeofday` reports the time in nanoseconds, which a
-- query moves on, no register read turns back, and no call moves by 2 ^ 60 ns (36 years).
pub record Clock (e : Env) : Type 0 where
  pub now : e.Outside → ℕ
  pub reports : (o : e.Outside) → nanoseconds (e.time o).0 ≡ now o
  pub normal : (o : e.Outside) → (e.time o).0.1 < 1_000_000_000
  pub query_after : (o : e.Outside) → now o < now (e.time o).1
  pub query_within : (o : e.Outside) → now (e.time o).1 ≤ now o + 2 ^ 60
  pub read_after : (off : ℕ) (o : e.Outside) → now o ≤ now (e.read32 off o).1
  pub read_within : (off : ℕ) (o : e.Outside) → now (e.read32 off o).1 ≤ now o + 2 ^ 60

module _ {e : Env} (c : Clock e) where
  -- The test of the loop asks whether the clock is past the limit.
  before_limit :
      (init : ℕ × ℕ) (max_time : ℕ) (o : e.Outside)
      → init.1 < 1_000_000_000
      → nanoseconds init ≤ c.now o
      → c.now o < nanoseconds init + 2 ^ 64
      → leb max_time (elapsed init (e.time o).0) ≡ false
      → c.now o < nanoseconds init + max_time
  before_limit init max_time o normal le fits early = omega (
    arith,
    c.reports o,
    leb→gt _ _ early,
    elapsed_lem init.0 init.1 (e.time o).0.0 (e.time o).0.1 normal (c.normal o)
        (omega (arith, c.reports o)) (omega (arith, c.reports o)),
  )

  abbrev Near : World e → Bool → World e → Type 0
  Near w more v = (c.now w.outside ≤ c.now v.outside) × (c.now v.outside ≤ c.now w.outside + 2 ^ 61)

  remaining-Near : (reg : ℕ) (w : World e) → Returns (Near w) (remaining reg w)
  unfolding remaining
  remaining-Near reg w = elim (Bool-cases ((e.read32 reg w.outside).0 == 0)) [
    | inl z ↦ rw z (
        omega (
          arith,
          c.read_after reg w.outside,
          c.read_within reg w.outside,
          c.read_after reg (e.read32 reg w.outside).1,
          c.read_within reg (e.read32 reg w.outside).1,
        ))
    | inr n ↦ rw n (omega (arith, c.read_after reg w.outside, c.read_within reg w.outside))
  ]

  -- The loop ends within the nanoseconds that are left to its limit.
  wait_s2m-Returns :
      (init : ℕ × ℕ) (max_time rounds : ℕ) (w : World e)
      → init.1 < 1_000_000_000
      → max_time ≤ 2 ^ 61
      → nanoseconds init ≤ c.now w.outside
      → c.now w.outside ≤ nanoseconds init + max_time + 2 ^ 61
      → 0 < rounds
      → nanoseconds init + max_time < rounds + c.now w.outside
      → Returns (Waited init max_time w) (wait_s2m init max_time rounds w)
  unfolding wait_s2m
  wait_s2m-Returns init max_time zero w hi hm after within pos enough = elim pos [ ]
  wait_s2m-Returns init max_time (suc rounds) w hi hm after within pos enough =
      bind (λ a v. Polled w a v × Near w a v) (Waited init max_time w) (λ _. ⊥)
        (remaining dma_s2m_wgo_rremaining w) _
        (both (Polled w) (Near w) (λ _. ⊥) _ (remaining-Polled (λ _. ⊥) w)
          (remaining-Near dma_s2m_wgo_rremaining w))
        λ more v k.
          wait_round-Waited (λ _. ⊥) init max_time rounds w v more
            (λ early.
              let soon : c.now v.outside < nanoseconds init + max_time =
                before_limit init max_time v.outside hi (omega arith) (omega arith) early in
              let later : c.now v.outside < c.now (tick v).outside = c.query_after v.outside in
              let near : c.now (tick v).outside ≤ c.now v.outside + 2 ^ 60 =
                c.query_within v.outside in
              wait_s2m-Returns init max_time rounds (tick v) hi hm (omega arith) (omega arith)
                (omega arith) (omega arith))
            k.0

  poll_s2m-Returns :
      (max_time rounds : ℕ) (w : World e)
      → max_time ≤ 2 ^ 61
      → max_time < rounds
      → Returns (Awaited max_time w) (poll_s2m max_time rounds w)
  unfolding poll_s2m
  poll_s2m-Returns max_time rounds w hm enough =
      let o : e.Outside = (e.time w.outside).1 in
      let near : c.now o ≤ c.now w.outside + 2 ^ 60 = c.query_within w.outside in
      let later : c.now w.outside < c.now o = c.query_after w.outside in
      let shown : nanoseconds (e.time w.outside).0 ≡ c.now w.outside = c.reports w.outside in
      let near' : c.now (e.read32 dma_s2m_wgo_rremaining o).1 ≤ c.now o + 2 ^ 60 =
        c.read_within dma_s2m_wgo_rremaining o in
      let later' : c.now o ≤ c.now (e.read32 dma_s2m_wgo_rremaining o).1 =
        c.read_after dma_s2m_wgo_rremaining o in
      wait_s2m-Returns (e.time w.outside).0 max_time rounds _ (c.normal w.outside) hm (omega arith)
        (omega arith) (omega arith) (omega arith)

module _ {e : Env} (d : Drains e) where
  drain_skid-Returns :
      (rounds : ℕ) (w : World e)
      → d.off w.outside
      → d.held w.outside < rounds
      → Returns (λ _. Keeps w) (drain_skid rounds w)
  unfolding drain_skid
  drain_skid-Returns zero w off h = elim h [ ]
  drain_skid-Returns (suc rounds) w off h =
      elim (Bool-cases (ltb 0 (e.read32 skid_count w.outside).0)) [
        | inl more ↦ rw more (
            drain_skid-Returns rounds _ (d.stays _ (d.stays _ off)) (
              let o : e.Outside = (e.read32 skid_count w.outside).1 in
              let once : d.held o ≤ d.held w.outside - 1 = d.falls w.outside off in
              let twice : d.held (e.read32 skid_count o).1 ≤ d.held o - 1 =
                d.falls o (d.stays _ off) in
              omega (arith, d.reports w.outside, ltb→lt 0 _ more)))
        | inr over ↦ rw over (refl, refl, refl, refl)
      ]

-- On a clock that moves and with a skid buffer that drains, a read of fewer than 2 ^ 32 bytes from
-- an unlocked driver returns, whatever else the device does, once it may poll more often than the skid buffer is
-- deep and than its limit has nanoseconds.
pub baseband_read-Returns :
    {e : Env} (c : Clock e) (d : Drains e) (rounds user size : ℕ) (w : World e)
    → size < 2 ^ 32
    → d.depth < rounds
    → 5_000_000_000 + 400 * (size / 4) < rounds
    → w.locked ≡ false
    → Returns (Left user size w) (baseband_read rounds user size w)
baseband_read-Returns c d rounds user size w word deep long unlocked =
    let limit : estimate_max_time size ≡ 5_000_000_000 + 400 * (size / 4) =
      estimate_max_time_bounds size word in
    read-Left (λ _. ⊥) rounds user size
      (λ o v now.
        drain_skid-Returns d rounds v (rw now (d.switches o)) (omega (arith, d.bounded v.outside)))
      (λ v. poll_s2m-Returns c _ rounds v (omega arith) (omega arith)) w unlocked

same_buffer : {b b' : Buffer} → some b ≡ some b' → b ≡ b'
same_buffer h = cc

module _ {e : Env} where
  -- With memory for the buffer and no end of the transfer, one way out is left.
  only_timeout :
      (user size : ℕ) (w v : World e) (b : Buffer) {r : Ret}
      → NeverDone e
      → (e.dma_alloc size w.outside).0 ≡ some b
      → ReadEnd user size w v r
      → (r ≡ error efault) × (v.locked ≡ true) × (v.writes ≡ armed size b w.writes)
  only_timeout user size w v b never got (no_memory null _ _) = absurd (cc)
  only_timeout user size w v b never got (copied _ o _ _ ended _ _ _ _) = absurd (never o ended.0)
  only_timeout user size w v b never got (copy_failed _ o _ _ ended _ _ _ _) =
      absurd (never o ended.0)
  only_timeout user size w v b never got (timed_out b' o got' late locked log) =
      (refl, locked, rw (same_buffer (sym got ∙ got')) log)

-- On a clock that moves and with a skid buffer that drains, a read of fewer than 2 ^ 32 bytes from
-- an unlocked driver, with memory for the buffer, of a device that never reports the end, returns
-- `-EFAULT` with the lock held, once it may poll more often than the skid buffer is deep and than
-- its limit has nanoseconds. The last writes to the device are those that start the transfer of this
-- size to its buffer, and none stops it, while the buffers that are live are those from before.
pub baseband_read_timeout :
    {e : Env} (c : Clock e) (d : Drains e) (rounds user size : ℕ) (w : World e) (b : Buffer)
    → size < 2 ^ 32
    → d.depth < rounds
    → 5_000_000_000 + 400 * (size / 4) < rounds
    → w.locked ≡ false
    → NeverDone e
    → (e.dma_alloc size w.outside).0 ≡ some b
    → Returns
        (λ r v.
          (r ≡ error efault)
          × (v.locked ≡ true)
          × (v.writes ≡ armed size b w.writes)
          × (v.live ≡ w.live))
        (baseband_read rounds user size w)
baseband_read_timeout c d rounds user size w b word deep long unlocked never got =
    mono (Left user size w) _ (λ _. ⊥) _
      (baseband_read-Returns c d rounds user size w word deep long unlocked)
      λ r v left. let (a, l, g) = only_timeout user size w v b never got left.0 in (a, l, g, left.1)
