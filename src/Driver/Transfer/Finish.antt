-- ===== src/Driver/Transfer/Finish.antt =====
-- `baseband_write` of boot/baseband/baseband.c returns where the device ends its transfers.
use adi_bbp.Common.{
  ℕ, zero, suc, ◌+◌, ◌-◌, ◌<◌, ◌≤◌, ◌≡◌, refl, not, inl, inr, Bool, true, false, Bool-cases, ◌==◌,
  ==→eq, ==→ne, if◌then◌else◌, Option-cases, arith,
}
use adi_bbp.Common.Run.{Run, done, blocked, fault, polling}
use adi_bbp.Driver.Regs.{dma_m2s_wgo_rremaining}
use adi_bbp.Driver.World
use adi_bbp.Driver.World.{Env, World, value, error, einval, Cmd, pure, ◌>>=◌, ◌>>◌, udelay}
use adi_bbp.Driver.Ends.{Ends, Returns, Any, bind}
use adi_bbp.Driver.Transfer.{u32, remaining, wait_m2s, start_m2s, baseband_write}
use adi_bbp.Driver.Transfer.Write.{Written, baseband_write-Written}

-- The device ends a transfer from memory after at most `most` looks at the register with what is
-- left of it: `left` is the number of looks that find something left.
pub record Finishes (e : Env) : Type 0 where
  pub most : ℕ
  pub left : e.Outside → ℕ
  pub bounded : (o : e.Outside) → left o ≤ most
  pub reports : (o : e.Outside) → left o ≡ 0 → (e.read32 dma_m2s_wgo_rremaining o).0 ≡ 0
  pub falls : (o : e.Outside) → left (e.read32 dma_m2s_wgo_rremaining o).1 ≤ left o - 1
  pub waits : (n : ℕ) (o : e.Outside) → left (e.udelay n o) ≤ left o

-- A command that does not poll for ever, with what is known of it if it returns.
returns :
    {W A : Type 0} (P : A → W → Type 0) (r : Run W A)
    → Ends P Any r
    → Returns (λ _ _. Unit {0}) r
    → Returns P r
returns P (done a w) p q = p
returns P (blocked w) p q = q
returns P (fault w) p q = q
returns P (polling w) p q = q

abbrev Back : {W A : Type 0} → Run W A → Type 0
Back r = Returns (λ _ _. Unit {0}) r

module _ {e : Env} (f : Finishes e) where
  -- A look that finds something left is one of those that the device still has.
  look-falls :
      (o : e.Outside)
      → ((e.read32 dma_m2s_wgo_rremaining o).0 == 0) ≡ false
      → f.left (e.read32 dma_m2s_wgo_rremaining o).1 + 1 ≤ f.left o
  look-falls o some_left = elim (Bool-cases (f.left o == 0)) [
    | inl over ↦ absurd (
        ==→ne (e.read32 dma_m2s_wgo_rremaining o).0 0 some_left
          (f.reports o (==→eq (f.left o) 0 over)))
    | inr on ↦ omega (arith, f.falls o, ==→ne (f.left o) 0 on)
  ]

  not-true : (b : Bool) → not b ≡ true → b ≡ false
  not-true true h = absurd cc
  not-true false h = refl

  remaining-falls :
      (w : World e)
      → Returns
          (λ more v. more ≡ true → f.left v.outside + 1 ≤ f.left w.outside)
          (remaining dma_m2s_wgo_rremaining w)
  unfolding remaining
  remaining-falls w =
      let (first, o) = e.read32 dma_m2s_wgo_rremaining w.outside in
      elim (Bool-cases (first == 0)) [
        | inr some_left ↦ rw some_left (λ _. look-falls w.outside some_left)
        | inl none_left ↦
            rw none_left (λ more. omega (arith, f.falls w.outside, look-falls o (not-true _ more)))
      ]

  wait_m2s-Back :
      (rounds wait_cnt : ℕ) (w : World e)
      → f.left w.outside < rounds
      → Back (wait_m2s wait_cnt rounds w)
  unfolding wait_m2s
  wait_m2s-Back zero wait_cnt w enough = absurd (omega arith)
  wait_m2s-Back (suc rounds) wait_cnt w enough =
      bind _ (λ _ _. Unit {0}) (λ _. ⊥) (remaining dma_m2s_wgo_rremaining w) _ (remaining-falls w)
        λ more v falls. elim (Bool-cases more) [
          | inr ended ↦ rw ended tt
          | inl on ↦ rw on (
              wait_m2s-Back rounds (u32 (wait_cnt + 1)) _
                (omega (arith, f.waits 1 v.outside, falls on)))
        ]

  started-Back :
      (rounds dbuf size p : ℕ) (w : World e)
      → f.most < rounds
      → Back (
          (start_m2s dbuf size
              >> (World.ioread32 dma_m2s_wgo_rremaining >>= λ _. wait_m2s 0 rounds >>= λ wait_cnt.
                  if wait_cnt == 1_000_000
                  then (World.free p >> pure (error einval))
                  else (World.free p >> pure (value size))))
            w)
  unfolding start_m2s
  started-Back rounds dbuf size p w enough =
      bind _ (λ _ _. Unit {0}) (λ _. ⊥) (wait_m2s 0 rounds _) _
        (wait_m2s-Back rounds 0 _ (omega (arith, f.bounded _)))
        λ wait_cnt v _. elim (Bool-cases (wait_cnt == 1_000_000)) [
          | inl million ↦ rw million tt
          | inr fine ↦ rw fine tt
        ]

  baseband_write-Back :
      (rounds user size : ℕ) (w : World e)
      → f.most < rounds
      → Back (baseband_write rounds user size w)
  unfolding baseband_write
  baseband_write-Back rounds user size w enough =
      elim (Option-cases (e.dma_alloc size w.outside).0) [
        | inl null ↦ rw null tt
        | inr (b, got) ↦
            rw got
              (elim (Bool-cases
                ((e.copy_from_user b.kbuf user size (e.dma_alloc size w.outside).1).0 == 0)) [
                  | inr short ↦ rw short tt
                  | inl whole ↦ rw whole (started-Back rounds b.dbuf size b.kbuf _ enough)
                ])
      ]

-- On a device that ends a transfer after at most `most` looks that find something left, more rounds
-- than these are enough for a write to return, which it does in one of four ways: with `-EINVAL`
-- and no register written, without memory for its buffer or where the copy of the user's data is
-- not whole; else after just the four writes that start the transfer of its buffer, with its size
-- or with `-EINVAL`. Each way frees the buffer and leaves the lock as it was.
pub baseband_write-Returns :
    {e : Env} (f : Finishes e) (rounds user size : ℕ) (w : World e)
    → f.most < rounds
    → Returns (Written user size w) (baseband_write rounds user size w)
baseband_write-Returns f rounds user size w enough =
    returns (Written user size w) _ (baseband_write-Written rounds user size w)
      (baseband_write-Back f rounds user size w enough)
