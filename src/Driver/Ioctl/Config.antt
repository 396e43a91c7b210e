-- ===== src/Driver/Ioctl/Config.antt =====
-- What `IOCTL_RX_CONF`, `IOCTL_SCRATCH_WRITE` and `IOCTL_TX_ENABLE` of
-- boot/baseband/baseband.c write.
use Prim.Native.Nat.{bit_or}
use adi_bbp.Common.{
  ℕ, zero, suc, ◌+◌, ◌*◌, ◌/◌, ◌%◌, ◌≤◌, ◌<◌, ◌≡◌, ◌≢◌, refl, ap, ◌∙◌, false, some, List, ◌∷◌, ◌==◌,
  if◌then◌else◌, Bool-cases, inl, inr, ==_refl, ==→eq, ==_ne, arith,
}
use adi_bbp.Driver.Regs.{word, ram_base, time_rx_base, enable_tx}
use adi_bbp.Driver.World.{Env, World, Access, value}
use adi_bbp.Driver.Ends.{Returns, bind}
use adi_bbp.Driver.Ioctl.{write_words, rx_conf, scratch_write, tx_enable}
use adi_bbp.Driver.Ioctl.Loops.{logged}
use adi_bbp.Driver.Ioctl.Route.{latest}

-- What is documented of the kernel's memory: `copy_from_user` that returns 0 has copied each
-- word of the user's, `kmalloc` changes no word of the user's, and a register write no word of
-- a buffer.
pub record Memory (e : Env) : Type 0 where
  pub user_word : (user i : ℕ) → e.Outside → ℕ
  pub copied :
      (buf user size i : ℕ) (o : e.Outside)
      → 4 * i + 4 ≤ size
      → (e.copy_from_user buf user size o).0 ≡ 0
      → e.load buf i (e.copy_from_user buf user size o).1 ≡ user_word user i o
  pub kmalloc_spares :
      (user i size : ℕ) (o : e.Outside) → user_word user i (e.kmalloc size o).1 ≡ user_word user i o
  pub write_spares :
      (buf i v off : ℕ) (o : e.Outside) → e.load buf i (e.write32 v off o) ≡ e.load buf i o

-- A later loop leaves the registers below its first one alone.
latest-logged_below :
    (f : ℕ → ℕ) (base left i j : ℕ) (log : List Access)
    → j < i
    → latest (base + word j) (logged f base i left log) ≡ latest (base + word j) log
unfolding logged latest
latest-logged_below f base zero i j log below = refl
latest-logged_below f base (suc left) i j log below =
    latest-logged_below f base left (i + 1) j _ (omega arith)
    ∙ rw (==_ne (base + word i) (base + word j) (omega arith))

-- After the loop the register at each place holds the word of that place.
latest-logged :
    (f : ℕ → ℕ) (base left i j : ℕ) (log : List Access)
    → i ≤ j
    → j < i + left
    → latest (base + word j) (logged f base i left log) ≡ some (f j)
unfolding logged latest
latest-logged f base zero i j log from below = absurd (omega arith)
latest-logged f base (suc left) i j log from below = elim (Bool-cases (i == j)) [
  | inl here ↦
      latest-logged_below f base left (i + 1) j _ (ground arith)
      ∙ rw (==→eq i j here, ==_refl (base + word j))
  | inr later ↦ latest-logged f base left (i + 1) j _ (ground arith) (omega arith)
]

module _ {e : Env} (m : Memory e) where
  write_words-logged :
      (f : ℕ → ℕ) (left base kbuf i : ℕ) (w : World e)
      → ((j : ℕ) → j < i + left → e.load kbuf j w.outside ≡ f j)
      → Returns (λ _ v. v.writes ≡ logged f base i left w.writes) (write_words base kbuf i left w)
  unfolding write_words logged
  write_words-logged f zero base kbuf i w same = refl
  write_words-logged f (suc left) base kbuf i w same = rw (same i (omega arith)) (
      write_words-logged f left base kbuf (i + 1) _
        λ j below. m.write_spares kbuf j _ _ _ ∙ same j (omega arith))

  -- From an unlocked driver with memory for the words and a copy that succeeds, the command
  -- returns 0 with the lock free, and each of the eleven registers of the receiver was last given
  -- the user's word of its place.
  pub rx_conf_lem :
      (arg p : ℕ) (w : World e)
      → w.locked ≡ false
      → (e.kmalloc (4 * 11) w.outside).0 ≡ some p
      → (e.copy_from_user p arg (4 * 11) (e.kmalloc (4 * 11) w.outside).1).0 ≡ 0
      → Returns
          (λ r v.
            (r ≡ value 0)
            × (v.locked ≡ false)
            × ((j : ℕ)
                → j < 11
                → latest (time_rx_base + word j) v.writes ≡ some (m.user_word arg j w.outside)))
          (rx_conf arg w)
  unfolding rx_conf
  rx_conf_lem arg p w unlocked got whole =
      rw (unlocked, got)
        (bind _ _ (λ _. ⊥) (write_words time_rx_base p 0 11 _) _
          (write_words-logged (λ j. m.user_word arg j w.outside) 11 time_rx_base p 0 _
            λ j below. m.copied p arg (4 * 11) j _ (omega arith) whole ∙ m.kmalloc_spares arg j _ _)
          λ _ v log. (
            refl,
            refl,
            λ j below.
                ap (latest (time_rx_base + word j)) log
                ∙ latest-logged _ time_rx_base 11 0 j _ (omega arith) (omega arith),
          ))

  -- With memory for the words and a copy that succeeds, the command returns 0, and each of the
  -- 4096 registers of the scratchpad was last given the user's word of its place.
  pub scratch_write_lem :
      (arg p : ℕ) (w : World e)
      → (e.kmalloc (4096 * 4) w.outside).0 ≡ some p
      → (e.copy_from_user p arg (4096 * 4) (e.kmalloc (4096 * 4) w.outside).1).0 ≡ 0
      → Returns
          (λ r v.
            (r ≡ value 0)
            × ((j : ℕ)
                → j < 4096
                → latest (ram_base + word j) v.writes ≡ some (m.user_word arg j w.outside)))
          (scratch_write arg w)
  unfolding scratch_write
  scratch_write_lem arg p w got whole = rw got (
      bind _ _ (λ _. ⊥) (write_words ram_base p 0 4096 _) _
        (write_words-logged (λ j. m.user_word arg j w.outside) 4096 ram_base p 0 _
          λ j below. m.copied p arg (4096 * 4) j _ (omega arith) whole ∙ m.kmalloc_spares arg j _ _)
        λ _ v log. (
          refl,
          λ j below.
              ap (latest (ram_base + word j)) log
              ∙ latest-logged _ ram_base 4096 0 j _ (omega arith) (omega arith),
        ))

-- What is documented of the registers behind `ENABLE_TX` of src/main/scala/baseband/Baseband.scala: the
-- first two hold one bit each. A read gives the bit that was written last; no read changes it, and
-- no write to another register.
pub record EnableRegisters (e : Env) : Type 0 where
  pub reg : ℕ → e.Outside → ℕ
  pub reads :
      (i : ℕ) (o : e.Outside)
      → i < 2
      → (e.read32 (enable_tx + word i) o).0 ≡ reg (enable_tx + word i) o
  pub read_spares :
      (i off : ℕ) (o : e.Outside)
      → i < 2
      → reg (enable_tx + word i) (e.read32 off o).1 ≡ reg (enable_tx + word i) o
  pub writes :
      (i v : ℕ) (o : e.Outside)
      → i < 2
      → v < 2
      → reg (enable_tx + word i) (e.write32 v (enable_tx + word i) o) ≡ v
  pub write_spares :
      (i off v : ℕ) (o : e.Outside)
      → i < 2
      → off ≢ enable_tx + word i
      → reg (enable_tx + word i) (e.write32 v off o) ≡ reg (enable_tx + word i) o

tx_bits :
    (arg a b : ℕ)
    → a ≡ arg % 2
    → b ≡ arg / 2 % 2
    → (if b == 0 then (if a == 0 then 0 else 1) else bit_or (if a == 0 then 0 else 1) 2) ≡ arg % 4
tx_bits arg a b p q = elim (Bool-cases (b == 0)) [
  | inl z ↦ rw z (ground arith)
  | inr n ↦
      rw n (elim (Bool-cases (a == 0)) [
        | inl z' ↦ rw z' (ground arith)
        | inr n' ↦ rw n' (ground arith)
      ])
]

-- What `IOCTL_TX_ENABLE` does besides its reply: one write to each of the two registers, the first
-- one first, which then hold the bits; buffers and lock are as before.
abbrev pub Enabled : {e : Env} (d : EnableRegisters e) (mask : ℕ) (w v : World e) → Type 0
Enabled d mask w v =
    (d.reg enable_tx v.outside ≡ mask % 2)
    × (d.reg (enable_tx + 4) v.outside ≡ mask / 2 % 2)
    × (v.writes ≡ (enable_tx + 4, mask / 2 % 2) ∷ (enable_tx, mask % 2) ∷ w.writes)
    × (v.live ≡ w.live)
    × (v.locked ≡ w.locked)

-- Where the two enable registers hold the bits that are written, the command writes the two low
-- bits of its argument to them, whatever the other bits are, and returns just these. It writes no
-- other register, and buffers and lock are as before.
pub tx_enable_lem :
    {e : Env} (d : EnableRegisters e) (arg : ℕ) (w : World e)
    → Returns (λ r v. (r ≡ value (arg % 4)) × Enabled d arg w v) (tx_enable arg w)
unfolding tx_enable
tx_enable_lem {e} d arg w =
    let o₁ : e.Outside = e.write32 (arg % 2) enable_tx w.outside in
    let o₂ : e.Outside = e.write32 (arg / 2 % 2) (enable_tx + 4) o₁ in
    let o₃ : e.Outside = (e.read32 enable_tx o₂).1 in
    let low : d.reg enable_tx o₂ ≡ arg % 2 =
      d.write_spares 0 (enable_tx + 4) _ o₁ (omega arith) (omega arith)
      ∙ d.writes 0 _ w.outside (omega arith) (omega arith) in
    let high : d.reg (enable_tx + 4) o₂ ≡ arg / 2 % 2 =
      d.writes 1 _ o₁ (omega arith) (omega arith) in
    let low' : d.reg enable_tx o₃ ≡ arg % 2 = d.read_spares 0 _ o₂ (omega arith) ∙ low in
    let high' : d.reg (enable_tx + 4) o₃ ≡ arg / 2 % 2 =
      d.read_spares 1 _ o₂ (omega arith) ∙ high in
    (
      ap value
          (tx_bits arg _ _ (d.reads 0 o₂ (omega arith) ∙ low) (d.reads 1 o₃ (omega arith) ∙ high')),
      (
        d.read_spares 0 _ o₃ (omega arith) ∙ low',
        d.read_spares 1 _ o₃ (omega arith) ∙ high',
        refl,
        refl,
        refl,
      ),
    )
