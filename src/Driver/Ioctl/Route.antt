-- ===== src/Driver/Ioctl/Route.antt =====
-- `IOCTL_RX_USE_BASEBAND` of boot/baseband/baseband.c: the splitter and the input mux.
use adi_bbp.Common.{
  ℕ, ◌≡◌, refl, Bool, true, false, not, Option, none, some, List, [], ◌∷◌, ◌==◌, if◌then◌else◌,
  Bool-cases, inl, inr, arith,
}
use adi_bbp.Driver.Regs.{stream_out_sel, splitter_bb_sel, splitter_bypass_sel}
use adi_bbp.Driver.World.{Env, World, Access, Ret, value}
use adi_bbp.Driver.Ends.{Returns}
use adi_bbp.Driver.Ioctl.{rx_use_baseband}

-- The value that a register was given last.
unfoldable pub latest : ℕ → List Access → Option ℕ
latest off [] = none
latest off ((reg, v) ∷ log) = if reg == off then some v else latest off log

-- 0 in a select register of the splitter lets the samples through.
abbrev pub Open : ℕ → List Access → Type 0
Open sel log = latest sel log ≡ some 0

-- The splitter does not feed both the baseband and the bypass.
abbrev pub AtMostOne : List Access → Type 0
AtMostOne log = Open splitter_bb_sel log → Open splitter_bypass_sel log → ⊥

-- `P` holds of every log from the older one on.
pub data Since (P : List Access → Type 0) (old : List Access) : List Access → Type 0 where
  here : P old → Since P old old
  next : (a : Access) {log : List Access} → P (a ∷ log) → Since P old log → Since P old (a ∷ log)

-- The mux takes the path that the splitter feeds.
abbrev pub Routed : (use_baseband : Bool) → List Access → Type 0
Routed true log =
    Open splitter_bb_sel log
    × (latest splitter_bypass_sel log ≡ some 1)
    × (latest stream_out_sel log ≡ some 0)
Routed false log =
    Open splitter_bypass_sel log
    × (latest splitter_bb_sel log ≡ some 1)
    × (latest stream_out_sel log ≡ some 1)

module _ {e : Env} where
  abbrev pub Switched : (arg : ℕ) → World e → Ret → World e → Type 0
  Switched arg w r v =
      (r ≡ value 0)
      × (v.locked ≡ false)
      × (v.rx_enabled ≡ not (arg == 0))
      × Routed (not (arg == 0)) v.writes
      × Since AtMostOne w.writes v.writes

  -- From an unlocked driver whose splitter feeds at most one path, the command returns 0 with
  -- the lock free; the splitter then feeds the baseband if `arg` is not 0 and the bypass if it
  -- is, the mux takes that path, and after no write on the way did the splitter feed both.
  pub rx_use_baseband-Switched :
      (arg : ℕ) (w : World e)
      → w.locked ≡ false
      → AtMostOne w.writes
      → Returns (Switched arg w) (rx_use_baseband arg w)
  unfolding rx_use_baseband latest
  rx_use_baseband-Switched arg w unlocked one = elim (Bool-cases (arg == 0)) [
    | inl bypass ↦
        rw (unlocked, bypass)
          (rw bypass (
            refl,
            refl,
            refl,
            (refl, refl, refl),
            next _ (λ a b. ground arith)
                (next _ (λ a b. ground arith) (next _ (λ a b. ground arith) (here one))),
          ))
    | inr baseband ↦
        rw (unlocked, baseband)
          (rw baseband (
            refl,
            refl,
            refl,
            (refl, refl, refl),
            next _ (λ a b. ground arith)
                (next _ (λ a b. ground arith) (next _ (λ a b. ground arith) (here one))),
          ))
  ]
