-- ===== src/Programs/Switch.antt =====
-- sw/txtest.c switches the transmitter.
use adi_bbp.Common.{ℕ, ◌<◌, ◌≡◌, ◌⊎◌, List, Bool, false, [], ◌∷◌, ◌==◌, if◌then◌else◌}
use adi_bbp.Programs.{Core}

-- Two one-bit registers, at 0x200 and 0x201, that hold what is written. No read and no write to
-- another register changes a register.
pub record Holds (core : Core) : Type 0 where
  pub reg : (index : ℕ) → core.State → ℕ
  pub reads : (index : ℕ) (s : core.State) → core.read index s ≡ (reg index s, s)
  pub writes :
      (index value : ℕ) (s : core.State)
      → (index ≡ 0x200) ⊎ (index ≡ 0x201)
      → value < 2
      → reg index (core.write index value s) ≡ value
  pub spares :
      (index other value : ℕ) (s : core.State)
      → (other == index) ≡ false
      → reg other (core.write index value s) ≡ reg other s

module _ {core : Core} (h : Holds core) where
  -- How the program leaves the device when it is called with `argc` words.
  abbrev pub Switched : (argc : ℕ) (s : core.State) → List ℕ → core.State → Type 0
  Switched argc s words s' =
      let on : Bool = argc == 1 in
      let reset : ℕ = if on then 0 else 1 in
      let enable : ℕ = if on then 1 else 0 in
      (words ≡ h.reg 0 s ∷ h.reg 0x200 s ∷ h.reg 0x201 s ∷ reset ∷ enable ∷ [])
      × (h.reg 0x200 s' ≡ reset)
      × (h.reg 0x201 s' ≡ enable)
      × ((other : ℕ)
          → (other == 0x200) ≡ false
          → (other == 0x201) ≡ false
          → h.reg other s' ≡ h.reg other s)
