-- ===== src/User/Device.antt =====
-- The calls of sw/baseband.c on the driver of boot/baseband/baseband.c: the whole path from a
-- program to the registers.
use adi_bbp.Common.{
  ℕ, zero, suc, ◌+◌, ◌*◌, ◌%◌, ◌^◌, ◌-◌, ◌<◌, ◌≡◌, refl, ap, ◌∙◌, false, not, some, List, [], ◌∷◌,
  ltb, ◌==◌, ==_refl, ==_ne, Bool-cases, inl, inr, ltb→lt, ltb→le, ge→ltb, if◌then◌else◌, arith,
}
use adi_bbp.Common.Double.{Double}
use adi_bbp.Common.Run.{done, pure, ◌>>=◌}
use adi_bbp.Driver.Regs.{
  word, time_rx_base, enable_tx, ioctl_tx_enable, ioctl_rx_conf, ioctl_rx_use_baseband,
}
use adi_bbp.Driver.World.{Env, World, Ret, value, error}
use adi_bbp.Driver.Ends.{Returns, bind}
use adi_bbp.Driver.Ioctl.{baseband_ioctl, test_plus_one}
use adi_bbp.Driver.Ioctl.Route.{latest, Routed, AtMostOne, Since, rx_use_baseband-Switched}
use adi_bbp.Driver.Ioctl.Config.{Memory, EnableRegisters, Enabled, rx_conf_lem, tx_enable_lem}
use adi_bbp.User.{
  System, words, tx_enable_error, rx_conf_error, use_rx_error, report, checked, negative, tx_enable,
  set_use_rx, test_bb, configuration, set_rx_config, fixed_point_representation,
}
use adi_bbp.User.Laws.{test_bb_silent}

-- The C library's `ioctl`: a reply of the kernel from -4095 to -1 is an error, and gives -1.
unfoldable pub reply : Ret → ℕ
reply (value v) = if ltb (2 ^ 32 - 4096) (v % 2 ^ 32) then 2 ^ 32 - 1 else v % 2 ^ 32
reply (error n) = 2 ^ 32 - 1

unfoldable pub nth : List ℕ → ℕ → ℕ
nth [] j = 0
nth (w ∷ ws) zero = w
nth (w ∷ ws) (suc j) = nth ws j

-- A struct on the stack of the program: `place` gives the address, at which the user's memory then
-- has the words of the struct. It changes nothing else that the driver looks at.
pub record Placing (e : Env) (m : Memory e) : Type 0 where
  pub place : List ℕ → e.Outside → ℕ × e.Outside
  pub placed :
      (ws : List ℕ) (o : e.Outside) (j : ℕ) → m.user_word (place ws o).0 j (place ws o).1 ≡ nth ws j

-- The register behind the test command holds the number that was written, and one more.
abbrev pub Adder : Env → Type 0
Adder e =
    (i : ℕ) (o : e.Outside)
    → i < 30
    → (e.read32 (enable_tx + word 2) (e.write32 i (enable_tx + word 2) o)).0 ≡ i + 1

reply-small : (n : ℕ) → n < 4096 → reply (value n) ≡ n
unfolding reply
reply-small n small =
    let low : n % 2 ^ 32 ≡ n = omega arith in rw (low, ge→ltb (2 ^ 32 - 4096) n (omega arith)) refl

report-mask :
    (mask : ℕ)
    → report (not (mask % 4 == mask)) tx_enable_error
      ≡ (if ltb mask 4 then [] else tx_enable_error ∷ [])
unfolding report
report-mask mask = elim (Bool-cases (ltb mask 4)) [
  | inl small ↦
      let low : mask % 4 ≡ mask = omega (arith, ltb→lt mask 4 small) in
      rw (small, low, ==_refl mask) refl
  | inr large ↦ rw (large, ==_ne (mask % 4) mask (omega (arith, ltb→le mask 4 large))) refl
]

module _ {e : Env} {m : Memory e} (p : Placing e m) where
  -- The system of a program whose calls go to the driver.
  abbrev pub system : System
  system = record {
    State = World e;
    ioctl = λ fd cmd arg. baseband_ioctl cmd arg >>= λ r. pure (reply r);
    on_stack =
        λ ws w. done (p.place ws w.outside).0 (record w { outside = (p.place ws w.outside).1 });
  }

  pub ioctl-Returns :
      (fd cmd arg : ℕ) (w : World e) (P : Ret → World e → Type 0) (Q : ℕ → World e → Type 0)
      → Returns P (baseband_ioctl cmd arg w)
      → ((r : Ret) (v : World e) → P r v → Q (reply r) v)
      → Returns Q (system.ioctl fd cmd arg w)
  ioctl-Returns fd cmd arg w P Q run weaken =
      bind P Q (λ _. ⊥) (baseband_ioctl cmd arg w) (λ r. pure (reply r)) run weaken

  -- On the two one-bit registers, `tx_enable` writes the two low bits of its mask to them whatever
  -- the others are, and no other register, leaves buffers and lock as they were, and prints its error
  -- exactly for masks of 4 and more.
  pub tx_enable-device :
      (d : EnableRegisters e) (fd mask : ℕ) (w : World e)
      → Returns
          (λ msgs v.
            (msgs ≡ (if ltb mask 4 then [] else tx_enable_error ∷ [])) × Enabled d mask w v)
          (tx_enable system fd mask w)
  unfolding tx_enable baseband_ioctl
  tx_enable-device d fd mask w =
      bind (λ r v. (r ≡ mask % 4) × Enabled d mask w v) _ (λ _. ⊥)
        (system.ioctl fd ioctl_tx_enable mask w)
        (λ r. pure (report (not (r == mask)) tx_enable_error))
        (ioctl-Returns fd ioctl_tx_enable mask w _ _ (tx_enable_lem d mask w)
          λ r v k. (ap reply k.0 ∙ reply-small (mask % 4) (omega arith), k.1))
        λ r v k. (rw k.0 (report-mask mask), k.1)

  -- The registers of the receiver, the first one first.
  abbrev pub registers :
      (d : Double) (ff threshold offset multiplier : d.D)
      (apart overlap num_peaks peak_distance length drop delay : ℕ)
      → List ℕ
  registers d ff threshold offset multiplier apart overlap num_peaks peak_distance length drop
        delay =
      let fixed : d.D → ℕ = λ x. d.to_int32 (d.mul x (d.of_ℕ (2 ^ 17))) % 2 ^ 32 in
      fixed ff
      ∷ fixed threshold
      ∷ fixed offset
      ∷ fixed multiplier
      ∷ apart
      ∷ overlap
      ∷ num_peaks
      ∷ peak_distance
      ∷ length
      ∷ drop
      ∷ delay
      ∷ []

  -- With the lock free, memory for the words and a copy that succeeds, `set_rx_config` is silent,
  -- leaves the lock free, and each of the eleven registers of the receiver has last been given the
  -- argument for its place, the first four in fixed point with 17 bits behind the point.
  pub set_rx_config-device :
      (d : Double) (fd buf : ℕ) (ff threshold offset multiplier : d.D)
      (apart overlap num_peaks peak_distance length drop delay : ℕ) (w : World e)
      → w.locked ≡ false
      → (let ws : List ℕ =
            registers d ff threshold offset multiplier apart overlap num_peaks peak_distance length
              drop delay in
          let (address, o) = p.place ws w.outside in
          ((e.kmalloc (4 * 11) o).0 ≡ some buf)
          × ((e.copy_from_user buf address (4 * 11) (e.kmalloc (4 * 11) o).1).0 ≡ 0))
      → Returns
          (λ msgs v.
            (msgs ≡ [])
            × (v.locked ≡ false)
            × ((j : ℕ)
                → j < 11
                → latest (time_rx_base + word j) v.writes
                  ≡ some (
                      nth
                        (registers d ff threshold offset multiplier apart overlap num_peaks
                          peak_distance length drop delay)
                        j)))
          (set_rx_config system d fd ff threshold offset multiplier apart overlap num_peaks
            peak_distance length drop delay w)
  unfolding set_rx_config configuration words fixed_point_representation checked baseband_ioctl
      negative report
  set_rx_config-device d fd buf ff threshold offset multiplier apart overlap num_peaks peak_distance
        length drop delay w unlocked (memory, copy) =
      let ws : List ℕ =
        registers d ff threshold offset multiplier apart overlap num_peaks peak_distance length drop
          delay in
      let address : ℕ = (p.place ws w.outside).0 in
      let w' : World e = record w { outside = (p.place ws w.outside).1 } in
      bind
        (λ r v.
          (r ≡ 0)
          × (v.locked ≡ false)
          × ((j : ℕ) → j < 11 → latest (time_rx_base + word j) v.writes ≡ some (nth ws j)))
        _ (λ _. ⊥) (system.ioctl fd ioctl_rx_conf address w')
        (λ r. pure (report (negative r) rx_conf_error))
        (ioctl-Returns fd ioctl_rx_conf address w' _ _
          (rx_conf_lem m address buf w' unlocked memory copy)
          λ r v k. (
            ap reply k.0 ∙ reply-small 0 (omega arith),
            k.1,
            λ j below. k.2 j below ∙ ap some (p.placed ws w.outside j),
          ))
        λ r v k. (rw k.0 refl, k.1, k.2)

  -- With the lock free and a splitter that feeds at most one path, `set_use_rx` is silent, leaves
  -- the lock free, and the samples go through the baseband exactly if `en` is not 0; after no write
  -- on the way did the splitter feed both paths.
  pub set_use_rx-device :
      (fd en : ℕ) (w : World e)
      → w.locked ≡ false
      → AtMostOne w.writes
      → Returns
          (λ msgs v.
            (msgs ≡ [])
            × (v.locked ≡ false)
            × Routed (not (en == 0)) v.writes
            × Since AtMostOne w.writes v.writes)
          (set_use_rx system fd en w)
  unfolding set_use_rx checked baseband_ioctl negative report
  set_use_rx-device fd en w unlocked one =
      bind
        (λ r v.
          (r ≡ 0)
          × (v.locked ≡ false)
          × Routed (not (en == 0)) v.writes
          × Since AtMostOne w.writes v.writes)
        _ (λ _. ⊥) (system.ioctl fd ioctl_rx_use_baseband en w)
        (λ r. pure (report (negative r) use_rx_error))
        (ioctl-Returns fd ioctl_rx_use_baseband en w _ _
          (rx_use_baseband-Switched en w unlocked one)
          λ r v k. (ap reply k.0 ∙ reply-small 0 (omega arith), k.1, k.3, k.4))
        λ r v k. (rw k.0 refl, k.1, k.2, k.3)

  -- With the register that adds one, `test_bb` finds no wrong reply, whether the lock is held or not,
  -- and leaves the lock as it was.
  pub test_bb-device :
      Adder e
      → (fd : ℕ) (w : World e)
      → (v : World e) × (test_bb system fd w ≡ done [] v) × (v.locked ≡ w.locked)
  unfolding baseband_ioctl test_plus_one
  test_bb-device adder fd w =
      test_bb_silent system fd (λ v. v.locked ≡ w.locked)
        (λ i v small same.
          let (r, o) = e.read32 (enable_tx + word 2) (e.write32 i (enable_tx + word 2) v.outside) in
          (
            record v { outside = o; writes = (enable_tx + word 2, i) ∷ v.writes },
            rw (adder i v.outside small, reply-small (i + 1) (omega arith)) refl,
            same,
          ))
        w refl
