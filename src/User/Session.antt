-- ===== src/User/Session.antt =====
-- A program that makes any calls of sw/baseband.c, on the driver of boot/baseband/baseband.c.
use adi_bbp.Common.{ℕ, zero, suc, ◌+◌, ◌*◌, ◌≡◌, refl, ◌∙◌, false, some, List, [], ◌∷◌, ◌++◌}
use adi_bbp.Common.Double.{Double}
use adi_bbp.Common.Run.{pure, ◌>>=◌}
use adi_bbp.Driver.Regs.{ioctl_test_plus_one}
use adi_bbp.Driver.World.{Env, World}
use adi_bbp.Driver.Ends.{Returns, both, bind}
use adi_bbp.Driver.Ioctl.{baseband_ioctl}
use adi_bbp.Driver.Ioctl.Lock.{Clean, baseband_ioctl-Clean}
use adi_bbp.Driver.Ioctl.Route.{AtMostOne}
use adi_bbp.Driver.Ioctl.Splitter.{baseband_ioctl-AtMostOne}
use adi_bbp.Driver.Ioctl.Config.{Memory}
use adi_bbp.User.{
  System, Message, Call, checked, set_maxcnt, set_cnt_passthrough, set_align_en,
  get_skid_overflowed, set_skid_overflowed, tx_enable, set_baseband_enable, test_loop, test_bb,
  set_use_rx, configuration, set_rx_config, words,
}
use adi_bbp.User.Device.{Placing, system, ioctl-Returns}

-- A call, with its arguments.
pub data Request (d : Double) : Type 0 where
  maxcnt : (cnt : ℕ) → Request d
  cnt_passthrough : (passthrough : ℕ) → Request d
  align_en : (en : ℕ) → Request d
  skid_overflowed : Request d
  skid_overflow : (o : ℕ) → Request d
  transmitters : (mask : ℕ) → Request d
  baseband_enable : (en : ℕ) → Request d
  test : Request d
  use_rx : (en : ℕ) → Request d
  rx_config :
      (autocorr_ff peak_threshold peak_offset freq_multiplier : d.D)
      (autocorr_depth_apart autocorr_depth_overlap peak_detect_num_peaks peak_detect_peak_distance
        packet_length samples_to_drop input_delay : ℕ)
      → Request d

module _ (sys : System) (d : Double) (fd : ℕ) where
  pub perform : Request d → Call sys (List Message)
  perform (maxcnt cnt) = set_maxcnt sys fd cnt
  perform (cnt_passthrough passthrough) = set_cnt_passthrough sys fd passthrough
  perform (align_en en) = set_align_en sys fd en
  perform skid_overflowed = do o ← get_skid_overflowed sys fd; pure []
  perform (skid_overflow o) = set_skid_overflowed sys fd o
  perform (transmitters mask) = tx_enable sys fd mask
  perform (baseband_enable en) = set_baseband_enable sys fd en
  perform test = test_bb sys fd
  perform (use_rx en) = set_use_rx sys fd en
  perform
        (rx_config ff threshold offset multiplier apart overlap num_peaks peak_distance length drop
          delay) =
      set_rx_config sys d fd ff threshold offset multiplier apart overlap num_peaks peak_distance
        length drop delay

  pub perform_all : List (Request d) → Call sys (List Message)
  perform_all [] = pure []
  perform_all (r ∷ rs) = do msgs ← perform r; later ← perform_all rs; pure (msgs ++ later)

-- There is memory for the two sizes that the commands ask for.
pub record Plenty (e : Env) : Type 0 where
  pub big : (o : e.Outside) → (p : ℕ) × ((e.kmalloc (4096 * 4) o).0 ≡ some p)
  pub small : (o : e.Outside) → (p : ℕ) × ((e.kmalloc (4 * 11) o).0 ≡ some p)

module _ {e : Env} {m : Memory e} (p : Placing e m) (plenty : Plenty e) (d : Double) (fd : ℕ) where
  -- The lock is free, and the splitter feeds at most one of the baseband and the bypass.
  abbrev pub Safe : World e → Type 0
  Safe w = (w.locked ≡ false) × AtMostOne w.writes

  -- So it is, and the buffers are those of `w`.
  abbrev pub Free : {A : Type 0} → World e → A → World e → Type 0
  Free w a v = Safe v × (v.live ≡ w.live)

  ioctl-Free :
      (cmd arg : ℕ) (w : World e) → Safe w → Returns (Free w) ((system p).ioctl fd cmd arg w)
  ioctl-Free cmd arg w safe =
      let (big, got) = plenty.big w.outside in
      let (small, got') = plenty.small w.outside in
      ioctl-Returns p fd cmd arg w (λ r v. Clean w r v × AtMostOne v.writes) (Free w)
        (both (Clean w) (λ _ v. AtMostOne v.writes) (λ _. ⊥) (baseband_ioctl cmd arg w)
          (baseband_ioctl-Clean cmd arg big small w safe.0 got got')
          (baseband_ioctl-AtMostOne cmd arg big small w safe.0 safe.1 got got'))
        λ r v (clean, one). ((clean.0, one), clean.1)

  checked-Free :
      (msg : Message) (cmd arg : ℕ) (w : World e)
      → Safe w
      → Returns (Free w) (checked (system p) msg fd cmd arg w)
  unfolding checked
  checked-Free msg cmd arg w safe =
      bind (Free w) (Free w) (λ _. ⊥) ((system p).ioctl fd cmd arg w) _ (ioctl-Free cmd arg w safe)
        λ r v k. k

  test_loop-Free :
      (left i : ℕ) (w : World e) → Safe w → Returns (Free w) (test_loop (system p) left i fd w)
  unfolding test_loop
  test_loop-Free zero i w safe = (safe, refl)
  test_loop-Free (suc left) i w safe =
      bind (Free w) (Free w) (λ _. ⊥) ((system p).ioctl fd ioctl_test_plus_one i w) _
        (ioctl-Free ioctl_test_plus_one i w safe)
        λ j v (safe', live).
          bind (Free v) (Free w) (λ _. ⊥) (test_loop (system p) left (i + 1) fd v) _
            (test_loop-Free left (i + 1) v safe') λ later u (safe'', live'). (safe'', live' ∙ live)

  perform-Free :
      (r : Request d) (w : World e) → Safe w → Returns (Free w) (perform (system p) d fd r w)
  unfolding perform set_maxcnt set_cnt_passthrough set_align_en get_skid_overflowed
      set_skid_overflowed tx_enable set_baseband_enable test_bb set_use_rx set_rx_config
  perform-Free (maxcnt cnt) w safe = checked-Free _ _ _ w safe
  perform-Free (cnt_passthrough passthrough) w safe = checked-Free _ _ _ w safe
  perform-Free (align_en en) w safe = checked-Free _ _ _ w safe
  perform-Free skid_overflowed w safe =
      bind (Free w) (Free w) (λ _. ⊥) _ _ (ioctl-Free _ _ w safe) λ o v k. k
  perform-Free (skid_overflow o) w safe = checked-Free _ _ _ w safe
  perform-Free (transmitters mask) w safe =
      bind (Free w) (Free w) (λ _. ⊥) _ _ (ioctl-Free _ mask w safe) λ r v k. k
  perform-Free (baseband_enable en) w safe = checked-Free _ _ _ w safe
  perform-Free test w safe = test_loop-Free 30 0 w safe
  perform-Free (use_rx en) w safe = checked-Free _ _ _ w safe
  perform-Free
        (rx_config ff threshold offset multiplier apart overlap num_peaks peak_distance length drop
          delay)
        w safe =
      let ws : List ℕ = words (
        configuration (system p) d ff threshold offset multiplier apart overlap num_peaks
          peak_distance length drop delay) in
      checked-Free _ _ _ (record w { outside = (p.place ws w.outside).1 }) safe

  -- Whatever calls of the library a program makes, with whatever arguments, from an unlocked driver
  -- whose splitter feeds at most one path, and with memory for what the commands ask for: each call
  -- returns, and behind them the lock is free, the splitter feeds at most one path, and the driver
  -- has exactly the buffers that it had.
  pub perform_all-Free :
      (rs : List (Request d)) (w : World e)
      → Safe w
      → Returns (Free w) (perform_all (system p) d fd rs w)
  unfolding perform_all
  perform_all-Free [] w safe = (safe, refl)
  perform_all-Free (r ∷ rs) w safe =
      bind (Free w) (Free w) (λ _. ⊥) (perform (system p) d fd r w) _ (perform-Free r w safe)
        λ msgs v (safe', live).
          bind (Free v) (Free w) (λ _. ⊥) (perform_all (system p) d fd rs v) _
            (perform_all-Free rs v safe') λ later u (safe'', live'). (safe'', live' ∙ live)
