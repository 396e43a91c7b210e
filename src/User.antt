-- ===== src/User.antt =====
-- sw/baseband.c: the calls that a program makes of the baseband device.
pub mod Laws
pub mod Device
pub mod Session
mod Tests
use adi_bbp.Common.{
  ℕ, zero, suc, ◌+◌, ◌*◌, ◌%◌, ◌^◌, Bool, true, false, not, List, [], ◌∷◌, ◌++◌, ltb, ◌==◌,
  if◌then◌else◌,
}
use adi_bbp.Common.Double.{Double}
use adi_bbp.Common.Run.{Run, pure, ◌>>=◌}
use adi_bbp.Driver.Regs.{
  ioctl_stream_aligner_maxcnt, ioctl_stream_aligner_cntpassthrough, ioctl_stream_aligner_en,
  ioctl_skid_overflowed, ioctl_skid_set_overflow, ioctl_tx_enable, ioctl_rx_conf,
  ioctl_test_plus_one, ioctl_rx_use_baseband,
}

-- `struct rx_config`
pub record RxConfig : Type 0 where
  pub autocorr_ff : ℕ
  pub peak_threshold : ℕ
  pub peak_offset : ℕ
  pub freq_multiplier : ℕ
  pub autocorr_depth_apart : ℕ
  pub autocorr_depth_overlap : ℕ
  pub peak_detect_num_peaks : ℕ
  pub peak_detect_peak_distance : ℕ
  pub packet_length : ℕ
  pub samples_to_drop : ℕ
  pub input_delay : ℕ

-- The words of the struct, in the order in which it lies in memory.
pub words : RxConfig → List ℕ
words c =
    c.autocorr_ff ∷ c.peak_threshold ∷ c.peak_offset ∷ c.freq_multiplier ∷ c.autocorr_depth_apart
    ∷ c.autocorr_depth_overlap ∷ c.peak_detect_num_peaks ∷ c.peak_detect_peak_distance
    ∷ c.packet_length ∷ c.samples_to_drop ∷ c.input_delay ∷ []

-- The system behind `ioctl`, which may never return. The reply is the bit pattern of an `int`. The
-- address of a local struct is where the system holds its words.
pub record System : Type 1 where
  pub State : Type 0
  pub ioctl : (fd cmd arg : ℕ) → State → Run State ℕ
  pub on_stack : List ℕ → State → Run State ℕ

-- What is written to stderr.
pub data Message : Type 0 where
  maxcnt_error : Message
  cntpassthrough_error : Message
  aligner_en_error : Message
  skid_overflow_set_error : Message
  tx_enable_error : Message
  rx_use_baseband_error : Message
  test_failed : (i j : ℕ) → Message
  rx_conf_error : Message
  use_rx_error : Message

-- `r < 0` of an `int`
pub negative : ℕ → Bool
negative r = not (ltb r (2 ^ 31))

-- `if (failed) fprintf(stderr, ...)`
pub report : Bool → Message → List Message
report true m = m ∷ []
report false m = []

module _ (sys : System) where
  abbrev pub Call : Type 0 → Type 0
  Call A = sys.State → Run sys.State A

  -- `if (ioctl(fd, cmd, arg) < 0) fprintf(stderr, ...)`
  pub checked : Message → (fd cmd arg : ℕ) → Call (List Message)
  checked m fd cmd arg = do r ← sys.ioctl fd cmd arg; pure (report (negative r) m)

  -- `unsigned long` has 32 bits, so the kernel sees the low word of `cnt`.
  pub set_maxcnt : (fd cnt : ℕ) → Call (List Message)
  set_maxcnt fd cnt = checked maxcnt_error fd ioctl_stream_aligner_maxcnt (cnt % 2 ^ 32)

  pub set_cnt_passthrough : (fd passthrough : ℕ) → Call (List Message)
  set_cnt_passthrough fd passthrough =
      checked cntpassthrough_error fd ioctl_stream_aligner_cntpassthrough passthrough

  -- The argument is `en != 0`.
  pub set_align_en : (fd en : ℕ) → Call (List Message)
  set_align_en fd en =
      checked aligner_en_error fd ioctl_stream_aligner_en (if en == 0 then 0 else 1)

  pub get_skid_overflowed : (fd : ℕ) → Call ℕ
  get_skid_overflowed fd = sys.ioctl fd ioctl_skid_overflowed 0

  pub set_skid_overflowed : (fd o : ℕ) → Call (List Message)
  set_skid_overflowed fd o = checked skid_overflow_set_error fd ioctl_skid_set_overflow o

  pub tx_enable : (fd mask : ℕ) → Call (List Message)
  tx_enable fd mask = do
    r ← sys.ioctl fd ioctl_tx_enable mask
    pure (report (not (r == mask)) tx_enable_error)

  pub set_baseband_enable : (fd en : ℕ) → Call (List Message)
  set_baseband_enable fd en = checked rx_use_baseband_error fd ioctl_rx_use_baseband en

  -- `for (...; i++)`, with `left` rounds to go.
  pub test_loop : (left i fd : ℕ) → Call (List Message)
  test_loop zero i fd = pure []
  test_loop (suc left) i fd = do
    j ← sys.ioctl fd ioctl_test_plus_one i
    later ← test_loop left (i + 1) fd
    pure (report (not (j == (i + 1) % 2 ^ 32)) (test_failed i j) ++ later)

  pub test_bb : (fd : ℕ) → Call (List Message)
  test_bb fd = test_loop 30 0 fd

  pub set_use_rx : (fd en : ℕ) → Call (List Message)
  set_use_rx fd en = checked use_rx_error fd ioctl_rx_use_baseband en

  module _ (d : Double) where
    -- `(uint32_t) (int32_t) (x * (1 << bp))`
    pub fixed_point_representation : d.D → ℕ → ℕ
    fixed_point_representation x bp = d.to_int32 (d.mul x (d.of_ℕ (2 ^ bp))) % 2 ^ 32

    pub configuration :
        (autocorr_ff peak_threshold peak_offset freq_multiplier : d.D)
        (autocorr_depth_apart autocorr_depth_overlap peak_detect_num_peaks peak_detect_peak_distance
          packet_length samples_to_drop input_delay : ℕ)
        → RxConfig
    configuration ff threshold offset multiplier apart overlap num_peaks peak_distance length drop
          delay =
        record {
          autocorr_ff = fixed_point_representation ff 17;
          peak_threshold = fixed_point_representation threshold 17;
          peak_offset = fixed_point_representation offset 17;
          freq_multiplier = fixed_point_representation multiplier 17;
          autocorr_depth_apart = apart;
          autocorr_depth_overlap = overlap;
          peak_detect_num_peaks = num_peaks;
          peak_detect_peak_distance = peak_distance;
          packet_length = length;
          samples_to_drop = drop;
          input_delay = delay;
        }

    pub set_rx_config :
        (fd : ℕ) (autocorr_ff peak_threshold peak_offset freq_multiplier : d.D)
        (autocorr_depth_apart autocorr_depth_overlap peak_detect_num_peaks peak_detect_peak_distance
          packet_length samples_to_drop input_delay : ℕ)
        → Call (List Message)
    set_rx_config fd ff threshold offset multiplier apart overlap num_peaks peak_distance length
          drop delay =
        do
          address ← sys.on_stack (
              words (
                configuration ff threshold offset multiplier apart overlap num_peaks peak_distance
                  length drop delay))
          checked rx_conf_error fd ioctl_rx_conf address
