-- ===== src/Programs.antt =====
-- The programs on the baseband device: sw/tx_test.c, sw/baseband_test.c and sw/txtest.c.
pub mod Sending
pub mod Switch
pub mod Device
mod Tests
use adi_bbp.Common.{
  ℕ, zero, suc, ◌+◌, ◌-◌, ◌*◌, ◌/◌, ◌%◌, ◌^◌, Bool, true, false, not, Option, none, some, List, [],
  ◌∷◌, ◌++◌, ltb, ◌==◌, if◌then◌else◌,
}
use adi_bbp.Common.Double.{Double}
use adi_bbp.Common.Run.{Run, fault, pure, ◌>>=◌, ◌>>◌}
use adi_bbp.Tx.Memory.{Array}
use adi_bbp.Tx.Samples.{Fft, get_stf}
use adi_bbp.Tx.Mapping.{PilotTone}
use adi_bbp.Tx.Frame.{TxInfo, Stack, encode}
use adi_bbp.User.{
  System, Message, Call, set_maxcnt, set_cnt_passthrough, set_align_en, set_baseband_enable,
  tx_enable, get_skid_overflowed, set_skid_overflowed, set_rx_config, set_use_rx,
}

-- The files and the memory of a program: `open` of the device, `write` of the words of a buffer,
-- `read` into one, `close`, and `malloc`, with `none` for NULL and else what the words hold. Replies
-- are the bit patterns of an `int`.
pub record Files (sys : System) : Type 0 where
  pub open_device : Call sys ℕ
  pub write : (fd : ℕ) (words : Array ℕ) (size : ℕ) → Call sys ℕ
  pub read : (fd : ℕ) (words : Option (Array ℕ)) (size : ℕ) → Call sys (ℕ × Option (Array ℕ))
  pub close : (fd : ℕ) → Call sys (Unit {0})
  pub malloc : (size : ℕ) → Call sys (Option (Array ℕ))

-- What a program prints.
pub data Line : Type 0 where
  said : Message → Line
  opening_error : Line
  wrong_size : Line
  bad_write : (result : ℕ) → Line
  bad_read : (result : ℕ) → Line
  skid_previously : Line
  skid_still : Line
  skid_during : Line
  shown : (word : ℕ) → Line
  thats_all : Line

pub lines : List Message → List Line
lines [] = []
lines (m ∷ ms) = said m ∷ lines ms

abbrev pub only_if : Bool → Line → List Line
only_if true l = l ∷ []
only_if false l = []

-- `-1`
abbrev pub minus_one : ℕ
minus_one = 2 ^ 32 - 1

-- `uint8_t data[20] = { 0x66 }`
pub test_message : Array ℕ
test_message j = if j == 0 then 0x66 else 0

module _ (d : Double) where
  -- `pilots`, of which the code sets the eight entries.
  pub test_pilots : Array (PilotTone d)
  test_pilots j = record { pos = 4 + 8 * j; real = d.of_ℕ 1; imag = d.of_ℕ 1 }

  -- `tx_conf`
  pub tx_conf : TxInfo d
  tx_conf = record {
    src = 0;
    dst = 1;
    time = 0;
    r0 = 2;
    r1 = 3;
    r2 = 4;
    cc_length = 2;
    cc_constr = λ j. if j == 0 then 0x1 else 0x3;
    num_pilots = 8;
    pilots = test_pilots;
  }

  module _ (ft : Fft d) (stack : Stack d) where
    -- The buffer `stf` with the words of the frame from 160 on.
    pub behind_stf : (stf : Array ℕ) → Option (Array ℕ × Bool) → Option (Array ℕ × Bool)
    behind_stf stf none = none
    behind_stf stf (some (frame, wrong)) =
        some (λ j. if ltb j 160 then stf j else frame (j - 160), wrong)

    -- `get_stf(m2s); encode(data, m2s + 160, &tx_conf)`
    pub transmission : (m2s : Array ℕ) → Option (Array ℕ × Bool)
    transmission m2s =
        let stf = get_stf d ft m2s in
        behind_stf stf (encode d ft stack test_message (λ j. stf (160 + j)) tx_conf)

    module _ (sys : System) (f : Files sys) where
      -- A failed assertion, or a write through NULL.
      die : {A : Type 0} → Call sys A
      die s = fault s

      -- `main` of sw/tx_test.c behind `encode`.
      pub hand_over :
          (fd : ℕ) (enabling : List Message) → Option (Array ℕ × Bool) → Call sys (List Line × ℕ)
      hand_over fd enabling none = die
      hand_over fd enabling (some (m2s, wrong)) = do
        result ← f.write fd m2s (382 * 4)
        f.close fd
        pure (
          lines enabling
              ++ only_if wrong wrong_size
              ++ only_if (not (result == 382 * 4)) (bad_write result),
          0,
        )

      -- `main` of sw/tx_test.c behind `malloc`.
      pub send_frame :
          (fd : ℕ) (enabling : List Message) → Option (Array ℕ) → Call sys (List Line × ℕ)
      send_frame fd enabling none = die
      send_frame fd enabling (some garbage) = hand_over fd enabling (transmission garbage)

      -- `main` of sw/tx_test.c: what is printed, and the exit code.
      pub tx_test : Call sys (List Line × ℕ)
      tx_test = do
        fd ← f.open_device
        if fd == minus_one then pure (opening_error ∷ [], minus_one) else (do
          enabling ← tx_enable sys fd 0x3
          memory ← f.malloc (382 * 4)
          send_frame fd enabling memory)

      -- The loop over the samples, with `left` to go: behind `continue` nothing runs.
      pub show : (s2m : Array ℕ) (left i : ℕ) → List Line
      show s2m zero i = []
      show s2m (suc left) i = shown (s2m i) ∷ show s2m left (i + 1)

      -- `main` of sw/baseband_test.c, to the call of `set_use_rx`.
      pub configure : (fd : ℕ) → Call sys (List Line)
      configure fd = do
        a ← set_maxcnt sys fd 4096
        b ← set_cnt_passthrough sys fd 0
        c ← set_align_en sys fd 0
        g ← set_baseband_enable sys fd 1
        h ← tx_enable sys fd 0x3
        before ← get_skid_overflowed sys fd
        k ← (if before == 0 then pure [] else set_skid_overflowed sys fd 0)
        still ← get_skid_overflowed sys fd
        l ←
            set_rx_config sys d fd (d.div (d.of_ℕ 9) (d.of_ℕ 10))
              (d.mul (d.of_ℕ 0) (d.div (d.of_ℕ 5) (d.of_ℕ 100))) (d.of_ℕ 0) (d.of_ℕ 0) 65 63 16 32
              (222 + 7) (128 + 16 + 0) (74 - 8)
        n ← set_use_rx sys fd 1
        pure (
            lines (a ++ b ++ c ++ g ++ h)
            ++ only_if (not (before == 0)) skid_previously
            ++ lines k
            ++ only_if (not (still == 0)) skid_still
            ++ lines (l ++ n))

      -- The loop goes through the buffer, which may be NULL.
      pub show_samples : Option (Array ℕ) → Call sys (List Line)
      show_samples none = die
      show_samples (some s2m) = pure (show s2m 19 0)

      -- `main` of sw/baseband_test.c behind `encode`.
      pub receive_samples :
          (fd : ℕ) (configured : List Line) (wrong : Bool)
          → Option (Array ℕ)
          → Call sys (List Line × ℕ)
      receive_samples fd configured wrong s2m = do
        (result, s2m') ← f.read fd s2m (20 * 4)
        during ← get_skid_overflowed sys fd
        samples ← show_samples s2m'
        f.close fd
        pure (
          configured
              ++ only_if wrong wrong_size
              ++ only_if (not (result == 20 * 4)) (bad_read result)
              ++ only_if (not (during == 0)) skid_during
              ++ samples
              ++ thats_all ∷ [],
          0,
        )

      -- `main` of sw/baseband_test.c behind the calls of `malloc`, with what they gave.
      pub encode_and_receive :
          (fd : ℕ) (configured : List Line) (s2m m2s : Option (Array ℕ)) → Call sys (List Line × ℕ)
      encode_and_receive fd configured s2m none = die
      encode_and_receive fd configured s2m (some garbage) =
          elim (encode d ft stack test_message garbage tx_conf) [
            | none ↦ die
            | some (frame, wrong) ↦ receive_samples fd configured wrong s2m
          ]

      -- `main` of sw/baseband_test.c.
      pub baseband_test : Call sys (List Line × ℕ)
      baseband_test = do
        fd ← f.open_device
        if fd == minus_one then pure (opening_error ∷ [], minus_one) else (do
          configured ← configure fd
          s2m ← f.malloc (20 * 4)
          m2s ← f.malloc (222 * 4)
          encode_and_receive fd configured s2m m2s)

-- The registers of the device that sw/txtest.c maps, by the index of their word.
pub record Core : Type 1 where
  pub State : Type 0
  pub read : (index : ℕ) → State → ℕ × State
  pub write : (index value : ℕ) → State → State

-- `main` of sw/txtest.c behind `mmap`: the five words that it prints. C leaves the order open in
-- which the two words of a line are read; here it is that of the line.
pub switch : (core : Core) (argc : ℕ) → core.State → List ℕ × core.State
switch core argc s =
    let (version, s₁) = core.read 0 s in
    let (reset, s₂) = core.read 0x200 s₁ in
    let (enable, s₃) = core.read 0x201 s₂ in
    let s₄ =
      if argc == 1
      then core.write 0x201 0x1 (core.write 0x200 0x0 s₃)
      else core.write 0x201 0x0 (core.write 0x200 0x1 s₃) in
    let (reset', s₅) = core.read 0x200 s₄ in
    let (enable', s₆) = core.read 0x201 s₅ in (version ∷ reset ∷ enable ∷ reset' ∷ enable' ∷ [], s₆)

-- `main` of sw/txtest.c, where `fd` is what `open` of /dev/mem gives and `mapped` whether `mmap`
-- gives a mapping: a failed assertion is `none`, else the words that are printed, and the exit code.
pub txtest :
    (core : Core) (fd : ℕ) (mapped : Bool) (argc : ℕ)
    → core.State
    → Option ((List ℕ × ℕ) × core.State)
txtest core fd mapped argc s =
    if fd == minus_one
    then none
    else if mapped
    then (let (words, s') = switch core argc s in some ((words, 0), s'))
    else none
