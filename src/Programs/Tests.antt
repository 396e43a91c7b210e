-- ===== src/Programs/Tests.antt =====
-- sw/tx_test.c and sw/txtest.c on small devices: numbers for doubles, the identity for the Fourier
-- transform.
use adi_bbp.Common.{
  ℕ, ◌+◌, ◌*◌, ◌%◌, ◌<◌, ◌≤◌, ◌≡◌, refl, arith, Option, List, false, some, [], ◌==◌, ==_refl,
  if◌then◌else◌,
}
use adi_bbp.Common.Double.Numbers.{numbers}
use adi_bbp.Common.Run.{done}
use adi_bbp.Driver.Regs.{dma_m2s_wgo_rremaining}
use adi_bbp.Driver.World.{Env, World}
use adi_bbp.Driver.Transfer.Finish.{Finishes}
use adi_bbp.Driver.Ioctl.Config.{Memory, EnableRegisters}
use adi_bbp.User.{Call}
use adi_bbp.User.Device.{nth, Placing, system}
use adi_bbp.Tx.Memory.{Array}
use adi_bbp.Tx.Samples.{Fft, tones, stf_freq, sample}
use adi_bbp.Tx.Frame.{Stack}
use adi_bbp.Programs.{Core, transmission}
use adi_bbp.Programs.Switch.{Holds}
use adi_bbp.Programs.Sending.{transmission_lem}

abbrev identity : Fft numbers
identity = record { Work = ℕ; fresh = 0; cdft = λ n inverse base s. s }

abbrev garbage : Array ℕ
garbage j = 7

abbrev stack : Stack numbers
stack = record { encoded = garbage; modulated = garbage; mapped = garbage; behind = 0 }

transmission_lem_example :
    (m2s : Array ℕ) × (transmission numbers identity stack garbage ≡ some (m2s, false))
    × ((j : ℕ)
        → j < 160
        → m2s j
          ≡ sample numbers
              (identity.cdft (2 * 64) false 0 (tones numbers stf_freq, identity.fresh)).0
              (j % 64))
    × ((s j : ℕ) → s < 3 → j < 10 → m2s (160 + (s * 74 + j)) ≡ m2s (160 + (s * 74 + 64 + j)))
    × ((j : ℕ) → 382 ≤ j → m2s j ≡ garbage j)
transmission_lem_example = transmission_lem numbers identity stack garbage

abbrev registers : Core
registers = record {
  State = ℕ → ℕ;
  read = λ index s. (s index, s);
  write = λ index value s. λ i. if i == index then value else s i;
}

abbrev hold : Holds registers
hold = record {
  reg = λ index s. s index;
  reads = λ index s. refl;
  writes = λ index value s place small. rw (==_refl index) refl;
  spares = λ index other value s differs. rw differs refl;
}

-- A device whose registers hold what is written and whose transfers end at once, and the buffer of
-- the program at 4096.
abbrev Machine : Type 0
Machine = (ℕ → ℕ) × List ℕ

abbrev machine : Env
machine = record {
  Outside = Machine;
  write32 = λ v off o. ((λ r. if r == off then v else o.0 r), o.1);
  read32 = λ off o. ((if off == dma_m2s_wgo_rremaining then 0 else o.0 off), o);
  dma_alloc = λ size o. (some (record { kbuf = 1; dbuf = 4096 }), o);
  kmalloc = λ size o. (some 2, o);
  copy_to_user = λ user buf size o. (0, o);
  copy_from_user = λ buf user size o. (0, o);
  load = λ buf i o. nth o.1 i;
  store = λ buf i v o. o;
  time = λ o. ((0, 0), o);
  udelay = λ n o. o;
  remap = λ p n o. (false, o);
}

abbrev memory : Memory machine
memory = record {
  user_word = λ user i o. nth o.1 i;
  copied = λ buf user size i o small whole. refl;
  kmalloc_spares = λ user i size o. refl;
  write_spares = λ buf i v off o. refl;
}

abbrev placing : Placing machine memory
placing = record { place = λ ws o. (4096, (o.0, ws)); placed = λ ws o j. refl }

abbrev enable : EnableRegisters machine
enable = record {
  reg = λ off o. if off == dma_m2s_wgo_rremaining then 0 else o.0 off;
  reads = λ i o small. refl;
  read_spares = λ i off o small. refl;
  writes = λ i v o small bit. ground arith;
  write_spares = λ i off v o small other. ground arith;
}

abbrev finishes : Finishes machine
finishes = record {
  most = 0;
  left = λ o. 0;
  bounded = λ o. omega arith;
  reports = λ o over. refl;
  falls = λ o. omega arith;
  waits = λ n o. omega arith;
}

abbrev idle : World machine
idle = record {
  outside = ((λ r. 0), []);
  locked = false;
  rx_enabled = false;
  live = [];
  writes = [];
}

-- The program never reads.
abbrev no_read :
    (fd : ℕ) (words : Option (Array ℕ)) (size : ℕ) → Call (system placing) (ℕ × Option (Array ℕ))
no_read fd words size w = done (0, words) w
