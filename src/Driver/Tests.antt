-- ===== src/Driver/Tests.antt =====
-- The theorems on boot/baseband/baseband.c at a small device: its registers hold what is written,
-- its skid buffer is empty, no DMA transfer ends, and the clock moves on by 1 ns with each query.
use adi_bbp.Common.{
  ℕ, ◌+◌, ◌*◌, ◌/◌, ◌%◌, ◌≤◌, ◌<◌, ◌≡◌, ◌^◌, ◌-◌, refl, true, false, some, [], ◌∷◌, ◌==◌,
  if◌then◌else◌, arith,
}
use adi_bbp.Driver.Regs.{
  word, dma_s2m_wgo_rremaining, dma_m2s_wgo_rremaining, skid_count, time_rx_base, ram_base,
  splitter_bb_sel, splitter_bypass_sel, stream_out_sel,
}
use adi_bbp.Driver.World.{Env, World, Buffer, polling, value, error, efault}
use adi_bbp.Driver.Ends.{Ends, Returns}
use adi_bbp.Driver.Dma.{dma_length}
use adi_bbp.Driver.Dma.Laws.{dma_length-covers}
use adi_bbp.Driver.Transfer.{baseband_read, baseband_write, baseband_mmap}
use adi_bbp.Driver.Transfer.Waits.{armed, NeverDone}
use adi_bbp.Driver.Transfer.Read.{Left}
use adi_bbp.Driver.Transfer.Timeout.{Clock, Drains, baseband_read-Returns, baseband_read_timeout}
use adi_bbp.Driver.Transfer.Write.{Written, NeverSent, baseband_write-polling}
use adi_bbp.Driver.Transfer.Finish.{Finishes, baseband_write-Returns}
use adi_bbp.Driver.Transfer.Mmap.{Mapped, baseband_mmap-Mapped}
use adi_bbp.Driver.Ioctl.{baseband_ioctl, rx_use_baseband, rx_conf, scratch_write}
use adi_bbp.Driver.Ioctl.Lock.{Clean, baseband_ioctl-Clean}
use adi_bbp.Driver.Ioctl.Route.{latest, Switched, AtMostOne, rx_use_baseband-Switched}
use adi_bbp.Driver.Ioctl.Config.{Memory, rx_conf_lem, scratch_write_lem}
use adi_bbp.Driver.Deadlock.{Stuck, NoRead, Later, read_timeout_deadlock}
use adi_bbp.Driver.Probe.{Platform, err_pointer}

-- The clock and the registers.
abbrev Device : Type 0
Device = ℕ × (ℕ → ℕ)

abbrev read_register : ℕ → Device → ℕ
read_register off d =
    if off == skid_count
    then 0
    else if off == dma_s2m_wgo_rremaining
    then 1
    else if off == dma_m2s_wgo_rremaining
    then 1
    else d.1 off

abbrev buffer : Buffer
buffer = record { kbuf = 1; dbuf = 4096 }

abbrev device : Env
device = record {
  Outside = Device;
  write32 = λ v off d. (d.0, λ r. if r == off then v else d.1 r);
  read32 = λ off d. (read_register off d, d);
  dma_alloc = λ size d. (some buffer, d);
  kmalloc = λ size d. (some 2, d);
  copy_to_user = λ user buf size d. (0, d);
  copy_from_user = λ buf user size d. (0, d);
  load = λ buf i d. i + 7;
  store = λ buf i v d. d;
  time = λ d. ((d.0 / 1_000_000_000, d.0 % 1_000_000_000), (d.0 + 1, d.1));
  udelay = λ n d. d;
  remap = λ p n d. (false, d);
}

abbrev idle : World device
idle = record { outside = (0, λ r. 0); locked = false; rx_enabled = false; live = []; writes = [] }

abbrev held : World device
held = record idle { locked = true }

clock : Clock device
clock = record {
  now = λ d. d.0;
  reports = λ d. omega arith;
  normal = λ d. omega arith;
  query_after = λ d. omega arith;
  query_within = λ d. omega arith;
  read_after = λ off d. omega arith;
  read_within = λ off d. omega arith;
}

abbrev skid : Drains device
skid = record {
  depth = 0;
  held = λ d. 0;
  reports = λ d. refl;
  bounded = λ d. omega arith;
  off = λ d. Unit {0};
  switches = λ d. tt;
  stays = λ d off. tt;
  falls = λ d off. omega arith;
}

never : NeverDone device
never d = omega arith

never_sent : NeverSent device
never_sent d = omega arith

abbrev memory : Memory device
memory = record {
  user_word = λ user i d. i + 7;
  copied = λ buf user size i d small whole. refl;
  kmalloc_spares = λ user i size d. refl;
  write_spares = λ buf i v off d. refl;
}

dma_length-covers_example : (10 ≤ 4 * (dma_length 10 + 1)) × (4 * dma_length 10 < 10)
dma_length-covers_example = dma_length-covers 10 (omega arith) (omega arith)

baseband_read-Returns_example : Returns (Left 64 8 idle) (baseband_read 6_000_000_000 64 8 idle)
baseband_read-Returns_example =
    baseband_read-Returns clock skid 6_000_000_000 64 8 idle (omega arith) (omega arith)
      (omega arith) refl

baseband_read_timeout_example :
    Returns
      (λ r v.
        (r ≡ error efault) × (v.locked ≡ true) × (v.writes ≡ armed 8 buffer []) × (v.live ≡ []))
      (baseband_read 6_000_000_000 64 8 idle)
baseband_read_timeout_example =
    baseband_read_timeout clock skid 6_000_000_000 64 8 idle buffer (omega arith) (omega arith)
      (omega arith) refl never refl

read_timeout_deadlock_example :
    Returns
      (λ r v. (r ≡ error efault) × ((u : World device) → Later v u → Stuck u × NoRead u))
      (baseband_read 6_000_000_000 64 8 idle)
read_timeout_deadlock_example =
    read_timeout_deadlock clock skid 6_000_000_000 64 8 idle buffer (omega arith) (omega arith)
      (omega arith) refl never refl

baseband_write-polling_example : (v : World device) × (baseband_write 20 64 8 idle ≡ polling v)
baseband_write-polling_example = baseband_write-polling 20 64 8 idle buffer never_sent refl refl

baseband_mmap-Mapped_example : Returns (Mapped idle) (baseband_mmap 4096 8192 idle)
baseband_mmap-Mapped_example = baseband_mmap-Mapped 4096 8192 idle

baseband_ioctl-Clean_example : Returns (Clean idle) (baseband_ioctl 13 64 idle)
baseband_ioctl-Clean_example = baseband_ioctl-Clean 13 64 2 2 idle refl refl refl

-- The splitter feeds the bypass.
abbrev bypassed : World device
bypassed = record idle {
  writes = (splitter_bypass_sel, 0) ∷ (stream_out_sel, 1) ∷ (splitter_bb_sel, 1) ∷ [];
}

bypassed-AtMostOne : AtMostOne bypassed.writes
unfolding latest
bypassed-AtMostOne a b = ground arith

rx_use_baseband-Switched_example : Returns (Switched 1 bypassed) (rx_use_baseband 1 bypassed)
rx_use_baseband-Switched_example = rx_use_baseband-Switched 1 bypassed refl bypassed-AtMostOne

rx_conf_lem_example :
    Returns
      (λ r v.
        (r ≡ value 0)
        × (v.locked ≡ false)
        × ((j : ℕ) → j < 11 → latest (time_rx_base + word j) v.writes ≡ some (j + 7)))
      (rx_conf 64 idle)
rx_conf_lem_example = rx_conf_lem memory 64 2 idle refl refl refl

scratch_write_lem_example :
    Returns
      (λ r v.
        (r ≡ value 0) × ((j : ℕ) → j < 4096 → latest (ram_base + word j) v.writes ≡ some (j + 7)))
      (scratch_write 64 idle)
scratch_write_lem_example = scratch_write_lem memory 64 2 idle refl refl

-- The class is an error pointer, and so is the device, which has no class; `cdev_add` has no memory.
abbrev no_class : Platform
no_class = record {
  matched = true;
  addressed = true;
  region_free = true;
  mapped = true;
  numbered = 0;
  class_made = err_pointer;
  device_made = err_pointer;
  cdev_added = 2 ^ 32 - 12;
}

-- The device with transfers that end at once.
abbrev finishing : Env
finishing = record device { read32 = λ off d. (0, d) }

abbrev finishes : Finishes finishing
finishes = record {
  most = 0;
  left = λ d. 0;
  bounded = λ d. omega arith;
  reports = λ d over. refl;
  falls = λ d. omega arith;
  waits = λ n d. omega arith;
}

abbrev ready : World finishing
ready = record { outside = (0, λ r. 0); locked = false; rx_enabled = false; live = []; writes = [] }

baseband_write-Returns_example : Returns (Written 0 64 ready) (baseband_write 1 0 64 ready)
baseband_write-Returns_example = baseband_write-Returns finishes 1 0 64 ready (omega arith)
