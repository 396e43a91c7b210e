-- ===== src/User/Tests.antt =====
-- The calls of sw/baseband.c on a small system, and on the driver over a small device: its registers
-- hold what is written, and the structs of the program lie in memory as lists.
use adi_bbp.Common.{
  ℕ, ◌+◌, ◌%◌, ◌/◌, ◌^◌, ◌<◌, ◌≡◌, refl, true, false, not, some, List, [], ◌∷◌, ◌==◌, if◌then◌else◌,
  arith,
}
use adi_bbp.Common.Double.Numbers.{numbers}
use adi_bbp.Common.Run.{done}
use adi_bbp.Driver.Regs.{word, time_rx_base, enable_tx}
use adi_bbp.Driver.World.{Env, World, Buffer}
use adi_bbp.Driver.Ends.{Returns}
use adi_bbp.Driver.Ioctl.Route.{latest, Routed, AtMostOne, Since}
use adi_bbp.Driver.Ioctl.Config.{Memory, EnableRegisters, Enabled}
use adi_bbp.User.{tx_enable_error, tx_enable, set_use_rx, test_bb, set_rx_config}
use adi_bbp.User.Session.{
  Request, maxcnt, rx_config, test, use_rx, perform_all, Plenty, perform_all-Free,
}
use adi_bbp.User.Device.{
  nth, Placing, system, tx_enable-device, set_rx_config-device, set_use_rx-device, test_bb-device,
}

-- The clock, the registers, and the struct that lies at 4096.
abbrev Device : Type 0
Device = ℕ × (ℕ → ℕ) × List ℕ

abbrev buffer : Buffer
buffer = record { kbuf = 1; dbuf = 4096 }

abbrev device : Env
device = record {
  Outside = Device;
  write32 = λ v off d. (d.0, (λ r. if r == off then v else d.1 r), d.2);
  read32 = λ off d. (d.1 off, d);
  dma_alloc = λ size d. (some buffer, d);
  kmalloc = λ size d. (some 2, d);
  copy_to_user = λ user buf size d. (0, d);
  copy_from_user = λ buf user size d. (0, d);
  load = λ buf i d. nth d.2 i;
  store = λ buf i v d. d;
  time = λ d. ((d.0 / 1_000_000_000, d.0 % 1_000_000_000), (d.0 + 1, d.1, d.2));
  udelay = λ n d. d;
  remap = λ p n d. (false, d);
}

abbrev memory : Memory device
memory = record {
  user_word = λ user i d. nth d.2 i;
  copied = λ buf user size i d small whole. refl;
  kmalloc_spares = λ user i size d. refl;
  write_spares = λ buf i v off d. refl;
}

abbrev stack : Placing device memory
stack = record { place = λ ws d. (4096, (d.0, d.1, ws)); placed = λ ws d j. refl }

abbrev enable : EnableRegisters device
enable = record {
  reg = λ off d. d.1 off;
  reads = λ i d small. refl;
  read_spares = λ i off d small. refl;
  writes = λ i v d small bit. ground arith;
  write_spares = λ i off v d small other. ground arith;
}

abbrev idle : World device
idle = record {
  outside = (0, (λ r. 0), []);
  locked = false;
  rx_enabled = false;
  live = [];
  writes = [];
}

tx_enable-device_example :
    Returns
      (λ msgs v. (msgs ≡ tx_enable_error ∷ []) × Enabled enable 5 idle v)
      (tx_enable (system stack) 3 5 idle)
tx_enable-device_example = tx_enable-device stack enable 3 5 idle

set_rx_config-device_example :
    Returns
      (λ msgs v.
        (msgs ≡ [])
        × (v.locked ≡ false)
        × ((j : ℕ)
            → j < 11
            → latest (time_rx_base + word j) v.writes
              ≡ some (nth (2 ^ 17 ∷ 0 ∷ 0 ∷ 0 ∷ 65 ∷ 63 ∷ 16 ∷ 32 ∷ 229 ∷ 144 ∷ 66 ∷ []) j)))
      (set_rx_config (system stack) numbers 3 1 0 0 0 65 63 16 32 229 144 66 idle)
set_rx_config-device_example =
    set_rx_config-device stack numbers 3 2 1 0 0 0 65 63 16 32 229 144 66 idle refl (refl, refl)

idle-AtMostOne : AtMostOne idle.writes
unfolding latest
idle-AtMostOne a b = ground arith

set_use_rx-device_example :
    Returns
      (λ msgs v.
        (msgs ≡ [])
        × (v.locked ≡ false)
        × Routed (not (1 == 0)) v.writes
        × Since AtMostOne idle.writes v.writes)
      (set_use_rx (system stack) 3 1 idle)
set_use_rx-device_example = set_use_rx-device stack 3 1 idle refl idle-AtMostOne

-- The same device, with the register that adds one.
abbrev adding : Env
adding = record device {
  read32 = λ off d. ((if off == enable_tx + word 2 then d.1 off + 1 else d.1 off), d);
}

abbrev adding_memory : Memory adding
adding_memory = record {
  user_word = λ user i d. nth d.2 i;
  copied = λ buf user size i d small whole. refl;
  kmalloc_spares = λ user i size d. refl;
  write_spares = λ buf i v off d. refl;
}

abbrev adding_stack : Placing adding adding_memory
adding_stack = record { place = λ ws d. (4096, (d.0, d.1, ws)); placed = λ ws d j. refl }

abbrev held : World adding
held = record {
  outside = (0, (λ r. 0), []);
  locked = true;
  rx_enabled = false;
  live = [];
  writes = [];
}

test_bb-device_example :
    (v : World adding) × (test_bb (system adding_stack) 3 held ≡ done [] v) × (v.locked ≡ true)
test_bb-device_example = test_bb-device adding_stack (λ i d small. refl) 3 held

plenty : Plenty device
plenty = record { big = λ o. (2, refl); small = λ o. (2, refl) }

abbrev requests : List (Request numbers)
requests = maxcnt 4096 ∷ rx_config 1 0 0 0 65 63 16 32 229 144 66 ∷ test ∷ use_rx 1 ∷ []

perform_all-Free_example :
    Returns
      (λ _ v. ((v.locked ≡ false) × AtMostOne v.writes) × (v.live ≡ []))
      (perform_all (system stack) numbers 3 requests idle)
perform_all-Free_example =
    perform_all-Free stack plenty numbers 3 requests idle (refl, idle-AtMostOne)
