-- ===== src/Driver/World.antt =====
-- What the driver of boot/baseband/baseband.c runs on: the kernel and the device as an
-- interface, the driver's own state, and commands over both.
pub use adi_bbp.Common.Run.{Run, done, blocked, fault, polling, pure, and_then, ◌>>=◌, ◌>>◌}
use adi_bbp.Common.{ℕ, Bool, true, false, Option, none, some, List, [], ◌∷◌, ◌==◌, if◌then◌else◌}

-- A DMA buffer: the kernel's pointer and the handle that the device is given.
pub record Buffer : Type 0 where
  pub kbuf : ℕ
  pub dbuf : ℕ

-- The kernel's calls and the device behind `ioread32` and `iowrite32`. `Outside` is all that they
-- may change: the device, memory and the clock. None of it is code of the repository.
pub record Env : Type 1 where
  pub Outside : Type 0
  -- `iowrite32(value, baseband_registers + offset)`
  pub write32 : (value offset : ℕ) → Outside → Outside
  -- `ioread32(baseband_registers + offset)`; a read may have an effect on the device
  pub read32 : (offset : ℕ) → Outside → ℕ × Outside
  -- `dma_alloc_coherent`, with `none` for NULL
  pub dma_alloc : (size : ℕ) → Outside → Option Buffer × Outside
  -- `kmalloc(size, GFP_KERNEL)`, with `none` for NULL
  pub kmalloc : (size : ℕ) → Outside → Option ℕ × Outside
  -- `copy_to_user` and `copy_from_user` return the number of bytes that were not copied
  pub copy_to_user : (user buf size : ℕ) → Outside → ℕ × Outside
  pub copy_from_user : (buf user size : ℕ) → Outside → ℕ × Outside
  -- the 32-bit words of a buffer
  pub load : (buf i : ℕ) → Outside → ℕ
  pub store : (buf i value : ℕ) → Outside → Outside
  -- `getnstimeofday`, as seconds and nanoseconds
  pub time : Outside → (ℕ × ℕ) × Outside
  pub udelay : (microseconds : ℕ) → Outside → Outside
  -- `remap_pfn_range`, `true` if it failed
  pub remap : (kbuf len : ℕ) → Outside → Bool × Outside

-- A register access that changes the device: the offset and the value written.
abbrev pub Access : Type 0
Access = ℕ × ℕ

-- The driver's state: the mutex `baseband_rx_lock`, `baseband_rx_enabled`, the buffers that are
-- allocated and not freed (by their kernel pointers), and the register writes, latest first.
pub record World (e : Env) : Type 0 where
  pub outside : e.Outside
  pub locked : Bool
  pub rx_enabled : Bool
  pub live : List ℕ
  pub writes : List Access

abbrev pub Cmd : Env → Type 0 → Type 0
Cmd e A = World e → Run (World e) A

abbrev pub hold : Option Buffer → List ℕ → List ℕ
hold none live = live
hold (some b) live = b.kbuf ∷ live

abbrev pub hold_kmalloc : Option ℕ → List ℕ → List ℕ
hold_kmalloc none live = live
hold_kmalloc (some p) live = p ∷ live

-- The first entry that holds the pointer goes.
abbrev pub forget : ℕ → List ℕ → List ℕ
forget p [] = []
forget p (q ∷ live) = if q == p then live else q ∷ forget p live

module _ {e : Env} where
  -- The kernel has no way to go on from a NULL pointer, and none from a mutex that it holds.
  abbrev pub oops : {A : Type 0} → Cmd e A
  oops w = fault w

  abbrev pub keep_polling : {A : Type 0} → Cmd e A
  keep_polling w = polling w

  abbrev pub iowrite32 : (value offset : ℕ) → Cmd e (Unit {0})
  iowrite32 v off w =
      done tt (record w { outside = e.write32 v off w.outside; writes = (off, v) ∷ w.writes })

  abbrev pub ioread32 : (offset : ℕ) → Cmd e ℕ
  ioread32 off w =
      done (e.read32 off w.outside).0 (record w { outside = (e.read32 off w.outside).1 })

  abbrev pub mutex_lock : Cmd e (Unit {0})
  mutex_lock w = if w.locked then blocked w else done tt (record w { locked = true })

  abbrev pub mutex_unlock : Cmd e (Unit {0})
  mutex_unlock w = done tt (record w { locked = false })

  abbrev pub set_rx_enabled : Bool → Cmd e (Unit {0})
  set_rx_enabled b w = done tt (record w { rx_enabled = b })

  abbrev pub dma_alloc_coherent : (size : ℕ) → Cmd e (Option Buffer)
  dma_alloc_coherent size w = done (e.dma_alloc size w.outside).0 (record w {
    outside = (e.dma_alloc size w.outside).1;
    live = hold (e.dma_alloc size w.outside).0 w.live;
  })

  abbrev pub kmalloc : (size : ℕ) → Cmd e (Option ℕ)
  kmalloc size w = done (e.kmalloc size w.outside).0 (record w {
    outside = (e.kmalloc size w.outside).1;
    live = hold_kmalloc (e.kmalloc size w.outside).0 w.live;
  })

  -- `dma_free_coherent` and `kfree`
  abbrev pub free : (kbuf : ℕ) → Cmd e (Unit {0})
  free p w = done tt (record w { live = forget p w.live })

  abbrev pub copy_to_user : (user buf size : ℕ) → Cmd e ℕ
  copy_to_user u b n w =
      done (e.copy_to_user u b n w.outside).0
        (record w { outside = (e.copy_to_user u b n w.outside).1 })

  abbrev pub copy_from_user : (buf user size : ℕ) → Cmd e ℕ
  copy_from_user b u n w =
      done (e.copy_from_user b u n w.outside).0
        (record w { outside = (e.copy_from_user b u n w.outside).1 })

  abbrev pub load : (buf i : ℕ) → Cmd e ℕ
  load b i w = done (e.load b i w.outside) w

  abbrev pub store : (buf i value : ℕ) → Cmd e (Unit {0})
  store b i v w = done tt (record w { outside = e.store b i v w.outside })

  abbrev pub getnstimeofday : Cmd e (ℕ × ℕ)
  getnstimeofday w = done (e.time w.outside).0 (record w { outside = (e.time w.outside).1 })

  abbrev pub udelay : (microseconds : ℕ) → Cmd e (Unit {0})
  udelay n w = done tt (record w { outside = e.udelay n w.outside })

  abbrev pub remap_pfn_range : (kbuf len : ℕ) → Cmd e Bool
  remap_pfn_range p n w =
      done (e.remap p n w.outside).0 (record w { outside = (e.remap p n w.outside).1 })

-- What a file operation returns: a word, or minus an error number.
pub data Errno : Type 0 where
  einval efault enotty eio enodev : Errno

pub data Ret : Type 0 where
  value : ℕ → Ret
  error : Errno → Ret
