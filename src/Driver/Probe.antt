-- ===== src/Driver/Probe.antt =====
-- `baseband_drv_probe` and `baseband_drv_remove` of boot/baseband/baseband.c: what is acquired,
-- what each error label gives back, and what removal gives back.
use adi_bbp.Common.{
  ℕ, ◌-◌, ◌^◌, Bool, true, false, not, ◌&&◌, leb, ◌==◌, Option, none, some, if◌then◌else◌,
}
use adi_bbp.Driver.World.{Errno, einval, enodev}

-- A pointer that the kernel returns: NULL, an error of `ERR_PTR`, or one to what was made.
pub data Pointer : Type 0 where
  null_pointer err_pointer made_pointer : Pointer

-- What the kernel answers to the calls of a probe, in their order: `true` for success of the first
-- four, the bit pattern of the `int` that `alloc_chrdev_region` and `cdev_add` return, 0 for
-- success, and the pointers of `class_create` and `device_create`.
pub record Platform : Type 0 where
  pub matched : Bool
  pub addressed : Bool
  pub region_free : Bool
  pub mapped : Bool
  pub numbered : ℕ
  pub class_made : Pointer
  pub device_made : Pointer
  pub cdev_added : ℕ

-- `p == NULL`
abbrev is_null : Pointer → Bool
is_null null_pointer = true
is_null err_pointer = false
is_null made_pointer = false

abbrev is_made : Pointer → Bool
is_made null_pointer = false
is_made err_pointer = false
is_made made_pointer = true

-- What the driver has acquired and not given back. `mapping` is `baseband_registers != NULL`.
pub record Held : Type 0 where
  pub region : Bool
  pub mapping : Bool
  pub numbers : Bool
  pub class : Bool
  pub device : Bool
  pub cdev : Bool

-- `return 0` is `none`.
abbrev pub Outcome : Type 0
Outcome = Option Errno × Held

-- The labels, each with the code behind it.
err_pre_alloc : Errno → Held → Outcome
err_pre_alloc rc h = (some rc, h)

err_class_create : Errno → Held → Outcome
err_class_create rc h = err_pre_alloc rc (record h { numbers = false })

err_device_create : Errno → Held → Outcome
err_device_create rc h = err_class_create rc (record h { class = false })

err_cdev_add : Errno → Held → Outcome
err_cdev_add rc h = err_device_create rc (record h { device = false })

-- From `alloc_chrdev_region` on. The tests are those of the code: a negative number, NULL, and -1.
-- What passes a test without having been made is not held.
register : Platform → Held → Outcome
register p h =
    if leb (2 ^ 31) p.numbered
    then err_pre_alloc einval h
    else (let h₁ : Held = record h { numbers = true } in
        if is_null p.class_made
        then err_class_create einval h₁
        else (let h₂ : Held = record h₁ { class = is_made p.class_made } in
            if is_null p.device_made
            then err_device_create einval h₂
            else (let h₃ : Held = record h₂ { device = is_made p.device_made } in
                if p.cdev_added == 2 ^ 32 - 1
                then err_cdev_add einval h₃
                else (none, record h₃ { cdev = p.cdev_added == 0 }))))

pub baseband_drv_probe : Platform → Held → Outcome
unfolding err_pre_alloc err_class_create err_device_create err_cdev_add register
baseband_drv_probe p h =
    if p.matched
    then (if p.addressed
        then (if p.region_free
            then (let h₁ : Held = record h { region = true } in
                if p.mapped
                then register p (record h₁ { mapping = true })
                else err_pre_alloc enodev (record h₁ { mapping = false }))
            else err_pre_alloc enodev h)
        else err_pre_alloc enodev h)
    else err_pre_alloc einval h

pub baseband_drv_remove : Held → Held
baseband_drv_remove h =
    let unmapped : Held = if h.mapping then record h { mapping = false } else h in
    record unmapped { region = false; cdev = false; device = false; class = false; numbers = false }

abbrev pub nothing : Held
nothing = record {
  region = false;
  mapping = false;
  numbers = false;
  class = false;
  device = false;
  cdev = false;
}

abbrev pub everything : Held
everything = record {
  region = true;
  mapping = true;
  numbers = true;
  class = true;
  device = true;
  cdev = true;
}

-- The registers of the device are mapped.
abbrev pub reached : Platform → Bool
reached p = p.matched && p.addressed && p.region_free && p.mapped

-- Every test of the code passes.
abbrev pub passes : Platform → Bool
passes p =
    reached p
    && not (leb (2 ^ 31) p.numbered)
    && not (is_null p.class_made)
    && not (is_null p.device_made)
    && not (p.cdev_added == 2 ^ 32 - 1)

-- Every call succeeds.
abbrev pub all_given : Platform → Bool
all_given p =
    reached p
    && p.numbered == 0
    && is_made p.class_made
    && is_made p.device_made
    && p.cdev_added == 0

-- What a probe that returns 0 holds.
abbrev pub gained : Platform → Held
gained p = record {
  region = true;
  mapping = true;
  numbers = true;
  class = is_made p.class_made;
  device = is_made p.device_made;
  cdev = p.cdev_added == 0;
}

-- `-ENODEV` for a device of this kind whose registers are not reached, `-EINVAL` else.
abbrev pub reason : Platform → Errno
reason p = if p.matched then (if reached p then einval else enodev) else einval

-- What a failed probe keeps.
abbrev pub leaked : Platform → Held
leaked p = record {
  region = p.matched && p.addressed && p.region_free;
  mapping = reached p;
  numbers = false;
  class = false;
  device = false;
  cdev = false;
}
