-- ===== src/Streaming/Library.antt =====
-- What sw/iiostream.c calls: libiio and the C library.
use adi_bbp.Common.{ℕ, Bool, Option}

-- The strings that name a device, a channel, an attribute and a port: `voltage 0` is "voltage0".
pub data Device : Type 0 where
  ad9361_phy : Device
  cf_ad9361_dds_core_lpc : Device
  cf_ad9361_lpc : Device

pub data Name : Type 0 where
  voltage : ℕ → Name
  altvoltage : ℕ → Name

pub data Attribute : Type 0 where
  rf_port_select : Attribute
  rf_bandwidth : Attribute
  sampling_frequency : Attribute
  frequency : Attribute

pub data Port : Type 0 where
  a_balanced : Port

-- The state is all that the calls may change. Handles and addresses are numbers, with `none` for
-- NULL; an `int`, an `ssize_t` and the arguments are bit patterns.
pub record Iio : Type 1 where
  pub State : Type 0
  pub create_default_context : State → Option ℕ × State
  pub context_get_devices_count : (ctx : ℕ) → State → ℕ × State
  pub context_find_device : (ctx : ℕ) → Device → State → Option ℕ × State
  pub device_find_channel : (dev : ℕ) → Name → (output : Bool) → State → Option ℕ × State
  pub channel_attr_write : (chn : ℕ) → Attribute → Port → State → ℕ × State
  pub channel_attr_write_longlong : (chn : ℕ) → Attribute → (val : ℕ) → State → ℕ × State
  pub channel_enable : (chn : ℕ) → State → State
  pub channel_disable : (chn : ℕ) → State → State
  pub device_create_buffer : (dev samples : ℕ) → (cyclic : Bool) → State → Option ℕ × State
  pub buffer_destroy : (buf : ℕ) → State → State
  pub context_destroy : (ctx : ℕ) → State → State
  pub buffer_step : (buf : ℕ) → State → ℕ × State
  pub buffer_refill : (buf : ℕ) → State → ℕ × State
  pub buffer_first : (buf chn : ℕ) → State → ℕ × State
  pub device_get_sample_size : (dev : ℕ) → State → ℕ × State
  -- `fopen` of "cap_%d.dat", with `false` for NULL, and `fwrite` and `fclose` of that file
  pub fopen : (capnum : ℕ) → State → Bool × State
  pub fwrite_fclose : (capnum cap nbytes : ℕ) → State → State
  -- whether ctrl+c was pressed
  pub interrupted : State → Bool
