-- ===== src/Streaming/Channels.antt =====
-- The devices and the channels of sw/iiostream.c, and their configuration.
use adi_bbp.Common.{ℕ, Bool, true, false, Option, none, some}
use adi_bbp.Streaming.Library.{
  Iio, ad9361_phy, cf_ad9361_dds_core_lpc, cf_ad9361_lpc, Name, voltage, altvoltage, Attribute,
  rf_port_select, rf_bandwidth, sampling_frequency, frequency, Port, a_balanced,
}
use adi_bbp.Streaming.State.{
  Iodev, rx, tx, StreamCfg, wrote_text, wrote_number, returned, aborted, ◌>>=◌, ◌>>◌, pure, Cmd,
  call, note, errchk,
}

module _ (iio : Iio) where
  unfoldable pub wr_ch_lli : (chn : ℕ) (what : Attribute) (val : ℕ) → Cmd iio (Unit {0})
  wr_ch_lli chn what val = do
    note iio (wrote_number chn what val)
    v ← call iio (iio.channel_attr_write_longlong chn what val)
    errchk iio v what

  unfoldable pub wr_ch_str : (chn : ℕ) (what : Attribute) (str : Port) → Cmd iio (Unit {0})
  wr_ch_str chn what str = do
    note iio (wrote_text chn what str)
    v ← call iio (iio.channel_attr_write chn what str)
    errchk iio v what

  -- `get_ad9361_phy` behind the look-up.
  unfoldable pub assert_phy : Option ℕ → Cmd iio ℕ
  assert_phy none w = aborted w
  assert_phy (some dev) w = returned dev w

  unfoldable pub get_ad9361_phy : (ctx : ℕ) → Cmd iio ℕ
  get_ad9361_phy ctx = do dev ← call iio (iio.context_find_device ctx ad9361_phy); assert_phy dev

  abbrev pub is_tx : Iodev → Bool
  is_tx rx = false
  is_tx tx = true

  unfoldable pub get_ad9361_stream_dev : (ctx : ℕ) → Iodev → Cmd iio (Option ℕ)
  get_ad9361_stream_dev ctx tx = call iio (iio.context_find_device ctx cf_ad9361_dds_core_lpc)
  get_ad9361_stream_dev ctx rx = call iio (iio.context_find_device ctx cf_ad9361_lpc)

  -- `get_ad9361_stream_ch` behind the first look-up.
  unfoldable pub second_name : (d : Iodev) (dev chid : ℕ) → Option ℕ → Cmd iio (Option ℕ)
  second_name d dev chid none = call iio (iio.device_find_channel dev (altvoltage chid) (is_tx d))
  second_name d dev chid (some chn) = pure (some chn)

  unfoldable pub get_ad9361_stream_ch : (d : Iodev) (dev chid : ℕ) → Cmd iio (Option ℕ)
  get_ad9361_stream_ch d dev chid = do
    chn ← call iio (iio.device_find_channel dev (voltage chid) (is_tx d))
    second_name d dev chid chn

  unfoldable pub get_phy_chan : (ctx : ℕ) → Iodev → (chid : ℕ) → Cmd iio (Option ℕ)
  get_phy_chan ctx d chid = do
    dev ← get_ad9361_phy ctx
    call iio (iio.device_find_channel dev (voltage chid) (is_tx d))

  abbrev pub lo_chan : Iodev → Name
  lo_chan rx = altvoltage 0
  lo_chan tx = altvoltage 1

  unfoldable pub get_lo_chan : (ctx : ℕ) → Iodev → Cmd iio (Option ℕ)
  get_lo_chan ctx d = do
    dev ← get_ad9361_phy ctx
    call iio (iio.device_find_channel dev (lo_chan d) true)

  -- `cfg_ad9361_streaming_ch` behind `get_lo_chan`.
  unfoldable pub cfg_lo : StreamCfg → Option ℕ → Cmd iio Bool
  cfg_lo cfg none = pure false
  cfg_lo cfg (some chn) = do wr_ch_lli chn frequency cfg.lo_hz; pure true

  -- `cfg_ad9361_streaming_ch` behind `get_phy_chan`.
  unfoldable pub cfg_phy : (ctx : ℕ) → StreamCfg → Iodev → Option ℕ → Cmd iio Bool
  cfg_phy ctx cfg type none = pure false
  cfg_phy ctx cfg type (some chn) = do
    wr_ch_str chn rf_port_select cfg.rfport
    wr_ch_lli chn rf_bandwidth cfg.bw_hz
    wr_ch_lli chn sampling_frequency cfg.fs_hz
    lo ← get_lo_chan ctx type
    cfg_lo cfg lo

  unfoldable pub cfg_ad9361_streaming_ch : (ctx : ℕ) → StreamCfg → Iodev → (chid : ℕ) → Cmd iio Bool
  cfg_ad9361_streaming_ch ctx cfg type chid = do
    chn ← get_phy_chan ctx type chid
    cfg_phy ctx cfg type chn

  -- `rxcfg`
  pub rxcfg : StreamCfg
  rxcfg = record {
    bw_hz = 30_000_000;
    fs_hz = 30_000_000;
    lo_hz = 2_450_000_000;
    rfport = a_balanced;
  }
