-- ===== src/Streaming.antt =====
-- sw/iiostream.c: the capture of samples through libiio. The library, the terminal and the file
-- system are not code of the repository; the progress messages are left out.
pub mod Library
pub mod State
pub mod Channels
pub mod Laws
mod Tests
use adi_bbp.Common.{
  ℕ, zero, suc, ◌+◌, ◌-◌, ◌*◌, ◌/◌, ◌%◌, ◌^◌, Bool, true, false, not, Option, none, some, List, [],
  ◌∷◌, ltb, ◌==◌, if◌then◌else◌,
}
use adi_bbp.Streaming.Library.{
  Iio, ad9361_phy, cf_ad9361_dds_core_lpc, cf_ad9361_lpc, Name, voltage, altvoltage, Attribute,
  rf_port_select, rf_bandwidth, sampling_frequency, frequency, Port, a_balanced,
}
use adi_bbp.Streaming.State.{
  Iodev, rx, tx, StreamCfg, Statics, Handle, context, channel, buffer, Event, acquired, released,
  wrote_text, wrote_number, write_error, refill_error, no_buffer, saved, waiting, World, End,
  returned, exited, aborted, crashed, unfinished, and_then, ◌>>=◌, ◌>>◌, pure, is_negative, Cmd,
  call, note, set, assert, let_go, shutdown, handle_sig, errchk,
}
use adi_bbp.Streaming.Channels.{
  wr_ch_lli, wr_ch_str, assert_phy, get_ad9361_phy, is_tx, get_ad9361_stream_dev, second_name,
  get_ad9361_stream_ch, get_phy_chan, lo_chan, get_lo_chan, cfg_lo, cfg_phy,
  cfg_ad9361_streaming_ch, rxcfg,
}

module _ (iio : Iio) where
  -- `fwrite` goes through the NULL of a failed `fopen`.
  pub savecap : (cap nbytes capnum : ℕ) → Cmd iio (Unit {0})
  savecap cap nbytes capnum w =
      let (opened, o) = iio.fopen capnum w.outside in
      if opened
      then returned tt (record w {
        outside = iio.fwrite_fclose capnum cap nbytes o;
        events = saved cap nbytes ∷ w.events;
      })
      else crashed (record w { outside = o })

  -- `nrx += nbytes_rx / iio_device_get_sample_size(rx)`, of two numbers of 32 bits of which the first
  -- is not negative.
  pub count : (nrx nbytes size : ℕ) → Cmd iio ℕ
  count nrx nbytes size =
      if size == 0
      then crashed
      else pure (
          if is_negative size
          then (nrx + (2 ^ 32 - nbytes / (2 ^ 32 - size))) % 2 ^ 32
          else (nrx + nbytes / size) % 2 ^ 32)

  -- Before each test of `stop` the handler runs if there was a signal.
  pub signals : Cmd iio (Unit {0})
  signals w = if iio.interrupted w.outside then handle_sig iio w else returned tt w

  -- `if (nbytes_rx < 0) { ...; shutdown(); }`
  pub check_refill : (nbytes : ℕ) → Cmd iio (Unit {0})
  check_refill nbytes w =
      if is_negative nbytes
      then shutdown iio (record w { events = refill_error nbytes ∷ w.events })
      else returned tt w

  -- The body of the loop.
  pub capture : (dev rxbuf rx0_i nrx : ℕ) → Cmd iio ℕ
  capture dev rxbuf rx0_i nrx = do
    nbytes ← call iio (iio.buffer_refill rxbuf)
    check_refill nbytes
    p_dat ← call iio (iio.buffer_first rxbuf rx0_i)
    savecap p_dat nbytes 0
    size ← call iio (iio.device_get_sample_size dev)
    nrx' ← count nrx nbytes size
    λ w. returned nrx' (record w { stop = true })

  -- `while (!stop)`
  pub streaming : (rounds dev rxbuf rx0_i nrx : ℕ) → Cmd iio ℕ
  streaming zero dev rxbuf rx0_i nrx = unfinished
  streaming (suc rounds) dev rxbuf rx0_i nrx = signals >> λ w.
      if w.stop
      then returned nrx w
      else and_then (capture dev rxbuf rx0_i nrx w) (streaming rounds dev rxbuf rx0_i)

  -- `main` behind `iio_device_create_buffer`.
  pub with_buffer : (rounds dev rx0_i : ℕ) → Option ℕ → Cmd iio ℕ
  with_buffer rounds dev rx0_i none = note iio no_buffer >> shutdown iio
  with_buffer rounds dev rx0_i (some rxbuf) = do
    note iio (acquired (buffer rxbuf))
    step ← call iio (iio.buffer_step rxbuf)
    nrx ← streaming rounds dev rxbuf rx0_i 0
    shutdown iio

  -- `main` from the enabling of the channels.
  pub with_channels : (rounds dev rx0_i rx0_q : ℕ) → Cmd iio ℕ
  with_channels rounds dev rx0_i rx0_q = do
    (λ w. returned tt (record w {
      outside = iio.channel_enable rx0_i w.outside;
      events = acquired (channel rx0_i) ∷ w.events;
    }))
    (λ w. returned tt (record w {
      outside = iio.channel_enable rx0_q w.outside;
      events = acquired (channel rx0_q) ∷ w.events;
    }))
    buf ← call iio (iio.device_create_buffer dev (50 * 1024 * 1024) false)
    set iio (λ s. record s { rxbuf = buf })
    with_buffer rounds dev rx0_i buf

  -- `main` from the look-up of the second channel.
  pub second_channel : (rounds dev rx0_i : ℕ) → Option ℕ → Cmd iio ℕ
  second_channel rounds dev rx0_i none = aborted
  second_channel rounds dev rx0_i (some rx0_q) = with_channels rounds dev rx0_i rx0_q

  -- `main` from the look-up of the first channel.
  pub first_channel : (rounds dev : ℕ) → Option ℕ → Cmd iio ℕ
  first_channel rounds dev none = aborted
  first_channel rounds dev (some rx0_i) = do
    q ← get_ad9361_stream_ch iio rx dev 1
    set iio (λ s. record s { rx0_q = q })
    second_channel rounds dev rx0_i q

  -- `main` from the look-up of the streaming device.
  pub with_device : (rounds ctx : ℕ) → Option ℕ → Cmd iio ℕ
  with_device rounds ctx none = aborted
  with_device rounds ctx (some dev) = do
    found ← cfg_ad9361_streaming_ch iio ctx (rxcfg iio) rx 0
    assert iio found
    i ← get_ad9361_stream_ch iio rx dev 0
    set iio (λ s. record s { rx0_i = i })
    first_channel rounds dev i

  -- `main` behind `iio_create_default_context`.
  pub with_context : (rounds : ℕ) → Option ℕ → Cmd iio ℕ
  with_context rounds none = aborted
  with_context rounds (some ctx) = do
    note iio (acquired (context ctx))
    devices ← call iio (iio.context_get_devices_count ctx)
    assert iio (not (devices == 0))
    dev ← get_ad9361_stream_dev iio ctx rx
    with_device rounds ctx dev

  -- `main`, with the rounds that the loop may take.
  pub main : (rounds : ℕ) → Cmd iio ℕ
  main rounds = do
    ctx ← call iio iio.create_default_context
    set iio (λ s. record s { ctx = ctx })
    with_context rounds ctx

  -- The program as it starts.
  pub started : iio.State → World iio
  started o = record {
    outside = o;
    statics = record {
      ctx = none;
      rx0_i = none;
      rx0_q = none;
      tx0_i = none;
      tx0_q = none;
      rxbuf = none;
      txbuf = none;
    };
    stop = false;
    events = [];
  }
