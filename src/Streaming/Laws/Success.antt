-- ===== src/Streaming/Laws/Success.antt =====
-- A run of sw/iiostream.c on a library in which every call succeeds.
pub mod Setup
pub mod Whole
use adi_bbp.Common.{
  ℕ, zero, suc, ◌+◌, ◌≤◌, ◌≡◌, refl, ◌∙◌, Bool, true, false, not, Option, none, some, List, ◌==◌,
  if◌then◌else◌, arith,
}
use adi_bbp.Streaming.Library.{
  Iio, Device, Name, Attribute, Port, ad9361_phy, cf_ad9361_lpc, voltage, rf_port_select,
  rf_bandwidth, sampling_frequency, frequency,
}
use adi_bbp.Streaming.State.{
  Iodev, rx, tx, StreamCfg, Handle, context, channel, buffer, World, End, returned, exited, aborted,
  crashed, unfinished, and_then, is_negative, assert, let_go, shutdown, errchk,
}
use adi_bbp.Streaming.Channels.{
  wr_ch_lli, wr_ch_str, assert_phy, get_ad9361_phy, get_ad9361_stream_dev, second_name,
  get_ad9361_stream_ch, get_phy_chan, lo_chan, get_lo_chan, cfg_lo, cfg_phy,
  cfg_ad9361_streaming_ch, rxcfg, is_tx,
}
use adi_bbp.Streaming.{
  savecap, count, signals, check_refill, capture, streaming, with_buffer, with_channels,
  second_channel, first_channel, with_device, with_context, main, started,
}
use adi_bbp.Streaming.Laws.{all_saved}

-- The look-up gave a handle.
abbrev pub Found : Option ℕ → Type 0
Found none = ⊥
Found (some h) = Unit {0}

-- Every call succeeds, and nobody interrupts the program.
pub record Works (iio : Iio) : Type 0 where
  pub context_found : (o : iio.State) → Found (iio.create_default_context o).0
  pub some_devices :
      (ctx : ℕ) (o : iio.State) → ((iio.context_get_devices_count ctx o).0 == 0) ≡ false
  pub device_found :
      (ctx : ℕ) (d : Device) (o : iio.State) → Found (iio.context_find_device ctx d o).0
  pub channel_found :
      (dev : ℕ) (name : Name) (output : Bool) (o : iio.State)
      → Found (iio.device_find_channel dev name output o).0
  pub text_written :
      (chn : ℕ) (what : Attribute) (text : Port) (o : iio.State)
      → is_negative (iio.channel_attr_write chn what text o).0 ≡ false
  pub number_written :
      (chn : ℕ) (what : Attribute) (val : ℕ) (o : iio.State)
      → is_negative (iio.channel_attr_write_longlong chn what val o).0 ≡ false
  pub buffer_found :
      (dev samples : ℕ) (cyclic : Bool) (o : iio.State)
      → Found (iio.device_create_buffer dev samples cyclic o).0
  pub refilled : (buf : ℕ) (o : iio.State) → is_negative (iio.buffer_refill buf o).0 ≡ false
  pub sized : (dev : ℕ) (o : iio.State) → ((iio.device_get_sample_size dev o).0 == 0) ≡ false
  pub file_opened : (capnum : ℕ) (o : iio.State) → (iio.fopen capnum o).0 ≡ true
  pub quiet : (o : iio.State) → iio.interrupted o ≡ false

-- The command returns with `P`, or the program exits with 0 and one file saved.
abbrev pub Succeeds :
    {iio : Iio} {A : Type 0} → (A → World iio → Type 0) → End (World iio) A → Type 0
Succeeds P (returned a w) = P a w
Succeeds P (exited code w) = (code ≡ 0) × (all_saved w.events ≡ 1)
Succeeds P (aborted w) = ⊥
Succeeds P (crashed w) = ⊥
Succeeds P (unfinished w) = ⊥

-- Nothing is saved yet, and the loop is to run.
abbrev pub Ready : {iio : Iio} → World iio → Type 0
Ready w = (all_saved w.events ≡ 0) × (w.stop ≡ false)

-- One file is saved.
abbrev pub Saved : {iio : Iio} → World iio → Type 0
Saved w = all_saved w.events ≡ 1

module _ {iio : Iio} where
  pub follow :
      {A B : Type 0} (P : A → World iio → Type 0) (Q : B → World iio → Type 0)
      (r : End (World iio) A) (k : A → World iio → End (World iio) B)
      → Succeeds P r
      → ((a : A) (w : World iio) → P a w → Succeeds Q (k a w))
      → Succeeds Q (and_then r k)
  follow P Q (returned a w) k p after = after a w p
  follow P Q (exited code w) k p after = p
  follow P Q (aborted w) k p after = p
  follow P Q (crashed w) k p after = p
  follow P Q (unfinished w) k p after = p

  let_go-saved :
      (kind : ℕ → Handle) (f : ℕ → iio.State → iio.State) (h : Option ℕ) (w : World iio)
      → all_saved (let_go iio kind f h w).events ≡ all_saved w.events
  unfolding let_go
  let_go-saved kind f none w = refl
  let_go-saved kind f (some h) w = refl

  pub shutdown-Succeeds :
      {A : Type 0} (P : A → World iio → Type 0) (w : World iio)
      → Saved w
      → Succeeds P (shutdown iio w)
  unfolding shutdown
  shutdown-Succeeds P w saved =
      let free = iio.buffer_destroy in
      let off = iio.channel_disable in
      let t = w.statics in
      let w1 = let_go iio buffer free t.rxbuf w in
      let w2 = let_go iio buffer free t.txbuf w1 in
      let w3 = let_go iio channel off t.rx0_i w2 in
      let w4 = let_go iio channel off t.rx0_q w3 in
      let w5 = let_go iio channel off t.tx0_i w4 in
      let w6 = let_go iio channel off t.tx0_q w5 in
      (
        refl,
        let_go-saved context iio.context_destroy t.ctx w6
            ∙ let_go-saved channel off t.tx0_q w5
            ∙ let_go-saved channel off t.tx0_i w4
            ∙ let_go-saved channel off t.rx0_q w3
            ∙ let_go-saved channel off t.rx0_i w2
            ∙ let_go-saved buffer free t.txbuf w1
            ∙ let_go-saved buffer free t.rxbuf w
            ∙ saved,
      )
