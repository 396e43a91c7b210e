-- ===== src/Streaming/Laws/Cfg.antt =====
-- `cfg_ad9361_streaming_ch` of sw/iiostream.c.
use adi_bbp.Common.{
  ℕ, ◌≤◌, ◌≡◌, refl, sym, ◌∙◌, ap, Bool, true, false, Bool-cases, inl, inr, Option, none, some,
  List, ◌∷◌,
}
use mathlib.Core.List.{Perm}
use adi_bbp.Streaming.Library.{
  Iio, Attribute, Port, rf_port_select, rf_bandwidth, sampling_frequency, frequency, ad9361_phy,
  Name, voltage, altvoltage,
}
use adi_bbp.Streaming.State.{
  Iodev, rx, tx, StreamCfg, Statics, Handle, Event, wrote_text, wrote_number, write_error, World,
  is_negative, errchk, call, ◌>>=◌,
}
use adi_bbp.Streaming.Channels.{
  wr_ch_lli, wr_ch_str, assert_phy, get_ad9361_phy, get_phy_chan, get_lo_chan, cfg_lo, cfg_phy,
  cfg_ad9361_streaming_ch,
}
use adi_bbp.Streaming.Laws.{Post, bind, Holds}
use adi_bbp.Streaming.Laws.Shutdown.{freed, shutdown-Post}

-- The phy, looked up in `o`, gives the answer `chn` for the channel of this name, and leaves `o'`.
abbrev pub Looked :
    (iio : Iio) (ctx : ℕ) (name : Name) (output : Bool) (o : iio.State) (chn : Option ℕ)
    (o' : iio.State)
    → Type 0
Looked iio ctx name output o chn o' =
    let o₁ : iio.State = (iio.context_find_device ctx ad9361_phy o).1 in
    (dev : ℕ) × ((iio.context_find_device ctx ad9361_phy o).0 ≡ some dev)
    × (chn ≡ (iio.device_find_channel dev name output o₁).0)
    × (o' ≡ (iio.device_find_channel dev name output o₁).1)

-- The channels of a direction: a receiving one is an input, and the local oscillators are outputs of
-- their own, the first for receiving and the second for sending.
abbrev pub drives : Iodev → Bool
drives rx = false
drives tx = true

abbrev pub oscillator : Iodev → Name
oscillator rx = altvoltage 0
oscillator tx = altvoltage 1

-- The three attributes of the channel.
abbrev pub three : (cfg : StreamCfg) (chn : ℕ) → List Event → List Event
three cfg chn old =
    wrote_number chn sampling_frequency cfg.fs_hz
    ∷ wrote_number chn rf_bandwidth cfg.bw_hz
    ∷ wrote_text chn rf_port_select cfg.rfport
    ∷ old

-- What they leave outside.
abbrev pub three_written : (iio : Iio) (cfg : StreamCfg) (chn : ℕ) → iio.State → iio.State
three_written iio cfg chn o =
    let port : iio.State = (iio.channel_attr_write chn rf_port_select cfg.rfport o).1 in
    let width : iio.State = (iio.channel_attr_write_longlong chn rf_bandwidth cfg.bw_hz port).1 in
    (iio.channel_attr_write_longlong chn sampling_frequency cfg.fs_hz width).1

-- What the configuration has looked up, from `o` on, and written when it returns, on top of `old`,
-- the newest first.
pub data Configured (iio : Iio) (ctx chid : ℕ) (d : Iodev) (cfg : StreamCfg) (o : iio.State)
    (old : List Event) : (found : Bool) → List Event → Type 0 where
  whole :
      (chn lo : ℕ) (o₁ o₂ : iio.State)
      → Looked iio ctx (voltage chid) (drives d) o (some chn) o₁
      → Looked iio ctx (oscillator d) true (three_written iio cfg chn o₁) (some lo) o₂
      → Configured iio ctx chid d cfg o old true
          (wrote_number lo frequency cfg.lo_hz ∷ three cfg chn old)
  no_channel :
      (o₁ : iio.State)
      → Looked iio ctx (voltage chid) (drives d) o none o₁
      → Configured iio ctx chid d cfg o old false old
  no_lo :
      (chn : ℕ) (o₁ o₂ : iio.State)
      → Looked iio ctx (voltage chid) (drives d) o (some chn) o₁
      → Looked iio ctx (oscillator d) true (three_written iio cfg chn o₁) none o₂
      → Configured iio ctx chid d cfg o old false (three cfg chn old)

module _ {iio : Iio} (st : Statics) (hs : List Handle) (n : ℕ) where
  -- The events are `es`, the world outside is `o`, and the handles are those of the static variables.
  abbrev Stands : List Event → iio.State → World iio → Type 0
  Stands es o w = Holds st hs n w × (w.events ≡ es) × (w.outside ≡ o)

  -- What the configuration from `w` on leaves: the same handles, and its writes.
  abbrev pub Done :
      (ctx chid : ℕ) (d : Iodev) (cfg : StreamCfg) (w : World iio) → Bool → World iio → Type 0
  Done ctx chid d cfg w found v =
      Holds st hs n v × Configured iio ctx chid d cfg w.outside w.events found v.events

  module _ (perm : Perm (freed st) hs) (few : n ≤ 1) where
    errchk-Stands :
        (v : ℕ) (what : Attribute) (es : List Event) (o : iio.State) (w : World iio)
        → Stands es o w
        → Post (λ _. Stands es o) (errchk iio v what w)
    unfolding errchk
    errchk-Stands v what es o w (holds, at, here) = elim (Bool-cases (is_negative v)) [
      | inr fine ↦ rw fine (holds, at, here)
      | inl bad ↦ rw bad (
          shutdown-Post hs n (λ _. Stands es o) st
            (record w { events = write_error v what ∷ w.events }) holds perm few)
    ]

    wr_ch_lli-Stands :
        (chn : ℕ) (what : Attribute) (val : ℕ) (es : List Event) (o : iio.State) (w : World iio)
        → Stands es o w
        → Post
            (λ _.
              Stands
                (wrote_number chn what val ∷ es)
                (iio.channel_attr_write_longlong chn what val o).1)
            (wr_ch_lli iio chn what val w)
    unfolding wr_ch_lli
    wr_ch_lli-Stands chn what val es o w (holds, at, here) =
        errchk-Stands _ what (wrote_number chn what val ∷ es) _ _ (
          holds,
          ap (λ l. wrote_number chn what val ∷ l) at,
          ap (λ s. (iio.channel_attr_write_longlong chn what val s).1) here,
        )

    wr_ch_str-Stands :
        (chn : ℕ) (what : Attribute) (str : Port) (es : List Event) (o : iio.State) (w : World iio)
        → Stands es o w
        → Post
            (λ _. Stands (wrote_text chn what str ∷ es) (iio.channel_attr_write chn what str o).1)
            (wr_ch_str iio chn what str w)
    unfolding wr_ch_str
    wr_ch_str-Stands chn what str es o w (holds, at, here) =
        errchk-Stands _ what (wrote_text chn what str ∷ es) _ _ (
          holds,
          ap (λ l. wrote_text chn what str ∷ l) at,
          ap (λ s. (iio.channel_attr_write chn what str s).1) here,
        )

    assert_phy-Stands :
        (dev : Option ℕ) (es : List Event) (o : iio.State) (w : World iio)
        → Stands es o w
        → Post (λ found v. (dev ≡ some found) × Stands es o v) (assert_phy iio dev w)
    unfolding assert_phy
    assert_phy-Stands none es o w (holds, at, here) = (holds.2, rw holds.3 few)
    assert_phy-Stands (some dev) es o w stands = (refl, stands)

    -- A channel was looked up from `o` on.
    abbrev Answered :
        (ctx : ℕ) (name : Name) (output : Bool) (es : List Event) (o : iio.State)
        → Option ℕ
        → World iio
        → Type 0
    Answered ctx name output es o chn v =
        Looked iio ctx name output o chn v.outside × Stands es v.outside v

    look_up-Answered :
        (ctx : ℕ) (name : Name) (output : Bool) (es : List Event) (o : iio.State) (w : World iio)
        → Stands es o w
        → Post (Answered ctx name output es o) (
            (get_ad9361_phy iio ctx >>= λ dev. call iio (iio.device_find_channel dev name output))
              w)
    unfolding get_ad9361_phy
    look_up-Answered ctx name output es o w (holds, at, here) =
        let find : iio.State → Option ℕ × iio.State = iio.context_find_device ctx ad9361_phy in
        let w' : World iio = record w { outside = (find w.outside).1 } in
        bind (λ dev v. ((find w.outside).0 ≡ some dev) × Stands es (find o).1 v)
          (Answered ctx name output es o) (assert_phy iio (find w.outside).0 w') _
          (assert_phy-Stands (find w.outside).0 es (find o).1 w'
            (holds, at, ap (λ s. (find s).1) here))
          λ dev v (phy, (holds', at', here')). (
            (
              dev,
              ap (λ s. (find s).0) (sym here) ∙ phy,
              ap (λ s. (iio.device_find_channel dev name output s).0) here',
              ap (λ s. (iio.device_find_channel dev name output s).1) here',
            ),
            (holds', at', refl),
          )

    get_phy_chan-Answered :
        (ctx chid : ℕ) (d : Iodev) (w : World iio)
        → Holds st hs n w
        → Post
            (Answered ctx (voltage chid) (drives d) w.events w.outside)
            (get_phy_chan iio ctx d chid w)
    unfolding get_phy_chan
    get_phy_chan-Answered ctx chid rx w holds =
        look_up-Answered ctx (voltage chid) false w.events w.outside w (holds, refl, refl)
    get_phy_chan-Answered ctx chid tx w holds =
        look_up-Answered ctx (voltage chid) true w.events w.outside w (holds, refl, refl)

    get_lo_chan-Answered :
        (ctx : ℕ) (d : Iodev) (es : List Event) (o : iio.State) (w : World iio)
        → Stands es o w
        → Post (Answered ctx (oscillator d) true es o) (get_lo_chan iio ctx d w)
    unfolding get_lo_chan
    get_lo_chan-Answered ctx rx es o w stands =
        look_up-Answered ctx (altvoltage 0) true es o w stands
    get_lo_chan-Answered ctx tx es o w stands =
        look_up-Answered ctx (altvoltage 1) true es o w stands

    module _ (ctx chid : ℕ) (d : Iodev) (cfg : StreamCfg) (w : World iio) where
      cfg_lo-Done :
          (chn : ℕ) (o₁ : iio.State) (lo : Option ℕ) (v : World iio)
          → Looked iio ctx (voltage chid) (drives d) w.outside (some chn) o₁
          → Answered ctx
              (oscillator d)
              true
              (three cfg chn w.events)
              (three_written iio cfg chn o₁)
              lo
              v
          → Post (Done ctx chid d cfg w) (cfg_lo iio cfg lo v)
      unfolding cfg_lo
      cfg_lo-Done chn o₁ none v first (second, (holds, at, here)) =
          (holds, rw at (no_lo chn o₁ v.outside first second))
      cfg_lo-Done chn o₁ (some lo) v first (second, stands) =
          bind _ (Done ctx chid d cfg w) (wr_ch_lli iio lo frequency cfg.lo_hz v) _
            (wr_ch_lli-Stands lo frequency cfg.lo_hz _ _ v stands)
            λ _ u (holds, at, here). (holds, rw at (whole chn lo o₁ v.outside first second))

      cfg_phy-Done :
          (chn : Option ℕ) (v : World iio)
          → Answered ctx (voltage chid) (drives d) w.events w.outside chn v
          → Post (Done ctx chid d cfg w) (cfg_phy iio ctx cfg d chn v)
      unfolding cfg_phy
      cfg_phy-Done none v (first, (holds, at, here)) = (holds, rw at (no_channel v.outside first))
      cfg_phy-Done (some chn) v (first, stands) =
          bind _ (Done ctx chid d cfg w) (wr_ch_str iio chn rf_port_select cfg.rfport v) _
            (wr_ch_str-Stands chn rf_port_select cfg.rfport _ _ v stands)
            λ _ w₁ s₁.
              bind _ (Done ctx chid d cfg w) (wr_ch_lli iio chn rf_bandwidth cfg.bw_hz w₁) _
                (wr_ch_lli-Stands chn rf_bandwidth cfg.bw_hz _ _ w₁ s₁)
                λ _ w₂ s₂.
                  bind _ (Done ctx chid d cfg w) (wr_ch_lli iio chn sampling_frequency cfg.fs_hz w₂)
                    _ (wr_ch_lli-Stands chn sampling_frequency cfg.fs_hz _ _ w₂ s₂)
                    λ _ w₃ s₃.
                      bind _ (Done ctx chid d cfg w) (get_lo_chan iio ctx d w₃) _
                        (get_lo_chan-Answered ctx d _ _ w₃ s₃)
                        λ lo w₄ s₄. cfg_lo-Done chn v.outside lo w₄ first s₄

    pub cfg_lem :
        (ctx chid : ℕ) (cfg : StreamCfg) (d : Iodev) (w : World iio)
        → Holds st hs n w
        → Post (Done ctx chid d cfg w) (cfg_ad9361_streaming_ch iio ctx cfg d chid w)
    unfolding cfg_ad9361_streaming_ch
    cfg_lem ctx chid cfg d w holds =
        bind _ (Done ctx chid d cfg w) (get_phy_chan iio ctx d chid w) _
          (get_phy_chan-Answered ctx chid d w holds)
          λ chn v answered. cfg_phy-Done ctx chid d cfg w chn v answered
