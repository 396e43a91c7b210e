-- ===== src/Streaming/Laws/Success/Setup.antt =====
-- The look-ups and the configuration in such a run of sw/iiostream.c.
use adi_bbp.Common.{ℕ, ◌≡◌, refl, Bool, true, false, Option, none, some}
use adi_bbp.Streaming.Library.{
  Iio, Attribute, Port, ad9361_phy, cf_ad9361_lpc, voltage, rf_port_select, rf_bandwidth,
  sampling_frequency, frequency,
}
use adi_bbp.Streaming.State.{Iodev, rx, StreamCfg, World, End, is_negative, errchk}
use adi_bbp.Streaming.Channels.{
  wr_ch_lli, wr_ch_str, assert_phy, get_ad9361_phy, get_ad9361_stream_dev, second_name,
  get_ad9361_stream_ch, get_phy_chan, lo_chan, get_lo_chan, cfg_lo, cfg_phy,
  cfg_ad9361_streaming_ch, is_tx,
}
use adi_bbp.Streaming.Laws.Success.{Found, Works, Succeeds, Ready, follow}

-- The step goes on, ready, and if it looks something up it finds it.
abbrev pub Goes : {iio : Iio} {A : Type 0} → End (World iio) A → Type 0
Goes r = Succeeds (λ _. Ready) r

abbrev pub Finds : {iio : Iio} → End (World iio) (Option ℕ) → Type 0
Finds r = Succeeds (λ h w. Found h × Ready w) r

module _ {iio : Iio} (works : Works iio) where
  errchk-Goes :
      (v : ℕ) (what : Attribute) (w : World iio)
      → is_negative v ≡ false
      → Ready w
      → Goes (errchk iio v what w)
  unfolding errchk
  errchk-Goes v what w fine ready = rw fine ready

  wr_ch_lli-Goes :
      (chn : ℕ) (what : Attribute) (val : ℕ) (w : World iio)
      → Ready w
      → Goes (wr_ch_lli iio chn what val w)
  unfolding wr_ch_lli
  wr_ch_lli-Goes chn what val w ready =
      errchk-Goes _ what _ (works.number_written chn what val w.outside) ready

  wr_ch_str-Goes :
      (chn : ℕ) (what : Attribute) (str : Port) (w : World iio)
      → Ready w
      → Goes (wr_ch_str iio chn what str w)
  unfolding wr_ch_str
  wr_ch_str-Goes chn what str w ready =
      errchk-Goes _ what _ (works.text_written chn what str w.outside) ready

  assert_phy-Goes :
      (dev : Option ℕ) (w : World iio) → Found dev → Ready w → Goes (assert_phy iio dev w)
  unfolding assert_phy
  assert_phy-Goes none w found ready = absurd found
  assert_phy-Goes (some dev) w found ready = ready

  get_ad9361_phy-Goes : (ctx : ℕ) (w : World iio) → Ready w → Goes (get_ad9361_phy iio ctx w)
  unfolding get_ad9361_phy
  get_ad9361_phy-Goes ctx w ready =
      let (dev, o) = iio.context_find_device ctx ad9361_phy w.outside in
      assert_phy-Goes dev (record w { outside = o }) (works.device_found ctx ad9361_phy w.outside)
        ready

  get_phy_chan-Finds :
      (ctx : ℕ) (d : Iodev) (chid : ℕ) (w : World iio)
      → Ready w
      → Finds (get_phy_chan iio ctx d chid w)
  unfolding get_phy_chan
  get_phy_chan-Finds ctx d chid w ready =
      follow _ _ (get_ad9361_phy iio ctx w) _ (get_ad9361_phy-Goes ctx w ready)
        λ dev v ready'. (works.channel_found dev (voltage chid) (is_tx iio d) v.outside, ready')

  get_lo_chan-Finds :
      (ctx : ℕ) (d : Iodev) (w : World iio) → Ready w → Finds (get_lo_chan iio ctx d w)
  unfolding get_lo_chan
  get_lo_chan-Finds ctx d w ready =
      follow _ _ (get_ad9361_phy iio ctx w) _ (get_ad9361_phy-Goes ctx w ready)
        λ dev v ready'. (works.channel_found dev (lo_chan iio d) true v.outside, ready')

  -- The configuration says that it found all.
  abbrev pub Configures : End (World iio) Bool → Type 0
  Configures r = Succeeds (λ b w. (b ≡ true) × Ready w) r

  cfg_lo-Configures :
      (cfg : StreamCfg) (lo : Option ℕ) (w : World iio)
      → Found lo
      → Ready w
      → Configures (cfg_lo iio cfg lo w)
  unfolding cfg_lo
  cfg_lo-Configures cfg none w found ready = absurd found
  cfg_lo-Configures cfg (some lo) w found ready =
      follow _ _ (wr_ch_lli iio lo frequency cfg.lo_hz w) _
        (wr_ch_lli-Goes lo frequency cfg.lo_hz w ready) λ _ v ready'. (refl, ready')

  cfg_phy-Configures :
      (ctx : ℕ) (cfg : StreamCfg) (d : Iodev) (chn : Option ℕ) (w : World iio)
      → Found chn
      → Ready w
      → Configures (cfg_phy iio ctx cfg d chn w)
  unfolding cfg_phy
  cfg_phy-Configures ctx cfg d none w found ready = absurd found
  cfg_phy-Configures ctx cfg d (some chn) w found ready =
      follow _ _ (wr_ch_str iio chn rf_port_select cfg.rfport w) _
        (wr_ch_str-Goes chn rf_port_select cfg.rfport w ready)
        λ _ w₁ r₁.
          follow _ _ (wr_ch_lli iio chn rf_bandwidth cfg.bw_hz w₁) _
            (wr_ch_lli-Goes chn rf_bandwidth cfg.bw_hz w₁ r₁)
            λ _ w₂ r₂.
              follow _ _ (wr_ch_lli iio chn sampling_frequency cfg.fs_hz w₂) _
                (wr_ch_lli-Goes chn sampling_frequency cfg.fs_hz w₂ r₂)
                λ _ w₃ r₃.
                  follow _ _ (get_lo_chan iio ctx d w₃) _ (get_lo_chan-Finds ctx d w₃ r₃)
                    λ lo w₄ (found', r₄). cfg_lo-Configures cfg lo w₄ found' r₄

  pub cfg-Configures :
      (ctx : ℕ) (cfg : StreamCfg) (d : Iodev) (chid : ℕ) (w : World iio)
      → Ready w
      → Configures (cfg_ad9361_streaming_ch iio ctx cfg d chid w)
  unfolding cfg_ad9361_streaming_ch
  cfg-Configures ctx cfg d chid w ready =
      follow _ _ (get_phy_chan iio ctx d chid w) _ (get_phy_chan-Finds ctx d chid w ready)
        λ chn v (found, ready'). cfg_phy-Configures ctx cfg d chn v found ready'

  pub get_ad9361_stream_dev-Finds :
      (ctx : ℕ) (w : World iio) → Ready w → Finds (get_ad9361_stream_dev iio ctx rx w)
  unfolding get_ad9361_stream_dev
  get_ad9361_stream_dev-Finds ctx w ready = (works.device_found ctx cf_ad9361_lpc w.outside, ready)

  second_name-Finds :
      (d : Iodev) (dev chid : ℕ) (chn : Option ℕ) (w : World iio)
      → Found chn
      → Ready w
      → Finds (second_name iio d dev chid chn w)
  unfolding second_name
  second_name-Finds d dev chid none w found ready = absurd found
  second_name-Finds d dev chid (some chn) w found ready = (found, ready)

  pub get_ad9361_stream_ch-Finds :
      (d : Iodev) (dev chid : ℕ) (w : World iio)
      → Ready w
      → Finds (get_ad9361_stream_ch iio d dev chid w)
  unfolding get_ad9361_stream_ch
  get_ad9361_stream_ch-Finds d dev chid w ready =
      let (chn, o) = iio.device_find_channel dev (voltage chid) (is_tx iio d) w.outside in
      second_name-Finds d dev chid chn (record w { outside = o })
        (works.channel_found dev (voltage chid) (is_tx iio d) w.outside) ready
