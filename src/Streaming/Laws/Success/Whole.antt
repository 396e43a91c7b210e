-- ===== src/Streaming/Laws/Success/Whole.antt =====
-- Such a run of sw/iiostream.c as a whole.
use adi_bbp.Common.{ℕ, suc, ◌+◌, ◌*◌, ◌≡◌, refl, ap, ◌∷◌, true, false, Option, none, some, ◌==◌}
use adi_bbp.Streaming.Library.{Iio}
use adi_bbp.Streaming.State.{rx, context, buffer, acquired, World, End, is_negative, assert}
use adi_bbp.Streaming.Channels.{
  get_ad9361_stream_dev, get_ad9361_stream_ch, cfg_ad9361_streaming_ch, rxcfg,
}
use adi_bbp.Streaming.{
  savecap, count, signals, check_refill, capture, streaming, with_buffer, with_channels,
  second_channel, first_channel, with_device, with_context, main, started,
}
use adi_bbp.Streaming.Laws.Success.{Found, Works, Succeeds, Ready, Saved, follow, shutdown-Succeeds}
use adi_bbp.Streaming.Laws.Success.Setup.{
  Goes, cfg-Configures, get_ad9361_stream_dev-Finds, get_ad9361_stream_ch-Finds,
}

-- The program ends, with one file saved.
abbrev pub Completes : {iio : Iio} {A : Type 0} → End (World iio) A → Type 0
Completes r = Succeeds (λ _ _. ⊥) r

module _ {iio : Iio} (works : Works iio) where
  savecap-Saved :
      (cap nbytes : ℕ) (w : World iio)
      → Ready w
      → Succeeds (λ _. Saved) (savecap iio cap nbytes 0 w)
  unfolding savecap
  savecap-Saved cap nbytes w (none_saved, on) =
      rw (works.file_opened 0 w.outside) (ap (λ k. k + 1) none_saved)

  check_refill-Goes :
      (nbytes : ℕ) (w : World iio)
      → is_negative nbytes ≡ false
      → Ready w
      → Goes (check_refill iio nbytes w)
  unfolding check_refill
  check_refill-Goes nbytes w fine ready = rw fine ready

  count-Saved :
      (nrx nbytes size : ℕ) (w : World iio)
      → (size == 0) ≡ false
      → Saved w
      → Succeeds (λ _. Saved) (count iio nrx nbytes size w)
  unfolding count
  count-Saved nrx nbytes size w fine saved = rw fine saved

  capture-Saved :
      (dev rxbuf rx0_i nrx : ℕ) (w : World iio)
      → Ready w
      → Succeeds (λ _ v. Saved v × (v.stop ≡ true)) (capture iio dev rxbuf rx0_i nrx w)
  unfolding capture
  capture-Saved dev rxbuf rx0_i nrx w ready =
      let (nbytes, o) = iio.buffer_refill rxbuf w.outside in
      follow _ _ (check_refill iio nbytes (record w { outside = o })) _
        (check_refill-Goes nbytes (record w { outside = o }) (works.refilled rxbuf w.outside) ready)
        λ _ w₁ checked.
          let (p_dat, o') = iio.buffer_first rxbuf rx0_i w₁.outside in
          follow _ _ (savecap iio p_dat nbytes 0 (record w₁ { outside = o' })) _
            (savecap-Saved p_dat nbytes (record w₁ { outside = o' }) checked)
            λ _ w₂ kept.
              let (size, o'') = iio.device_get_sample_size dev w₂.outside in
              follow _ _ (count iio nrx nbytes size (record w₂ { outside = o'' })) _
                (count-Saved nrx nbytes size (record w₂ { outside = o'' })
                  (works.sized dev w₂.outside) kept)
                λ _ w₃ counted. (counted, refl)

  streaming-Saved :
      (rounds dev rxbuf rx0_i nrx : ℕ) (w : World iio)
      → Ready w
      → Succeeds (λ _. Saved) (streaming iio (suc (suc rounds)) dev rxbuf rx0_i nrx w)
  unfolding streaming signals
  streaming-Saved rounds dev rxbuf rx0_i nrx w (none_saved, on) =
      simp (works.quiet w.outside, on)
        (follow _ _ (capture iio dev rxbuf rx0_i nrx w) _
          (capture-Saved dev rxbuf rx0_i nrx w (none_saved, on))
          λ nrx' v (saved, stopped). simp (works.quiet v.outside, stopped) saved)

  with_buffer-Completes :
      (rounds dev rx0_i : ℕ) (b : Option ℕ) (w : World iio)
      → Found b
      → Ready w
      → Completes (with_buffer iio (suc (suc rounds)) dev rx0_i b w)
  unfolding with_buffer
  with_buffer-Completes rounds dev rx0_i none w found ready = absurd found
  with_buffer-Completes rounds dev rx0_i (some b) w found ready =
      follow _ _ (streaming iio (suc (suc rounds)) dev b rx0_i 0 _) _
        (streaming-Saved rounds dev b rx0_i 0
          (record w {
            outside = (iio.buffer_step b w.outside).1;
            events = acquired (buffer b) ∷ w.events;
          })
          ready)
        λ nrx v saved. shutdown-Succeeds _ v saved

  with_channels-Completes :
      (rounds dev rx0_i rx0_q : ℕ) (w : World iio)
      → Ready w
      → Completes (with_channels iio (suc (suc rounds)) dev rx0_i rx0_q w)
  unfolding with_channels
  with_channels-Completes rounds dev i q w ready =
      with_buffer-Completes rounds dev i _ _
        (works.buffer_found dev (50 * 1024 * 1024) false
          (iio.channel_enable q (iio.channel_enable i w.outside)))
        ready

  second_channel-Completes :
      (rounds dev rx0_i : ℕ) (q : Option ℕ) (w : World iio)
      → Found q
      → Ready w
      → Completes (second_channel iio (suc (suc rounds)) dev rx0_i q w)
  unfolding second_channel
  second_channel-Completes rounds dev i none w found ready = absurd found
  second_channel-Completes rounds dev i (some q) w found ready =
      with_channels-Completes rounds dev i q w ready

  first_channel-Completes :
      (rounds dev : ℕ) (i : Option ℕ) (w : World iio)
      → Found i
      → Ready w
      → Completes (first_channel iio (suc (suc rounds)) dev i w)
  unfolding first_channel
  first_channel-Completes rounds dev none w found ready = absurd found
  first_channel-Completes rounds dev (some i) w found ready =
      follow _ _ (get_ad9361_stream_ch iio rx dev 1 w) _
        (get_ad9361_stream_ch-Finds works rx dev 1 w ready)
        λ q v (found', ready'). second_channel-Completes rounds dev i q _ found' ready'

  with_device-Completes :
      (rounds ctx : ℕ) (dev : Option ℕ) (w : World iio)
      → Found dev
      → Ready w
      → Completes (with_device iio (suc (suc rounds)) ctx dev w)
  unfolding with_device assert
  with_device-Completes rounds ctx none w found ready = absurd found
  with_device-Completes rounds ctx (some dev) w found ready =
      follow _ _ (cfg_ad9361_streaming_ch iio ctx (rxcfg iio) rx 0 w) _
        (cfg-Configures works ctx (rxcfg iio) rx 0 w ready)
        λ ok w₁ (all, r₁). rw all (
          follow _ _ (get_ad9361_stream_ch iio rx dev 0 w₁) _
            (get_ad9361_stream_ch-Finds works rx dev 0 w₁ r₁)
            λ i v (found', r₂). first_channel-Completes rounds dev i _ found' r₂)

  with_context-Completes :
      (rounds : ℕ) (c : Option ℕ) (w : World iio)
      → Found c
      → Ready w
      → Completes (with_context iio (suc (suc rounds)) c w)
  unfolding with_context assert
  with_context-Completes rounds none w found ready = absurd found
  with_context-Completes rounds (some c) w found ready =
      let w' : World iio = record w {
        outside = (iio.context_get_devices_count c w.outside).1;
        events = acquired (context c) ∷ w.events;
      } in
      rw (works.some_devices c w.outside) (
        follow _ _ (get_ad9361_stream_dev iio c rx w') _
          (get_ad9361_stream_dev-Finds works c w' ready)
          λ dev v (found', ready'). with_device-Completes rounds c dev v found' ready')

  -- On a library in which every call succeeds, and with nobody interrupting it, the program exits
  -- with 0 and has saved exactly one file; two rounds of the loop are enough.
  pub main_success :
      (rounds : ℕ) (o : iio.State) → Completes (main iio (suc (suc rounds)) (started iio o))
  unfolding main started
  main_success rounds o = with_context-Completes rounds _ _ (works.context_found o) (refl, refl)
