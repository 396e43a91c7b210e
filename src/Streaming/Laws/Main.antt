-- ===== src/Streaming/Laws/Main.antt =====
-- How a run of sw/iiostream.c ends.
use adi_bbp.Common.{
  ℕ, suc, ◌*◌, refl, ap, Bool, true, false, Option, none, some, List, [], ◌∷◌, not, ◌==◌, arith,
}
use mathlib.Core.List.{Perm, perm_append_singleton}
use mathlib.Core.List.Perm
use adi_bbp.Streaming.Library.{Iio, voltage}
use adi_bbp.Streaming.State.{
  Iodev, rx, tx, Statics, Handle, context, channel, buffer, acquired, no_buffer, World, assert,
}
use adi_bbp.Streaming.Channels.{
  is_tx, rxcfg, get_ad9361_stream_dev, second_name, get_ad9361_stream_ch, cfg_ad9361_streaming_ch,
}
use adi_bbp.Streaming.{
  streaming, with_buffer, with_channels, second_channel, first_channel, with_device, with_context,
  main, started,
}
use adi_bbp.Streaming.Laws.{Post, bind, Holds}
use adi_bbp.Streaming.Laws.Shutdown.{freed, shutdown-Post}
use adi_bbp.Streaming.Laws.Cfg.{cfg_lem}
use adi_bbp.Streaming.Laws.Loop.{streaming-Streamed}

-- The static variables: nothing is ever transmitted.
abbrev pub held : (c i q b : Option ℕ) → Statics
held c i q b = record {
  ctx = c;
  rx0_i = i;
  rx0_q = q;
  tx0_i = none;
  tx0_q = none;
  rxbuf = b;
  txbuf = none;
}

-- The code never returns from `main`: it exits, aborts or crashes.
abbrev pub Never : {iio : Iio} → ℕ → World iio → Type 0
Never _ _ = ⊥

rotated : {A : Type 0} (c i q : A) → Perm (c ∷ q ∷ i ∷ []) (q ∷ i ∷ c ∷ [])
rotated c i q = Perm.trans (Perm.swap q c (i ∷ [])) (Perm.cons q (Perm.swap i c []))

module _ (iio : Iio) where
  assert-Holds :
      (b : Bool) (st : Statics) (hs : List Handle) (w : World iio)
      → Holds st hs 0 w
      → Post (λ _. Holds st hs 0) (assert iio b w)
  unfolding assert
  assert-Holds true st hs w holds = holds
  assert-Holds false st hs w holds = (holds.2, omega (arith, holds.3))

  stream_dev-Holds :
      (ctx : ℕ) (d : Iodev) (st : Statics) (hs : List Handle) (w : World iio)
      → Holds st hs 0 w
      → Post (λ _. Holds st hs 0) (get_ad9361_stream_dev iio ctx d w)
  unfolding get_ad9361_stream_dev
  stream_dev-Holds ctx rx st hs w holds = holds
  stream_dev-Holds ctx tx st hs w holds = holds

  second_name-Holds :
      (d : Iodev) (dev chid : ℕ) (chn : Option ℕ) (st : Statics) (hs : List Handle) (w : World iio)
      → Holds st hs 0 w
      → Post (λ _. Holds st hs 0) (second_name iio d dev chid chn w)
  unfolding second_name
  second_name-Holds d dev chid none st hs w holds = holds
  second_name-Holds d dev chid (some chn) st hs w holds = holds

  stream_ch-Holds :
      (d : Iodev) (dev chid : ℕ) (st : Statics) (hs : List Handle) (w : World iio)
      → Holds st hs 0 w
      → Post (λ _. Holds st hs 0) (get_ad9361_stream_ch iio d dev chid w)
  unfolding get_ad9361_stream_ch
  stream_ch-Holds d dev chid st hs w holds =
      let (chn, o) = iio.device_find_channel dev (voltage chid) (is_tx iio d) w.outside in
      second_name-Holds d dev chid chn st hs (record w { outside = o }) holds

  with_buffer-Post :
      (rounds dev c i q : ℕ) (b : Option ℕ) (w : World iio)
      → Holds (held (some c) (some i) (some q) b) (channel q ∷ channel i ∷ context c ∷ []) 0 w
      → Post Never (with_buffer iio (suc (suc rounds)) dev i b w)
  unfolding with_buffer
  with_buffer-Post rounds dev c i q none w holds =
      shutdown-Post _ 0 Never _ (record w { events = no_buffer ∷ w.events }) holds
        (rotated (context c) (channel i) (channel q)) (omega arith)
  with_buffer-Post rounds dev c i q (some b) w (same, a, r, s) =
      let st = held (some c) (some i) (some q) (some b) in
      let hs = buffer b ∷ channel q ∷ channel i ∷ context c ∷ [] in
      let w' : World iio = record w {
        outside = (iio.buffer_step b w.outside).1;
        events = acquired (buffer b) ∷ w.events;
      } in
      let perm : Perm (freed st) hs =
        Perm.trans (perm_append_singleton (buffer b) (context c ∷ channel q ∷ channel i ∷ []))
          (Perm.cons (buffer b) (rotated (context c) (channel i) (channel q))) in
      bind _ Never (streaming iio (suc (suc rounds)) dev b i 0 w') _
        (streaming-Streamed st hs perm rounds dev b i 0 w' (same, ap (λ l. buffer b ∷ l) a, r, s))
        λ nrx v (n, few, after). shutdown-Post hs n Never st v after perm few

  with_channels-Post :
      (rounds dev c i q : ℕ) (w : World iio)
      → Holds (held (some c) (some i) (some q) none) (context c ∷ []) 0 w
      → Post Never (with_channels iio (suc (suc rounds)) dev i q w)
  unfolding with_channels
  with_channels-Post rounds dev c i q w (same, a, r, s) =
      let o = iio.channel_enable q (iio.channel_enable i w.outside) in
      let (b, o') = iio.device_create_buffer dev (50 * 1024 * 1024) false o in
      with_buffer-Post rounds dev c i q b
        (record w {
          outside = o';
          statics = record w.statics { rxbuf = b };
          events = acquired (channel q) ∷ acquired (channel i) ∷ w.events;
        })
        (
          ap (λ (t : Statics). record t { rxbuf = b }) same,
          ap (λ l. channel q ∷ channel i ∷ l) a,
          r,
          s,
        )

  second_channel-Post :
      (rounds dev c i : ℕ) (q : Option ℕ) (w : World iio)
      → Holds (held (some c) (some i) q none) (context c ∷ []) 0 w
      → Post Never (second_channel iio (suc (suc rounds)) dev i q w)
  unfolding second_channel
  second_channel-Post rounds dev c i none w (same, a, r, s) = (r, omega (arith, s))
  second_channel-Post rounds dev c i (some q) w holds = with_channels-Post rounds dev c i q w holds

  first_channel-Post :
      (rounds dev c : ℕ) (i : Option ℕ) (w : World iio)
      → Holds (held (some c) i none none) (context c ∷ []) 0 w
      → Post Never (first_channel iio (suc (suc rounds)) dev i w)
  unfolding first_channel
  first_channel-Post rounds dev c none w (same, a, r, s) = (r, omega (arith, s))
  first_channel-Post rounds dev c (some i) w holds =
      bind _ Never (get_ad9361_stream_ch iio rx dev 1 w) _ (stream_ch-Holds rx dev 1 _ _ w holds)
        λ q v (same, a, r, s).
          second_channel-Post rounds dev c i q
            (record v { statics = record v.statics { rx0_q = q } })
            (ap (λ (t : Statics). record t { rx0_q = q }) same, a, r, s)

  with_device-Post :
      (rounds c : ℕ) (dev : Option ℕ) (w : World iio)
      → Holds (held (some c) none none none) (context c ∷ []) 0 w
      → Post Never (with_device iio (suc (suc rounds)) c dev w)
  unfolding with_device
  with_device-Post rounds c none w (same, a, r, s) = (r, omega (arith, s))
  with_device-Post rounds c (some dev) w holds =
      let st = held (some c) none none none in
      let hs = context c ∷ [] in
      bind _ Never (cfg_ad9361_streaming_ch iio c (rxcfg iio) rx 0 w) _
        (cfg_lem st hs 0 (Perm.refl hs) (omega arith) c 0 (rxcfg iio) rx w holds)
        λ found w₁ (configured, _).
          bind _ Never (assert iio found w₁) _ (assert-Holds found st hs w₁ configured)
            λ _ w₂ asserted.
              bind _ Never (get_ad9361_stream_ch iio rx dev 0 w₂) _
                (stream_ch-Holds rx dev 0 st hs w₂ asserted)
                λ i v (same, a, r, s).
                  first_channel-Post rounds dev c i
                    (record v { statics = record v.statics { rx0_i = i } })
                    (ap (λ (t : Statics). record t { rx0_i = i }) same, a, r, s)

  with_context-Post :
      (rounds : ℕ) (c : Option ℕ) (w : World iio)
      → Holds (held c none none none) [] 0 w
      → Post Never (with_context iio (suc (suc rounds)) c w)
  unfolding with_context
  with_context-Post rounds none w (same, a, r, s) = (r, omega (arith, s))
  with_context-Post rounds (some c) w (same, a, r, s) =
      let st = held (some c) none none none in
      let hs = context c ∷ [] in
      let (devices, o) = iio.context_get_devices_count c w.outside in
      let w' : World iio = record w { outside = o; events = acquired (context c) ∷ w.events } in
      bind _ Never (assert iio (not (devices == 0)) w') _
        (assert-Holds (not (devices == 0)) st hs w' (same, ap (λ l. context c ∷ l) a, r, s))
        λ _ w₁ asserted.
          bind _ Never (get_ad9361_stream_dev iio c rx w₁) _
            (stream_dev-Holds c rx st hs w₁ asserted)
            λ dev w₂ found. with_device-Post rounds c dev w₂ found

  -- Whatever the library does, two rounds of the loop are enough for the program to end: it exits,
  -- with 0 on every path, and has then released each handle that it acquired, once; or it aborts or
  -- crashes with nothing released. It saves at most one file.
  pub main_lem :
      (rounds : ℕ) (o : iio.State) → Post Never (main iio (suc (suc rounds)) (started iio o))
  unfolding main started
  main_lem rounds o =
      let (c, o') = iio.create_default_context o in
      with_context-Post rounds c
        (record (started iio o) { outside = o'; statics = held c none none none })
        (refl, refl, refl, refl)
