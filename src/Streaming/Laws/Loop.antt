-- ===== src/Streaming/Laws/Loop.antt =====
-- The loop of sw/iiostream.c goes round at most once.
use adi_bbp.Common.{ℕ, suc, ◌≤◌, ◌≡◌, refl, true, Bool-cases, inl, inr, List, ◌∷◌, ◌==◌, arith}
use mathlib.Core.List.{Perm}
use adi_bbp.Streaming.Library.{Iio}
use adi_bbp.Streaming.State.{Statics, Handle, refill_error, World, is_negative, handle_sig}
use adi_bbp.Streaming.{savecap, count, signals, check_refill, capture, streaming}
use adi_bbp.Streaming.Laws.{Post, bind, Holds}
use adi_bbp.Streaming.Laws.Shutdown.{freed, shutdown-Post}

module _ {iio : Iio} (st : Statics) (hs : List Handle) where
  signals-Holds :
      (n : ℕ) (w : World iio)
      → Holds st hs n w
      → Post (λ _ v. Holds st hs n v × (w.stop ≡ true → v.stop ≡ true)) (signals iio w)
  unfolding signals handle_sig
  signals-Holds n w holds = elim (Bool-cases (iio.interrupted w.outside)) [
    | inl pressed ↦ rw pressed (holds, λ stopped. refl)
    | inr quiet ↦ rw quiet (holds, λ stopped. stopped)
  ]

  savecap-Holds :
      (cap nbytes capnum : ℕ) (w : World iio)
      → Holds st hs 0 w
      → Post (λ _. Holds st hs 1) (savecap iio cap nbytes capnum w)
  unfolding savecap
  savecap-Holds cap nbytes capnum w (same, a, r, s) =
      elim (Bool-cases (iio.fopen capnum w.outside).0) [
        | inl opened ↦ rw opened (same, a, r, omega (arith, s))
        | inr shut ↦ rw shut (r, omega (arith, s))
      ]

  count-Holds :
      (nrx nbytes size : ℕ) (w : World iio)
      → Holds st hs 1 w
      → Post (λ _. Holds st hs 1) (count iio nrx nbytes size w)
  unfolding count
  count-Holds nrx nbytes size w holds = elim (Bool-cases (size == 0)) [
    | inl by_zero ↦ rw by_zero (holds.2, omega (arith, holds.3))
    | inr fine ↦ rw fine holds
  ]

  module _ (perm : Perm (freed st) hs) where
    check_refill-Holds :
        (nbytes : ℕ) (w : World iio)
        → Holds st hs 0 w
        → Post (λ _. Holds st hs 0) (check_refill iio nbytes w)
    unfolding check_refill
    check_refill-Holds nbytes w holds = elim (Bool-cases (is_negative nbytes)) [
      | inl bad ↦ rw bad (
          shutdown-Post hs 0 (λ _. Holds st hs 0) st
            (record w { events = refill_error nbytes ∷ w.events }) holds perm (omega arith))
      | inr fine ↦ rw fine holds
    ]

    capture-Holds :
        (dev rxbuf rx0_i nrx : ℕ) (w : World iio)
        → Holds st hs 0 w
        → Post (λ _ v. Holds st hs 1 v × (v.stop ≡ true)) (capture iio dev rxbuf rx0_i nrx w)
    unfolding capture
    capture-Holds dev rxbuf rx0_i nrx w holds =
        let (nbytes, o) = iio.buffer_refill rxbuf w.outside in
        bind _ _ (check_refill iio nbytes (record w { outside = o })) _
          (check_refill-Holds nbytes (record w { outside = o }) holds)
          λ _ w₁ checked.
            let (p_dat, o') = iio.buffer_first rxbuf rx0_i w₁.outside in
            bind _ _ (savecap iio p_dat nbytes 0 (record w₁ { outside = o' })) _
              (savecap-Holds p_dat nbytes 0 (record w₁ { outside = o' }) checked)
              λ _ w₂ kept.
                let (size, o'') = iio.device_get_sample_size dev w₂.outside in
                bind _ _ (count iio nrx nbytes size (record w₂ { outside = o'' })) _
                  (count-Holds nrx nbytes size (record w₂ { outside = o'' }) kept)
                  λ _ w₃ counted. (counted, refl)

    -- The handles stand, and at most one file was saved.
    abbrev pub Streamed : World iio → Type 0
    Streamed w = (n : ℕ) × (n ≤ 1) × Holds st hs n w

    stopped-Streamed :
        (rounds dev rxbuf rx0_i nrx n : ℕ) (w : World iio)
        → n ≤ 1
        → Holds st hs n w
        → w.stop ≡ true
        → Post (λ _. Streamed) (streaming iio (suc rounds) dev rxbuf rx0_i nrx w)
    unfolding streaming
    stopped-Streamed rounds dev rxbuf rx0_i nrx n w few holds stopped =
        bind _ _ (signals iio w) _ (signals-Holds n w holds)
          λ _ v (after, still). rw (still stopped) (n, few, after)

    -- Two rounds are enough for the loop to end, with at most one file saved.
    pub streaming-Streamed :
        (rounds dev rxbuf rx0_i nrx : ℕ) (w : World iio)
        → Holds st hs 0 w
        → Post (λ _. Streamed) (streaming iio (suc (suc rounds)) dev rxbuf rx0_i nrx w)
    unfolding streaming
    streaming-Streamed rounds dev rxbuf rx0_i nrx w holds =
        bind _ _ (signals iio w) _ (signals-Holds 0 w holds) λ _ v (after, _).
          elim (Bool-cases v.stop) [
            | inl stopped ↦ rw stopped (0, omega arith, after)
            | inr on ↦ simp on (
                bind _ _ (capture iio dev rxbuf rx0_i nrx v) _
                  (capture-Holds dev rxbuf rx0_i nrx v after)
                  λ nrx' u (captured, stopped).
                    stopped-Streamed rounds dev rxbuf rx0_i nrx' 1 u (omega arith) captured stopped)
          ]
