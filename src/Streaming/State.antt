-- ===== src/Streaming/State.antt =====
-- The state of sw/iiostream.c, how its commands end, and `shutdown`.
use adi_bbp.Common.{
  ℕ, ◌^◌, Bool, true, false, not, Option, none, some, List, ◌∷◌, ltb, if◌then◌else◌,
}
use adi_bbp.Streaming.Library.{Iio, Attribute, Port}

-- `enum iodev`
pub data Iodev : Type 0 where
  rx : Iodev
  tx : Iodev

-- `struct stream_cfg`; the numbers are below 2 ^ 63.
pub record StreamCfg : Type 0 where
  pub bw_hz : ℕ
  pub fs_hz : ℕ
  pub lo_hz : ℕ
  pub rfport : Port

-- The handles in static variables, with `none` for NULL.
pub record Statics : Type 0 where
  pub ctx : Option ℕ
  pub rx0_i : Option ℕ
  pub rx0_q : Option ℕ
  pub tx0_i : Option ℕ
  pub tx0_q : Option ℕ
  pub rxbuf : Option ℕ
  pub txbuf : Option ℕ

pub data Handle : Type 0 where
  context : ℕ → Handle
  channel : ℕ → Handle
  buffer : ℕ → Handle

-- What the program has done outside.
pub data Event : Type 0 where
  acquired : Handle → Event
  released : Handle → Event
  wrote_text : (chn : ℕ) (what : Attribute) (text : Port) → Event
  wrote_number : (chn : ℕ) (what : Attribute) (number : ℕ) → Event
  write_error : (result : ℕ) (what : Attribute) → Event
  refill_error : (result : ℕ) → Event
  no_buffer : Event
  saved : (cap nbytes : ℕ) → Event
  waiting : Event

-- The state of the program. `events` has the newest first.
pub record World (iio : Iio) : Type 0 where
  pub outside : iio.State
  pub statics : Statics
  pub stop : Bool
  pub events : List Event

-- How a command ends: it returns, the program exits with a code, `abort` is called, the program
-- goes through a NULL pointer or divides by zero, or the rounds that it was given are over.
pub data End (W A : Type 0) : Type 0 where
  returned : A → W → End W A
  exited : (code : ℕ) → W → End W A
  aborted : W → End W A
  crashed : W → End W A
  unfinished : W → End W A

abbrev pub and_then : {W A B : Type 0} → End W A → (A → W → End W B) → End W B
and_then (returned a w) k = k a w
and_then (exited code w) k = exited code w
and_then (aborted w) k = aborted w
and_then (crashed w) k = crashed w
and_then (unfinished w) k = unfinished w

infixl 5 ◌>>=◌ ◌>>◌
abbrev pub ◌>>=◌ : {W A B : Type 0} → (W → End W A) → (A → W → End W B) → W → End W B
m >>= k = λ w. and_then (m w) k

abbrev pub ◌>>◌ : {W B : Type 0} → (W → End W (Unit {0})) → (W → End W B) → W → End W B
m >> n = m >>= λ _. n

abbrev pub pure : {W A : Type 0} → A → W → End W A
pure a w = returned a w

-- `r < 0` of an `int`
unfoldable pub is_negative : ℕ → Bool
is_negative r = not (ltb r (2 ^ 31))

module _ (iio : Iio) where
  abbrev pub Cmd : Type 0 → Type 0
  Cmd A = World iio → End (World iio) A

  -- A call of the library.
  abbrev pub call : {A : Type 0} → (iio.State → A × iio.State) → Cmd A
  call f w = returned (f w.outside).0 (record w { outside = (f w.outside).1 })

  abbrev pub note : Event → Cmd (Unit {0})
  note e w = returned tt (record w { events = e ∷ w.events })

  abbrev pub set : (Statics → Statics) → Cmd (Unit {0})
  set f w = returned tt (record w { statics = f w.statics })

  -- `ASSERT(expr)`, with the value of `expr`.
  unfoldable pub assert : Bool → Cmd (Unit {0})
  assert true w = returned tt w
  assert false w = aborted w

  -- `if (h) { release(h); }`
  unfoldable pub let_go :
      (ℕ → Handle) → (ℕ → iio.State → iio.State) → Option ℕ → World iio → World iio
  let_go kind f none w = w
  let_go kind f (some h) w = record w {
    outside = f h w.outside;
    events = released (kind h) ∷ w.events;
  }

  abbrev release : (ℕ → Handle) → (ℕ → iio.State → iio.State) → Option ℕ → Cmd (Unit {0})
  release kind f h w = returned tt (let_go kind f h w)

  -- It does not return.
  unfoldable pub shutdown : {A : Type 0} → Cmd A
  shutdown w =
      and_then
        ((release buffer iio.buffer_destroy w.statics.rxbuf
            >> release buffer iio.buffer_destroy w.statics.txbuf
            >> release channel iio.channel_disable w.statics.rx0_i
            >> release channel iio.channel_disable w.statics.rx0_q
            >> release channel iio.channel_disable w.statics.tx0_i
            >> release channel iio.channel_disable w.statics.tx0_q
            >> release context iio.context_destroy w.statics.ctx)
          w)
        (λ _ w'. exited 0 w')

  unfoldable pub handle_sig : Cmd (Unit {0})
  handle_sig w = returned tt (record w { stop = true; events = waiting ∷ w.events })

  unfoldable pub errchk : (v : ℕ) (what : Attribute) → Cmd (Unit {0})
  errchk v what w =
      if is_negative v
      then shutdown (record w { events = write_error v what ∷ w.events })
      else returned tt w
