-- ===== src/Streaming/Laws/Shutdown.antt =====
-- `shutdown` of sw/iiostream.c releases what the static variables hold.
use adi_bbp.Common.{ℕ, ◌≤◌, ◌≡◌, refl, ap, Option, none, some, List, [], ◌∷◌, arith}
use mathlib.Core.List.{Perm}
use adi_bbp.Streaming.Library.{Iio}
use adi_bbp.Streaming.State.{Statics, Handle, context, channel, buffer, World, let_go, shutdown}
use adi_bbp.Streaming.Laws.{all_acquired, all_released, all_saved, Post, Holds}

-- The handle of a static variable, before those that were released already.
abbrev pub and_also : (ℕ → Handle) → Option ℕ → List Handle → List Handle
and_also kind none hs = hs
and_also kind (some h) hs = kind h ∷ hs

-- What `shutdown` releases, the last first.
abbrev pub freed : Statics → List Handle
freed st = and_also context st.ctx (
    and_also channel st.tx0_q (
      and_also channel st.tx0_i (
        and_also channel st.rx0_q
          (and_also channel st.rx0_i (and_also buffer st.txbuf (and_also buffer st.rxbuf []))))))

module _ {iio : Iio} (hs : List Handle) (n : ℕ) where
  Freed : List Handle → World iio → Type 0
  Freed rs w =
      (all_acquired w.events ≡ hs) × (all_released w.events ≡ rs) × (all_saved w.events ≡ n)

  let_go-Freed :
      (kind : ℕ → Handle) (f : ℕ → iio.State → iio.State) (h : Option ℕ) (rs : List Handle)
      (w : World iio)
      → Freed rs w
      → Freed (and_also kind h rs) (let_go iio kind f h w)
  unfolding let_go Freed
  let_go-Freed kind f none rs w freed = freed
  let_go-Freed kind f (some h) rs w (a, r, s) = (a, ap (λ l. kind h ∷ l) r, omega (arith, s))

  -- With handles that are those of the static variables, in some order, and at most one file
  -- saved, `shutdown` ends the program with everything released.
  pub shutdown-Post :
      {A : Type 0} (P : A → World iio → Type 0) (st : Statics) (w : World iio)
      → Holds st hs n w
      → Perm (freed st) hs
      → n ≤ 1
      → Post P (shutdown iio w)
  unfolding shutdown Freed
  shutdown-Post P st w (same, a, r, s) perm few =
      let free = iio.buffer_destroy in
      let off = iio.channel_disable in
      let t = w.statics in
      let w1 = let_go iio buffer free t.rxbuf w in
      let w2 = let_go iio buffer free t.txbuf w1 in
      let w3 = let_go iio channel off t.rx0_i w2 in
      let w4 = let_go iio channel off t.rx0_q w3 in
      let w5 = let_go iio channel off t.tx0_i w4 in
      let w6 = let_go iio channel off t.tx0_q w5 in
      let f1 = let_go-Freed buffer free t.rxbuf [] w (a, r, s) in
      let f2 = let_go-Freed buffer free t.txbuf _ w1 f1 in
      let f3 = let_go-Freed channel off t.rx0_i _ w2 f2 in
      let f4 = let_go-Freed channel off t.rx0_q _ w3 f3 in
      let f5 = let_go-Freed channel off t.tx0_i _ w4 f4 in
      let f6 = let_go-Freed channel off t.tx0_q _ w5 f5 in
      let (a', r', s') = let_go-Freed context iio.context_destroy t.ctx _ w6 f6 in
      let all : freed t ≡ freed st = ap freed same in (refl, (rw (r', a', all) perm, rw s' few))
