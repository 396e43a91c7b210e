-- ===== src/Link/Net/Safety.antt =====
-- Two nodes of the link (adi-sw/xcomm2ip.c): whatever the air loses, each prints what the other has
-- sent, in order, once.
use adi_bbp.Common.{
  ℕ, ◌+◌, ◌^◌, ◌≤◌, ◌<◌, ◌≡◌, ◌≢◌, ◌⊎◌, inl, inr, refl, ap, ◌∙◌, List, [], ◌∷◌, ◌++◌, arith, Option,
  some,
}
use mathlib.Core.List.{append-nil}
use adi_bbp.Tx.Memory.{Array}
use adi_bbp.Link.{TxMsg, Received, Printed, received, sent, unexpected, Node}
use adi_bbp.Link.Way.{Frame, Same, Rising, Way}
use adi_bbp.Link.Way as W
use adi_bbp.Link.Sender.{length}
use adi_bbp.Link.Way.Moves.{Way-lose, Way-lose_back}
use adi_bbp.Link.Net.{
  take_in, offer, send, turn, texts_in, texts_out, Net, Arrives, nothing, first, Fits, after_x,
  swap, Step, turn_x, turn_y, lose_x, lose_y, Reach, here, next, fresh,
}
use adi_bbp.Link.Net.Turns.{text, Owes, free, Sides, Calm, take_in-Sides, offer-Sides, send-Sides}

texts_in-append : (a b : List Printed) → texts_in (a ++ b) ≡ texts_in a ++ texts_in b
unfolding texts_in
texts_in-append [] b = refl
texts_in-append (received t ∷ a) b = ap (λ l. t ∷ l) (texts_in-append a b)
texts_in-append (sent t ∷ a) b = texts_in-append a b
texts_in-append (unexpected ∷ a) b = texts_in-append a b

texts_out-append : (a b : List Printed) → texts_out (a ++ b) ≡ texts_out a ++ texts_out b
unfolding texts_out
texts_out-append [] b = refl
texts_out-append (received t ∷ a) b = texts_out-append a b
texts_out-append (sent t ∷ a) b = ap (λ l. t ∷ l) (texts_out-append a b)
texts_out-append (unexpected ∷ a) b = texts_out-append a b

module _ (yc ya yi : ℕ) (ytext : List ℕ) where
  -- A turn of a node keeps both directions right.
  pub Turned :
      (xy rest : List Frame) (sx gy sy gx : List (List ℕ))
      → Node × List Printed × List Frame
      → Type 0
  Turned xy rest sx gy sy gx r =
      Sides yc ya yi ytext r.0 (xy ++ r.2) rest (sx ++ texts_out r.1) gy sy (gx ++ texts_in r.1)
      × (r.0.tx_msg_index ≡ 0)
      × Calm yc ya yi ytext r.0

  turn_offered :
      (s : Node) (out₁ : List Printed) (answer : Received) (xy rest : List Frame)
      (sx gy sy gx : List (List ℕ))
      → Sides yc ya yi ytext s xy rest sx gy sy (gx ++ texts_in out₁)
      → Owes s
      → Calm yc ya yi ytext s
      → texts_out out₁ ≡ []
      → Fits answer
      → length (sx ++ texts_out (out₁ ++ (offer s answer).1)) < 2 ^ 32
      → Turned xy rest sx gy sy gx
          ((send (offer s answer).0).0, out₁ ++ (offer s answer).1, (send (offer s answer).0).1)
  unfolding Turned
  turn_offered s out₁ answer xy rest sx gy sy gx sides owes calm quiet fits few =
      let outs : texts_out (out₁ ++ (offer s answer).1) ≡ texts_out (offer s answer).1 =
        texts_out-append out₁ (offer s answer).1
        ∙ ap (λ l. l ++ texts_out (offer s answer).1) quiet in
      let (offered, owed, calm', silent) =
        offer-Sides yc ya yi ytext s answer xy rest sx gy sy (gx ++ texts_in out₁) sides fits owes
          calm (rw outs at few) in
      let (after, idle, same, count) =
        send-Sides yc ya yi ytext (offer s answer).0 xy rest (sx ++ texts_out (offer s answer).1) gy
          sy (gx ++ texts_in out₁) offered owed in
      let ins : texts_in (out₁ ++ (offer s answer).1) ≡ texts_in out₁ =
        texts_in-append out₁ (offer s answer).1
        ∙ ap (λ l. texts_in out₁ ++ l) silent
        ∙ append-nil (texts_in out₁) in
      (rw (outs, ins) after, idle, rw (same, count) calm')

  turn-Turned :
      (s : Node) (arrived : Option Frame) (answer : Received) (xy line rest : List Frame)
      (sx gy sy gx : List (List ℕ))
      → Sides yc ya yi ytext s xy line sx gy sy gx
      → s.tx_msg_index ≡ 0
      → Calm yc ya yi ytext s
      → Arrives line arrived rest
      → Fits answer
      → length (sx ++ texts_out (turn s arrived answer).1) < 2 ^ 32
      → Turned xy rest sx gy sy gx (turn s arrived answer)
  unfolding turn take_in texts_in texts_out
  turn-Turned s arrived answer xy line rest sx gy sy gx sides idle calm nothing fits few =
      turn_offered s [] answer xy line sx gy sy gx (sides.0, rw (append-nil gx) sides.1) (free idle)
        calm refl fits few
  turn-Turned s arrived answer xy line rest sx gy sy gx (w, v) idle calm (first {f} g same) fits
        few =
      let (sides, owes, message, count, quiet) =
        take_in-Sides yc ya yi ytext s xy rest sx gy sy gx f g (w, v) same in
      turn_offered (take_in s (some g)).0 (take_in s (some g)).1 answer xy rest sx gy sy gx sides
        owes (rw (message, count) calm) quiet fits few

-- Both directions are right, and no node is in the middle of a round.
pub record Sound (n : Net) : Type 0 where
  pub forth :
      Way n.x.tx_msg_count n.x.rx_msg_count n.y.rx_msg_index (text n.x) n.xy n.yx n.sent_x n.got_y
  pub back :
      Way n.y.tx_msg_count n.y.rx_msg_count n.x.rx_msg_index (text n.y) n.yx n.xy n.sent_y n.got_x
  pub idle_x : n.x.tx_msg_index ≡ 0
  pub idle_y : n.y.tx_msg_index ≡ 0
  pub calm_x : (n.x.tx_msg_count ≡ 0) ⊎ (n.x.tx_msg.mtype ≤ 26)
  pub calm_y : (n.y.tx_msg_count ≡ 0) ⊎ (n.y.tx_msg.mtype ≤ 26)

-- Fewer than 2 ^ 32 messages each way, so that no counter has wrapped.
abbrev pub Few : Net → Type 0
Few n = (length n.sent_x < 2 ^ 32) × (length n.sent_y < 2 ^ 32)

length-append : (a b : List (List ℕ)) → length (a ++ b) ≡ length a + length b
unfolding length
length-append [] b = omega arith
length-append (t ∷ a) b = omega (arith, length-append a b)

Step-Few : {n n' : Net} → Step n n' → Few n' → Few n
Step-Few {n} (turn_x arrived rest answer a f e) few =
    omega (arith, rw e at few, length-append n.sent_x (texts_out (turn n.x arrived answer).1))
Step-Few {n} (turn_y arrived rest answer a f e) few =
    omega (arith, rw e at few, length-append n.sent_y (texts_out (turn n.y arrived answer).1))
Step-Few (lose_x before after f at e) few = rw e at few
Step-Few (lose_y before after f at e) few = rw e at few

swap-Sound : (n : Net) → Sound n → Sound (swap n)
swap-Sound n s = record {
  forth = s.back;
  back = s.forth;
  idle_x = s.idle_y;
  idle_y = s.idle_x;
  calm_x = s.calm_y;
  calm_y = s.calm_x;
}

turn-Sound :
    (n : Net) (arrived : Option Frame) (rest : List Frame) (answer : Received)
    → Sound n
    → Arrives n.yx arrived rest
    → Fits answer
    → length (after_x n rest (turn n.x arrived answer)).sent_x < 2 ^ 32
    → Sound (after_x n rest (turn n.x arrived answer))
unfolding Turned
turn-Sound n arrived rest answer s arrives fits few =
    let ((forth, back), idle, calm) =
      turn-Turned n.y.tx_msg_count n.y.rx_msg_count n.y.rx_msg_index (text n.y) n.x arrived answer
        n.xy n.yx rest n.sent_x n.got_y n.sent_y n.got_x (s.forth, s.back) s.idle_x s.calm_x arrives
        fits few in
    record {
      forth = forth;
      back = back;
      idle_x = idle;
      idle_y = s.idle_y;
      calm_x = calm;
      calm_y = s.calm_y;
    }

pub Step-Sound : {n n' : Net} → Step n n' → Few n' → Sound n → Sound n'
Step-Sound {n} (turn_x arrived rest answer a f e) few s =
    rw e (turn-Sound n arrived rest answer s a f (rw e at few.0))
Step-Sound {n} (turn_y arrived rest answer a f e) few s = rw e (
    swap-Sound (after_x (swap n) rest (turn n.y arrived answer))
      (turn-Sound (swap n) arrived rest answer (swap-Sound n s) a f (rw e at few.1)))
Step-Sound {n} (lose_x before after f at e) few s = rw e (record {
  forth =
      Way-lose n.x.tx_msg_count n.x.rx_msg_count n.y.rx_msg_index (text n.x) before after n.yx f
        n.sent_x n.got_y (rw at at s.forth);
  back =
      Way-lose_back n.y.tx_msg_count n.y.rx_msg_count n.x.rx_msg_index (text n.y) n.yx before after
        f n.sent_y n.got_x (rw at at s.back);
  idle_x = s.idle_x;
  idle_y = s.idle_y;
  calm_x = s.calm_x;
  calm_y = s.calm_y;
})
Step-Sound {n} (lose_y before after f at e) few s = rw e (record {
  forth =
      Way-lose_back n.x.tx_msg_count n.x.rx_msg_count n.y.rx_msg_index (text n.x) n.xy before after
        f n.sent_x n.got_y (rw at at s.forth);
  back =
      Way-lose n.y.tx_msg_count n.y.rx_msg_count n.x.rx_msg_index (text n.y) before after n.xy f
        n.sent_y n.got_x (rw at at s.back);
  idle_x = s.idle_x;
  idle_y = s.idle_y;
  calm_x = s.calm_x;
  calm_y = s.calm_y;
})

pub Reach-Sound : {n n' : Net} → Reach n n' → Sound n → Few n' → Sound n'
Reach-Sound here s few = s
Reach-Sound (next r st) s few = Step-Sound st few (Reach-Sound r s (Step-Few st few))

abbrev pub begin : Node → Node → Net
begin x y = record {
  x = x;
  y = y;
  xy = [];
  yx = [];
  sent_x = [];
  sent_y = [];
  got_x = [];
  got_y = [];
}

pub begin-Sound :
    (m m' : TxMsg) (a b a' b' : Array ℕ) → Sound (begin (fresh m a b) (fresh m' a' b'))
unfolding length
begin-Sound m m' a b a' b' = record {
  forth = record {
    low = omega arith;
    high = omega arith;
    one = omega arith;
    number = refl;
    delivered = inl (refl, refl);
    messages = W.empty;
    acks = W.empty;
  };
  back = record {
    low = omega arith;
    high = omega arith;
    one = omega arith;
    number = refl;
    delivered = inl (refl, refl);
    messages = W.empty;
    acks = W.empty;
  };
  idle_x = refl;
  idle_y = refl;
  calm_x = inl refl;
  calm_y = inl refl;
}

-- The texts that were sent are those that were printed, or those and one more, and that one is
-- not acknowledged.
abbrev pub Delivered : (s : Node) (taken printed : List (List ℕ)) → Type 0
Delivered s taken printed =
    (taken ≡ printed)
    ⊎ ((t : List ℕ) × (taken ≡ printed ++ t ∷ []) × (s.tx_msg_count ≢ s.rx_msg_count))

Way-Delivered :
    (s : Node) (i : ℕ) (xy yx : List Frame) (taken printed : List (List ℕ))
    → Way s.tx_msg_count s.rx_msg_count i (text s) xy yx taken printed
    → ((i ≡ s.tx_msg_count) × (taken ≡ printed))
      ⊎ ((i + 1 ≡ s.tx_msg_count) × (taken ≡ printed ++ text s ∷ []))
    → Delivered s taken printed
Way-Delivered s i xy yx taken printed w (inl (at, same)) = inl same
Way-Delivered s i xy yx taken printed w (inr (at, same)) = inr (text s, same, omega (arith, w.low))

-- From two nodes before their loops, after any turns of both and any losses in the air, and with
-- fewer than 2 ^ 32 messages each way, each node has printed the texts that the other took from its
-- queue, once and in order, all of them or all but the newest, and all of them when the newest
-- is acknowledged.
pub link_safety :
    (m m' : TxMsg) (a b a' b' : Array ℕ) (n : Net)
    → Reach (begin (fresh m a b) (fresh m' a' b')) n
    → Few n
    → Delivered n.x n.sent_x n.got_y × Delivered n.y n.sent_y n.got_x
link_safety m m' a b a' b' n reach few =
    let s = Reach-Sound reach (begin-Sound m m' a b a' b') few in
    (
      Way-Delivered n.x n.y.rx_msg_index n.xy n.yx n.sent_x n.got_y s.forth s.forth.delivered,
      Way-Delivered n.y n.x.rx_msg_index n.yx n.xy n.sent_y n.got_x s.back s.back.delivered,
    )
