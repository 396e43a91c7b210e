-- ===== src/Link/Net/Turns.antt =====
-- What the parts of a round (adi-sw/xcomm2ip.c) do to the two directions of the link.
use adi_bbp.Common.{
  ℕ, zero, suc, ◌+◌, ◌%◌, ◌^◌, ◌≤◌, ◌<◌, ◌≡◌, ◌≢◌, ◌⊎◌, inl, inr, refl, List, [], ◌∷◌, ◌++◌, Bool,
  Bool-cases, ◌==◌, ==→eq, ==→ne, ==_ne, if◌then◌else◌, arith, true, false, some,
}
use mathlib.Core.List.{append-nil}
use adi_bbp.Tx.Memory.{Array}
use adi_bbp.Link.{
  Received, message, enomsg, failed, Printed, received, Node, chars, accept, load_message,
}
use adi_bbp.Link.Laws.{accept_data, load_message_lem}
use adi_bbp.Link.Way.{Frame, Same, text_of, Way}
use adi_bbp.Link.Sender.{length}
use adi_bbp.Link.Way.Moves.{
  length-snoc, Way-count, Way-send, Way-send_ack, Way-acknowledge, Way-back, Way-deliver, Way-skip,
  Way-acked, Way-unacked,
}
use adi_bbp.Link.Net.{take_in, offer, send, texts_in, texts_out, Fits, short, empty, broken}

-- The text of the message that a node sends.
abbrev pub text : Node → List ℕ
text s = chars s.tx_msg.mtext s.tx_msg.mtype 0

-- What a node has in `tx_msg_data` to send.
pub data Owes (s : Node) : Type 0 where
  free : s.tx_msg_index ≡ 0 → Owes s
  owes_ack : s.tx_msg_index ≡ 1 → s.tx_msg_data 3 ≡ 0x3a → s.tx_msg_data 4 ≡ s.rx_msg_index → Owes s
  owes_message :
      s.tx_msg_index ≡ 1
      → s.tx_msg_data 3 ≡ 0xa1
      → s.tx_msg_data 4 ≡ s.tx_msg_count
      → (s.tx_msg_data 5 ≤ 26) × (text_of s.tx_msg_data ≡ text s)
      → Owes s

chars-shift :
    (f g : Array ℕ) (left n : ℕ)
    → ((j : ℕ) → n ≤ j → j < n + left → f (6 + j) ≡ g j)
    → chars f left (6 + n) ≡ chars g left n
unfolding chars
chars-shift f g zero n same = refl
chars-shift f g (suc left) n same =
    let next : 6 + n + 1 ≡ 6 + (n + 1) = omega arith in
    rw
      (
        same n (omega arith) (omega arith),
        next,
        chars-shift f g left (n + 1) (λ j a b. same j (omega arith) (omega arith)),
      )
      refl

pub text-load_message :
    (s : Node)
    → s.tx_msg.mtype ≤ 26
    → ((load_message s).tx_msg_data 5 ≤ 26) × (text_of (load_message s).tx_msg_data ≡ text s)
text-load_message s fits =
    let (_, _, size, body) = load_message_lem s (omega arith) in
    (
      omega arith,
      rw size (
          chars-shift (load_message s).tx_msg_data s.tx_msg.mtext s.tx_msg.mtype 0
            (λ j a b. body j (omega arith))),
    )

pub texts_in-once :
    (b : Bool) (t : List ℕ) (got : List (List ℕ))
    → got ++ texts_in (if b then [] else received t ∷ []) ≡ (if b then got else got ++ t ∷ [])
unfolding texts_in
texts_in-once true t got = append-nil got
texts_in-once false t got = refl

texts_out-once : (b : Bool) (t : List ℕ) → texts_out (if b then [] else received t ∷ []) ≡ []
unfolding texts_out
texts_out-once true t = refl
texts_out-once false t = refl

-- The other node's numbers stay as they are.
module _ (yc ya yi : ℕ) (ytext : List ℕ) where
  abbrev pub Sides : (s : Node) (xy yx : List Frame) (sx gy sy gx : List (List ℕ)) → Type 0
  Sides s xy yx sx gy sy gx =
      Way s.tx_msg_count s.rx_msg_count yi (text s) xy yx sx gy
      × Way yc ya s.rx_msg_index ytext yx xy sy gx

  -- A node between two rounds, and within one.
  abbrev pub Calm : Node → Type 0
  Calm s = (s.tx_msg_count ≡ 0) ⊎ (s.tx_msg.mtype ≤ 26)

  pub take_in-Sides :
      (s : Node) (xy rest : List Frame) (sx gy sy gx : List (List ℕ)) (f g : Frame)
      → Sides s xy (f ∷ rest) sx gy sy gx
      → Same f g
      → Sides (take_in s (some g)).0 xy rest sx gy sy (gx ++ texts_in (take_in s (some g)).1)
        × Owes (take_in s (some g)).0
        × ((take_in s (some g)).0.tx_msg ≡ s.tx_msg)
        × ((take_in s (some g)).0.tx_msg_count ≡ s.tx_msg_count)
        × (texts_out (take_in s (some g)).1 ≡ [])
  unfolding take_in accept texts_in texts_out
  take_in-Sides s xy rest sx gy sy gx f g (w, v) same = elim (Bool-cases (g 3 == 0xa1)) [
    | inl is ↦
        let kind : g 3 ≡ 0xa1 = ==→eq (g 3) 0xa1 is in
        let not_ack : g 3 ≢ 0x3a = omega arith in
        let other : (g 3 == 0x3a) ≡ false = ==_ne (g 3) 0x3a not_ack in
        let (_, ready, copied, _, _) = accept_data (record s { rx_msg_data = g }) kind in
        rw (is, other)
          (
            (
              Way-unacked s.tx_msg_count s.rx_msg_count yi (text s) xy rest sx gy f g w same
                  not_ack,
              rw (texts_in-once (s.rx_msg_index == g 4) (text_of g) gx)
                  (Way-deliver yc ya s.rx_msg_index ytext rest xy sy gx f g v same kind),
            ),
            owes_ack refl refl (rw is at (copied 4 (omega arith) (omega arith))),
            refl,
            refl,
            texts_out-once (s.rx_msg_index == g 4) (text_of g),
          )
    | inr isnt ↦ elim (Bool-cases (g 3 == 0x3a)) [
      | inl is ↦
          rw (isnt, is)
            (
              (
                Way-acked s.tx_msg_count s.rx_msg_count yi (text s) xy rest sx gy f g w same
                    (==→eq (g 3) 0x3a is),
                rw (append-nil gx) (
                    Way-skip yc ya s.rx_msg_index ytext rest xy sy gx f g v same
                      (==→ne (g 3) 0xa1 isnt)),
              ),
              free refl,
              refl,
              refl,
              refl,
            )
      | inr neither ↦
          rw (isnt, neither)
            (
              (
                Way-unacked s.tx_msg_count s.rx_msg_count yi (text s) xy rest sx gy f g w same
                    (==→ne (g 3) 0x3a neither),
                rw (append-nil gx) (
                    Way-skip yc ya s.rx_msg_index ytext rest xy sy gx f g v same
                      (==→ne (g 3) 0xa1 isnt)),
              ),
              free refl,
              refl,
              refl,
              refl,
            )
    ]
  ]

  -- What `offer-Sides` promises of the result of `offer`.
  abbrev pub Offered :
      (s : Node) (xy yx : List Frame) (sx gy sy gx : List (List ℕ))
      → Node × List Printed × Bool
      → Type 0
  Offered s xy yx sx gy sy gx r =
      Sides r.0 xy yx (sx ++ texts_out r.1) gy sy gx × Owes r.0 × Calm r.0 × (texts_in r.1 ≡ [])

  offer_answer :
      (s : Node) (answer : Received) (xy yx : List Frame) (sx gy sy gx : List (List ℕ))
      → Sides s xy yx sx gy sy gx
      → Fits answer
      → s.tx_msg_index ≡ 0
      → s.tx_msg_count ≡ s.rx_msg_count
      → Calm s
      → length (sx ++ texts_out (offer s answer).1) < 2 ^ 32
      → Offered s xy yx sx gy sy gx (offer s answer)
  unfolding offer texts_out texts_in load_message
  offer_answer s (message m) xy yx sx gy sy gx (w, v) (short fits) at settled calm few =
      let index : (s.tx_msg_index == 0) ≡ true = ground (arith, at) in
      let acked : (s.tx_msg_count == s.rx_msg_count) ≡ true = ground (arith, settled) in
      let t : List ℕ = chars m.mtext m.mtype 0 in
      let few' : length (sx ++ t ∷ []) < 2 ^ 32 = rw (index, acked) at few in
      let count : (s.tx_msg_count + 1) % 2 ^ 32 ≡ s.tx_msg_count + 1 =
        omega (arith, few', length-snoc sx t, w.number) in
      let up = Way-count s.tx_msg_count s.rx_msg_count yi (text s) xy yx sx gy t w settled in
      rw (index, acked)
        (
          (rw count up, v),
          owes_message refl refl refl (
              text-load_message
                (record s {
                  tx_msg = m;
                  tx_msg_index = 1;
                  tx_msg_count = (s.tx_msg_count + 1) % 2 ^ 32;
                })
                fits),
          inr fits,
          refl,
        )
  offer_answer s enomsg xy yx sx gy sy gx (w, v) empty at settled calm few =
      let index : (s.tx_msg_index == 0) ≡ true = ground (arith, at) in
      let acked : (s.tx_msg_count == s.rx_msg_count) ≡ true = ground (arith, settled) in
      rw (index, acked) ((rw (append-nil sx) w, v), free at, calm, refl)
  offer_answer s failed xy yx sx gy sy gx (w, v) broken at settled calm few =
      let index : (s.tx_msg_index == 0) ≡ true = ground (arith, at) in
      let acked : (s.tx_msg_count == s.rx_msg_count) ≡ true = ground (arith, settled) in
      rw (index, acked) ((rw (append-nil sx) w, v), free at, calm, refl)

  pub offer-Sides :
      (s : Node) (answer : Received) (xy yx : List Frame) (sx gy sy gx : List (List ℕ))
      → Sides s xy yx sx gy sy gx
      → Fits answer
      → Owes s
      → Calm s
      → length (sx ++ texts_out (offer s answer).1) < 2 ^ 32
      → Offered s xy yx sx gy sy gx (offer s answer)
  unfolding offer texts_out texts_in load_message
  offer-Sides s answer xy yx sx gy sy gx (w, v) fits owes calm few =
      elim (Bool-cases (s.tx_msg_index == 0)) [
        | inr busy ↦ rw busy ((rw (append-nil sx) w, v), owes, calm, refl)
        | inl index ↦ elim (Bool-cases (s.tx_msg_count == s.rx_msg_count)) [
          | inl acked ↦
              offer_answer s answer xy yx sx gy sy gx (w, v) fits (==→eq s.tx_msg_index 0 index)
                (==→eq s.tx_msg_count s.rx_msg_count acked) calm few
          | inr waits ↦
              let fits' : s.tx_msg.mtype ≤ 26 =
                omega (arith, calm, w.low, w.high, ==→ne s.tx_msg_count s.rx_msg_count waits) in
              rw (index, waits)
                (
                  (rw (append-nil sx) w, v),
                  owes_message refl refl refl
                      (text-load_message (record s { tx_msg_index = 1 }) fits'),
                  calm,
                  refl,
                )
        ]
      ]

  pub send-Sides :
      (s : Node) (xy yx : List Frame) (sx gy sy gx : List (List ℕ))
      → Sides s xy yx sx gy sy gx
      → Owes s
      → Sides (send s).0 (xy ++ (send s).1) yx sx gy sy gx
        × ((send s).0.tx_msg_index ≡ 0)
        × ((send s).0.tx_msg ≡ s.tx_msg)
        × ((send s).0.tx_msg_count ≡ s.tx_msg_count)
  unfolding send
  send-Sides s xy yx sx gy sy gx (w, v) (free at) =
      let idle : (s.tx_msg_index == 1) ≡ false = ground (arith, at) in
      rw idle (rw (append-nil xy) (w, v), at, refl, refl)
  send-Sides s xy yx sx gy sy gx (w, v) (owes_ack at kind index) =
      let busy : (s.tx_msg_index == 1) ≡ true = ground (arith, at) in
      rw busy (
        (
          Way-send_ack s.tx_msg_count s.rx_msg_count yi (text s) xy yx sx gy s.tx_msg_data w kind,
          Way-acknowledge yc ya s.rx_msg_index ytext yx xy sy gx s.tx_msg_data v kind index,
        ),
        refl,
        refl,
        refl,
      )
  send-Sides s xy yx sx gy sy gx (w, v) (owes_message at kind index newest) =
      let busy : (s.tx_msg_index == 1) ≡ true = ground (arith, at) in
      rw busy (
        (
          Way-send s.tx_msg_count s.rx_msg_count yi (text s) xy yx sx gy s.tx_msg_data w kind index
              newest,
          Way-back yc ya s.rx_msg_index ytext yx xy sy gx s.tx_msg_data v kind,
        ),
        refl,
        refl,
        refl,
      )
