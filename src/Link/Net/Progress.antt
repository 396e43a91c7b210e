-- ===== src/Link/Net/Progress.antt =====
-- A frame and its answer that both get through acknowledge a message (adi-sw/xcomm2ip.c).
use adi_bbp.Common.{
  ℕ, ◌+◌, ◌≤◌, ◌≡◌, ◌≢◌, ◌⊎◌, inl, inr, refl, sym, ap, ◌∙◌, Bool, true, false, Bool-cases, none,
  some, List, [], ◌∷◌, ◌++◌, ◌==◌, ==_refl, ==_ne, if◌then◌else◌, arith,
}
use mathlib.Core.List.{append-nil}
use adi_bbp.Tx.Memory.{Array}
use adi_bbp.Link.{
  TxMsg, Received, message, enomsg, failed, Printed, received, Node, accept, load_message,
}
use adi_bbp.Link.Laws.{accept_data, load_message_lem}
use adi_bbp.Link.Way.{Frame, Same, Newest-Same, text_of}
use adi_bbp.Link.Net.{take_in, offer, send, turn, texts_in, Net, Reach, fresh}
use adi_bbp.Link.Net.Turns.{text, text-load_message, texts_in-once}
use adi_bbp.Link.Net.Safety.{begin, Few, begin-Sound, Reach-Sound}

offer-acknowledged :
    (s : Node) (answer : Received) → (offer s answer).0.rx_msg_count ≡ s.rx_msg_count
unfolding offer load_message
offer-acknowledged s (message m) = elim (Bool-cases (s.tx_msg_index == 0)) [
  | inr busy ↦ rw busy refl
  | inl index ↦ elim (Bool-cases (s.tx_msg_count == s.rx_msg_count)) [
    | inr waits ↦ rw (index, waits) refl
    | inl acked ↦ rw (index, acked) refl
  ]
]
offer-acknowledged s enomsg = elim (Bool-cases (s.tx_msg_index == 0)) [
  | inr busy ↦ rw busy refl
  | inl index ↦ elim (Bool-cases (s.tx_msg_count == s.rx_msg_count)) [
    | inr waits ↦ rw (index, waits) refl
    | inl acked ↦ rw (index, acked) refl
  ]
]
offer-acknowledged s failed = elim (Bool-cases (s.tx_msg_index == 0)) [
  | inr busy ↦ rw busy refl
  | inl index ↦ elim (Bool-cases (s.tx_msg_count == s.rx_msg_count)) [
    | inr waits ↦ rw (index, waits) refl
    | inl acked ↦ rw (index, acked) refl
  ]
]

send-acknowledged : (s : Node) → (send s).0.rx_msg_count ≡ s.rx_msg_count
unfolding send
send-acknowledged s = elim (Bool-cases (s.tx_msg_index == 1)) [
  | inl on ↦ rw on refl
  | inr off ↦ rw off refl
]

-- An acknowledgement is taken for what it says, whatever the queue answers.
turn-acknowledged :
    (s : Node) (g : Frame) (answer : Received)
    → g 3 ≡ 0x3a
    → (turn s (some g) answer).0.rx_msg_count ≡ g 4
unfolding turn take_in accept
turn-acknowledged s g answer kind =
    send-acknowledged (offer (take_in s (some g)).0 answer).0
    ∙ offer-acknowledged (take_in s (some g)).0 answer
    ∙ rw kind refl

-- A node that waits for an acknowledgement sends its message again.
turn-again :
    (s : Node) (answer : Received)
    → s.tx_msg_index ≡ 0
    → s.tx_msg_count ≢ s.rx_msg_count
    → ((turn s none answer).2 ≡ (load_message (record s { tx_msg_index = 1 })).tx_msg_data ∷ [])
      × ((turn s none answer).1 ≡ [])
unfolding turn take_in offer send load_message
turn-again s answer idle waits =
    let index : (s.tx_msg_index == 0) ≡ true = ground (arith, idle) in
    rw (index, ==_ne s.tx_msg_count s.rx_msg_count waits) (refl, refl)

offer-busy : (s : Node) (answer : Received) → s.tx_msg_index ≡ 1 → offer s answer ≡ (s, [], false)
unfolding offer
offer-busy s answer busy =
    let index : (s.tx_msg_index == 0) ≡ false = ground (arith, busy) in rw index refl

send-busy :
    (s : Node) → s.tx_msg_index ≡ 1 → send s ≡ (record s { tx_msg_index = 0 }, s.tx_msg_data ∷ [])
unfolding send
send-busy s busy = let index : (s.tx_msg_index == 1) ≡ true = ground (arith, busy) in rw index refl

-- A node answers a data frame with an acknowledgement of its index, and prints a text that is new.
turn-answers :
    (s : Node) (f : Frame) (answer : Received)
    → f 3 ≡ 0xa1
    → (g : Frame) × ((turn s (some f) answer).2 ≡ g ∷ [])
      × (g 3 ≡ 0x3a)
      × (g 4 ≡ f 4)
      × ((turn s (some f) answer).1
          ≡ (if s.rx_msg_index == f 4 then [] else received (text_of f) ∷ []))
unfolding turn take_in
turn-answers s f answer kind =
    let s' : Node = record s { rx_msg_data = f } in
    let (index, ack, words, _, out) = accept_data s' kind in
    let busy = offer-busy (accept s').0 answer index in
    (
      (accept s').0.tx_msg_data,
      ap (λ (r : Node × List Printed × Bool). (send r.0).1) busy
          ∙ ap (λ (r : Node × List Frame). r.1) (send-busy (accept s').0 index),
      ack,
      words 4 (omega arith) (omega arith),
      ap (λ (r : Node × List Printed × Bool). (accept s').1 ++ r.1) busy
          ∙ append-nil (accept s').1
          ∙ out,
    )

-- With the newest text, the receiver has printed all that was sent.
all-printed :
    (taken count : ℕ) (t : List ℕ) (sent got : List (List ℕ))
    → ((taken ≡ count) × (sent ≡ got)) ⊎ ((taken + 1 ≡ count) × (sent ≡ got ++ t ∷ []))
    → got ++ texts_in (if taken == count then [] else received t ∷ []) ≡ sent
all-printed taken count t sent got (inl (at, same)) =
    texts_in-once (taken == count) t got ∙ rw (at, ==_refl count) (sym same)
all-printed taken count t sent got (inr (below, same)) =
    texts_in-once (taken == count) t got ∙ rw (==_ne taken count (omega arith)) (sym same)

-- At any time, with fewer than 2 ^ 32 messages each way, a node whose message is not acknowledged
-- sends one frame in its turn, if nothing arrives. If the words 3 to 31 of this frame get through, the
-- other node sends one frame in answer, and has then printed all that the first one took from its
-- queue; and if those of the answer get through, the first node has the acknowledgement of its
-- newest message. Neither depends on what the queues answer.
pub link_progress :
    (m m' : TxMsg) (ws ws' vs vs' : Array ℕ) (n : Net) (a b c : Received)
    → Reach (begin (fresh m ws ws') (fresh m' vs vs')) n
    → Few n
    → n.x.tx_msg_count ≢ n.x.rx_msg_count
    → (f : Frame) × ((turn n.x none a).2 ≡ f ∷ [])
      × ((f' : Frame)
          → Same f f'
          → (g : Frame) × ((turn n.y (some f') b).2 ≡ g ∷ [])
            × (n.got_y ++ texts_in (turn n.y (some f') b).1 ≡ n.sent_x)
            × ((g' : Frame)
                → Same g g'
                → (turn (turn n.x none a).0 (some g') c).0.rx_msg_count ≡ n.x.tx_msg_count))
unfolding load_message
link_progress m m' ws ws' vs vs' n a b c reach few waits =
    let s = Reach-Sound reach (begin-Sound m m' ws ws' vs vs') few in
    let x : Node = record n.x { tx_msg_index = 1 } in
    let f : Frame = (load_message x).tx_msg_data in
    let fits : n.x.tx_msg.mtype ≤ 26 = elim s.calm_x [
      | inl none_yet ↦ absurd (omega (arith, none_yet, waits, s.forth.low, s.forth.high))
      | inr small ↦ small
    ] in
    let (again, _) = turn-again n.x a s.idle_x waits in
    let (kind, index, _, _) = load_message_lem x (omega arith) in
    (
      f,
      again,
      λ f' arrives.
          let at = sym (arrives 4 (omega arith) (omega arith)) ∙ index in
          let (_, newest) =
            Newest-Same n.x.tx_msg_count (text n.x) f f' arrives (λ _. text-load_message x fits)
              at in
          let (g, answered, ack, number, out) =
            turn-answers n.y f' b (sym (arrives 3 (omega arith) (omega arith)) ∙ kind) in
          (
            g,
            answered,
            rw (out, at, newest)
                (all-printed n.y.rx_msg_index n.x.tx_msg_count (text n.x) n.sent_x n.got_y
                  s.forth.delivered),
            λ g' back.
                turn-acknowledged (turn n.x none a).0 g' c
                  (sym (back 3 (omega arith) (omega arith)) ∙ ack)
                ∙ sym (back 4 (omega arith) (omega arith))
                ∙ number
                ∙ at,
          ),
    )
