-- ===== src/Link/Tests.antt =====
-- The link at a small bus: nothing arrives, and the queue has one message.
use adi_bbp.Common.{
  ℕ, ◌+◌, ◌-◌, ◌^◌, ◌≡◌, refl, true, false, [], ◌∷◌, ◌++◌, some, none, ◌==◌, if◌then◌else◌, arith,
}
use adi_bbp.Tx.Memory.{Array}
use adi_bbp.Link.{
  TxMsg, message, enomsg, Bus, Node, chars, accept, load_message, prepare, round, receive, transmit,
}
use adi_bbp.Link.Net.{
  Net, turn, take_in, offer, send, texts_in, texts_out, Arrives, nothing, first, short, empty,
  after_x, swap, Step, turn_x, turn_y, Reach, here, fresh,
}
use adi_bbp.Link.Net as N
use adi_bbp.Link.Net.Safety.{Few, begin, Delivered, link_safety}
use adi_bbp.Link.Way.{Frame, Same}
use adi_bbp.Link.Net.Progress.{link_progress}
use adi_bbp.Link.Net.Bridge.{arrived, answer, put_out, prepared, round-turn}
use adi_bbp.Link.Sender.{length, newline, cut, char, done, last, line}
use adi_bbp.Link.Main.{sender_main, sender_main_lem}
use adi_bbp.Link.Stream.{accept_all, printed, stop, again, next, accept_all-printed}

abbrev hello : TxMsg
hello = record { mtype = 2; mtext = λ j. 104 + j }

abbrev bus : Bus
bus = record {
  State = ℕ;
  read = λ offset b. (if offset == 0x0202 then 0 else 1, b);
  write = λ offset v b. b;
  msgrcv = λ b. (message hello, b);
  signalled = λ b. false;
  pause = λ b. b + 1;
}

-- Data frame `index` with a text of one character.
abbrev frame : ℕ → Array ℕ
frame index j = if j == 3 then 0xa1 else if j == 4 then index else if j == 5 then 1 else 64 + index

abbrev node : Node
node = record {
  tx_msg = hello;
  tx_msg_count = 0;
  rx_msg_count = 0;
  tx_msg_index = 0;
  rx_msg_index = 0;
  tx_msg_data = λ j. 0;
  rx_msg_data = frame 1;
}

-- Message 1 twice, and message 2.
accept_all-printed_example :
    (accept_all node (frame 1 ∷ frame 1 ∷ frame 2 ∷ [])).1
    ≡ printed (chars (frame 1) 1 6 ∷ chars (frame 2) 1 6 ∷ [])
accept_all-printed_example =
    accept_all-printed
      (next (frame 1) refl refl (again (frame 1) refl refl (next (frame 2) refl refl (stop 2))))
      node refl

sender_main_lem_example :
    sender_main false false true 2 (104 ∷ newline ∷ newline ∷ [])
    ≡ some (2 ^ 32 - 1, cut 20 (104 ∷ []) ∷ [])
unfolding length cut
sender_main_lem_example =
    sender_main_lem true 2 (line 104 (char 104 (omega arith) done) (last [])) (omega arith)

-- The node takes `hello` from its queue, and the air carries it to another.
abbrev other : Node
other = fresh hello (λ j. 0) (λ j. 0)

abbrev begun : Net
begun = begin other other

abbrev launched : Net
launched = after_x begun [] (turn other none (message hello))

abbrev landed : Net
landed = swap (
    after_x (swap launched) [] (
      turn other
        (some (load_message (record other { tx_msg_count = 1; tx_msg_index = 1 })).tx_msg_data)
        enomsg))

link_safety_example :
    Delivered landed.x landed.sent_x landed.got_y × Delivered landed.y landed.sent_y landed.got_x
unfolding turn take_in offer send texts_in texts_out length load_message accept
link_safety_example =
    link_safety hello hello (λ j. 0) (λ j. 0) (λ j. 0) (λ j. 0) landed
      (N.next (N.next here (turn_x none [] (message hello) nothing (short (omega arith)) refl)) (
        turn_y
          (some (load_message (record other { tx_msg_count = 1; tx_msg_index = 1 })).tx_msg_data) []
          enomsg
          (first (load_message (record other { tx_msg_count = 1; tx_msg_index = 1 })).tx_msg_data
            (λ j a b. refl))
          empty refl))
      (omega arith, omega arith)

round-turn_example :
    ((round bus node 0).0.0 ≡ (turn node (arrived bus node 0) (answer bus node 0)).0)
    × ((round bus node 0).0.1 ≡ (turn node (arrived bus node 0) (answer bus node 0)).1)
    × ((round bus node 0).1
        ≡ put_out bus (turn node (arrived bus node 0) (answer bus node 0)).2 (prepared bus node 0))
unfolding round receive prepare transmit load_message
round-turn_example = round-turn bus node 0 refl refl

-- The first frame of `hello` was lost, or is late.
launched-Few : Few launched
unfolding turn take_in offer send texts_out length load_message
launched-Few = (omega arith, omega arith)

link_progress_example :
    (f : Frame) × ((turn launched.x none enomsg).2 ≡ f ∷ [])
    × ((f' : Frame)
        → Same f f'
        → (g : Frame) × ((turn launched.y (some f') enomsg).2 ≡ g ∷ [])
          × (launched.got_y ++ texts_in (turn launched.y (some f') enomsg).1 ≡ launched.sent_x)
          × ((g' : Frame)
              → Same g g'
              → (turn (turn launched.x none enomsg).0 (some g') (message hello)).0.rx_msg_count
                ≡ launched.x.tx_msg_count))
unfolding turn take_in offer send texts_out length load_message
link_progress_example =
    link_progress hello hello (λ j. 0) (λ j. 0) (λ j. 0) (λ j. 0) launched enomsg enomsg
      (message hello)
      (N.next here (turn_x none [] (message hello) nothing (short (omega arith)) refl)) launched-Few
      (omega arith)
