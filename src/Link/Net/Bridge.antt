-- ===== src/Link/Net/Bridge.antt =====
-- A round of the node's loop on its bus (adi-sw/xcomm2ip.c, `main`) is a turn of the net.
use adi_bbp.Common.{
  ◌≡◌, inl, inr, refl, ap, ◌∙◌, List, [], ◌∷◌, ◌++◌, Bool, Bool-cases, ◌==◌, if◌then◌else◌, true,
  false, Option, none, some,
}
use mathlib.Core.List.{append-nil}
use adi_bbp.Link.{
  Received, message, enomsg, failed, Bus, Printed, Node, read_words, receive, prepare, transmit,
  round, write_words,
}
use adi_bbp.Link.Way.{Frame}
use adi_bbp.Link.Net.{take_in, offer, send, turn}

true-false : true ≡ false → ⊥
true-false e = cc

module _ (bus : Bus) where
  -- The frame that the status register announces.
  pub arrived : Node → bus.State → Option Frame
  arrived s b =
      if (bus.read 0x0302 b).0 == 0
      then some (read_words bus 32 0 s.rx_msg_data (bus.read 0x0302 b).1).0
      else none

  -- The queue's answer, if it is asked.
  pub answer : Node → bus.State → Received
  answer s b = (bus.msgrcv (bus.pause (receive bus s b).1)).0

  receive-take_in : (s : Node) (b : bus.State) → (receive bus s b).0 ≡ take_in s (arrived s b)
  unfolding receive take_in arrived
  receive-take_in s b = elim (Bool-cases ((bus.read 0x0302 b).0 == 0)) [
    | inl yes_ ↦ rw yes_ refl
    | inr no_ ↦ rw no_ refl
  ]

  prepare_answer :
      (s : Node) (b b' : bus.State) (r : Received)
      → (s.tx_msg_index == 0) ≡ true
      → (s.tx_msg_count == s.rx_msg_count) ≡ true
      → (bus.msgrcv (bus.pause b)) ≡ (r, b')
      → (prepare bus s b).0 ≡ offer s r
  unfolding prepare offer
  prepare_answer s b b' (message m) index acked got = rw (index, acked, got) refl
  prepare_answer s b b' enomsg index acked got = rw (index, acked, got) refl
  prepare_answer s b b' failed index acked got = rw (index, acked, got) refl

  prepare-offer :
      (s : Node) (b : bus.State) → (prepare bus s b).0 ≡ offer s (bus.msgrcv (bus.pause b)).0
  unfolding prepare offer
  prepare-offer s b = elim (Bool-cases (s.tx_msg_index == 0)) [
    | inr busy ↦ rw busy refl
    | inl index ↦ elim (Bool-cases (s.tx_msg_count == s.rx_msg_count)) [
      | inr waits ↦ rw (index, waits) refl
      | inl acked ↦
          prepare_answer s b (bus.msgrcv (bus.pause b)).1 (bus.msgrcv (bus.pause b)).0 index acked
            refl
    ]
  ]

  -- What a turn's frames put on the bus: the words 3 to 31 of each, the word that sends them, and a
  -- look at the status.
  pub put_out : List Frame → bus.State → bus.State
  put_out [] b = b
  put_out (f ∷ fs) b =
      put_out fs (bus.read 0x0202 (bus.pause (bus.write 0x0202 1 (write_words bus f 29 3 b)))).1

  transmit-send :
      (s : Node) (b : bus.State)
      → (transmit bus s b).0.2 ≡ false
      → ((transmit bus s b).0.0 ≡ (send s).0)
        × ((transmit bus s b).0.1 ≡ [])
        × ((transmit bus s b).1 ≡ put_out (send s).1 b)
  unfolding transmit send put_out
  transmit-send s b ok = elim (Bool-cases (s.tx_msg_index == 1)) [
    | inr idle ↦ rw idle (refl, refl, refl)
    | inl busy ↦
        elim (Bool-cases (
          (bus.read 0x0202
            (bus.pause (bus.write 0x0202 1 (write_words bus s.tx_msg_data 29 3 b)))).0
          == 1)) [
            | inl stuck ↦ absurd (true-false (rw (busy, stuck) at ok))
            | inr through ↦ rw (busy, through) (refl, refl, refl)
          ]
  ]

  -- The bus behind the second part of a round.
  abbrev pub prepared : Node → bus.State → bus.State
  prepared s b = (prepare bus (receive bus s b).0.0 (receive bus s b).1).1

  -- A round that neither finds the signal nor leaves the loop makes of the node, and prints, what a
  -- turn does with the frame that the bus announces and the answer of the queue; and what it writes
  -- to the bus behind its second part are the frames of that turn.
  pub round-turn :
      (s : Node) (b : bus.State)
      → bus.signalled b ≡ false
      → (round bus s b).0.2 ≡ false
      → ((round bus s b).0.0 ≡ (turn s (arrived s b) (answer s b)).0)
        × ((round bus s b).0.1 ≡ (turn s (arrived s b) (answer s b)).1)
        × ((round bus s b).1 ≡ put_out (turn s (arrived s b) (answer s b)).2 (prepared s b))
  unfolding round turn answer
  round-turn s b quiet stays =
      let taken = (receive bus s b).0.0 in
      let b₁ = (receive bus s b).1 in
      let p = prepare-offer taken b₁ in
      let q = receive-take_in s b in
      let offered = λ (r : Node × List Printed). (offer r.0 (answer s b)).0 in
      elim (Bool-cases (prepare bus taken b₁).0.2) [
        | inl left ↦ absurd (true-false (rw (quiet, left) at stays))
        | inr on ↦
            let (node, out, handed) =
              transmit-send (prepare bus taken b₁).0.0 (prepare bus taken b₁).1
                (rw (quiet, on) at stays) in
            rw (quiet, on)
              (
                node
                    ∙ ap (λ (r : Node × List Printed × Bool). (send r.0).0) p
                    ∙ ap (λ (r : Node × List Printed). (send (offered r)).0) q,
                ap (λ (l : List Printed). (receive bus s b).0.1 ++ (prepare bus taken b₁).0.1 ++ l)
                      out
                    ∙ append-nil ((receive bus s b).0.1 ++ (prepare bus taken b₁).0.1)
                    ∙ ap (λ (r : Node × List Printed × Bool). (receive bus s b).0.1 ++ r.1) p
                    ∙ ap (λ (r : Node × List Printed). r.1 ++ (offer r.0 (answer s b)).1) q,
                handed
                    ∙ ap (λ (r : Node × List Printed × Bool). put_out (send r.0).1 (prepared s b)) p
                    ∙ ap (λ (r : Node × List Printed). put_out (send (offered r)).1 (prepared s b))
                        q,
              )
      ]
