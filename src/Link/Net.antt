-- ===== src/Link/Net.antt =====
-- Two nodes of the link (adi-sw/xcomm2ip.c) against each other. The transceivers and the air are
-- not code of the repository: they carry the words 3 to 31 of a frame, keep the order of the frames
-- and may lose any of them.
pub mod Turns
pub mod Safety
pub mod Bridge
pub mod Progress
use adi_bbp.Common.{
  ℕ, zero, suc, ◌+◌, ◌%◌, ◌^◌, ◌≤◌, ◌<◌, ◌≡◌, Bool, true, false, Option, none, some, List, [], ◌∷◌,
  ◌++◌, ◌==◌, if◌then◌else◌,
}
use adi_bbp.Tx.Memory.{Array}
use adi_bbp.Link.{
  TxMsg, Received, message, enomsg, failed, Bus, Printed, received, sent, unexpected, Node, chars,
  accept, load_message, read_words,
}
use adi_bbp.Link.Way.{Frame, Same}

-- A round of the loop, without the bus: what it makes of the frame that has arrived, if one has,
-- and of the answer of the queue. The list has the frame that is sent, if one is.
unfoldable pub take_in : Node → Option Frame → Node × List Printed
take_in s none = (s, [])
take_in s (some g) = accept (record s { rx_msg_data = g })

unfoldable pub offer : Node → Received → Node × List Printed × Bool
offer s answer =
    if s.tx_msg_index == 0
    then (if s.tx_msg_count == s.rx_msg_count
        then elim answer [
          | message m ↦ (
            load_message (record s {
              tx_msg = m;
              tx_msg_index = 1;
              tx_msg_count = (s.tx_msg_count + 1) % 2 ^ 32;
            }),
            sent (chars m.mtext m.mtype 0) ∷ [],
            false,
          )
          | enomsg ↦ (load_message s, [], false)
          | failed ↦ (s, [], true)
        ]
        else (load_message (record s { tx_msg_index = 1 }), [], false))
    else (s, [], false)

unfoldable pub send : Node → Node × List Frame
send s =
    if s.tx_msg_index == 1 then (record s { tx_msg_index = 0 }, s.tx_msg_data ∷ []) else (s, [])

unfoldable pub turn : Node → Option Frame → Received → Node × List Printed × List Frame
turn s arrived answer =
    let (s₁, out₁) = take_in s arrived in
    let (s₂, out₂, _) = offer s₁ answer in let (s₃, frames) = send s₂ in (s₃, out₁ ++ out₂, frames)

-- The texts that are printed behind `R>` and behind `T>`.
unfoldable pub texts_in : List Printed → List (List ℕ)
texts_in [] = []
texts_in (received t ∷ out) = t ∷ texts_in out
texts_in (sent t ∷ out) = texts_in out
texts_in (unexpected ∷ out) = texts_in out

unfoldable pub texts_out : List Printed → List (List ℕ)
texts_out [] = []
texts_out (received t ∷ out) = texts_out out
texts_out (sent t ∷ out) = t ∷ texts_out out
texts_out (unexpected ∷ out) = texts_out out

-- Both nodes, the frames under way in either direction, the oldest first, and the texts that each
-- node has taken from its queue and printed as received.
pub record Net : Type 0 where
  pub x : Node
  pub y : Node
  pub xy : List Frame
  pub yx : List Frame
  pub sent_x : List (List ℕ)
  pub sent_y : List (List ℕ)
  pub got_x : List (List ℕ)
  pub got_y : List (List ℕ)

-- A frame of the line arrives, as `g`, or none.
pub data Arrives : (line : List Frame) → Option Frame → (rest : List Frame) → Type 0 where
  nothing : {line : List Frame} → Arrives line none line
  first : {f : Frame} {rest : List Frame} (g : Frame) → Same f g → Arrives (f ∷ rest) (some g) rest

-- The sender's messages have at most 20 characters, and a frame has room for 26.
pub data Fits : Received → Type 0 where
  short : {m : TxMsg} → m.mtype ≤ 26 → Fits (message m)
  empty : Fits enomsg
  broken : Fits failed

-- The net after a turn of `x`, and after a turn of `y`.
abbrev pub after_x : (n : Net) (rest : List Frame) → Node × List Printed × List Frame → Net
after_x n rest (x', out, frames) = record n {
  x = x';
  xy = n.xy ++ frames;
  yx = rest;
  sent_x = n.sent_x ++ texts_out out;
  got_x = n.got_x ++ texts_in out;
}

abbrev pub swap : Net → Net
swap n = record {
  x = n.y;
  y = n.x;
  xy = n.yx;
  yx = n.xy;
  sent_x = n.sent_y;
  sent_y = n.sent_x;
  got_x = n.got_y;
  got_y = n.got_x;
}

pub data Step (n : Net) (n' : Net) : Type 0 where
  turn_x :
      (arrived : Option Frame) (rest : List Frame) (answer : Received)
      → Arrives n.yx arrived rest
      → Fits answer
      → n' ≡ after_x n rest (turn n.x arrived answer)
      → Step n n'
  turn_y :
      (arrived : Option Frame) (rest : List Frame) (answer : Received)
      → Arrives n.xy arrived rest
      → Fits answer
      → n' ≡ swap (after_x (swap n) rest (turn n.y arrived answer))
      → Step n n'
  lose_x :
      (before after : List Frame) (f : Frame)
      → n.xy ≡ before ++ f ∷ after
      → n' ≡ record n { xy = before ++ after }
      → Step n n'
  lose_y :
      (before after : List Frame) (f : Frame)
      → n.yx ≡ before ++ f ∷ after
      → n' ≡ record n { yx = before ++ after }
      → Step n n'

pub data Reach (n : Net) : Net → Type 0 where
  here : Reach n n
  next : {u v : Net} → Reach n u → Step u v → Reach n v

-- Both nodes before their loops, with `m` and `m'` whatever the uninitialised `tx_msg` holds.
abbrev pub fresh : TxMsg → (ws ws' : Array ℕ) → Node
fresh m ws ws' = record {
  tx_msg = m;
  tx_msg_count = 0;
  rx_msg_count = 0;
  tx_msg_index = 0;
  rx_msg_index = 0;
  tx_msg_data = ws;
  rx_msg_data = ws';
}
