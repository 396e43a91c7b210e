-- ===== src/Link.antt =====
-- adi-sw/xcomm2ip.c: the message link over the transceivers. One round of the main loop, in the
-- three parts that it has: receive, prepare and transmit. Each frame has 32 words: word 3 is its
-- kind, word 4 its index, word 5 the length of its text, and the text starts at word 6.
pub mod Sender
pub mod Laws
pub mod Stream
pub mod Way
pub mod Net
pub mod Main
mod Tests
use adi_bbp.Common.{
  ℕ, zero, suc, ◌+◌, ◌%◌, ◌^◌, Bool, true, false, not, List, [], ◌∷◌, ◌++◌, ltb, ◌==◌,
  if◌then◌else◌,
}
use adi_bbp.Tx.Memory.{Array, update}

-- `struct s_tx_msg`
pub record TxMsg : Type 0 where
  pub mtype : ℕ
  pub mtext : Array ℕ

-- What `msgrcv` answers with IPC_NOWAIT: a message, ENOMSG, or another error.
pub data Received : Type 0 where
  message : TxMsg → Received
  enomsg : Received
  failed : Received

-- The mapped registers, by their word offsets, the message queue, the signal and `sleep`.
pub record Bus : Type 1 where
  pub State : Type 0
  pub read : (offset : ℕ) → State → ℕ × State
  pub write : (offset value : ℕ) → State → State
  pub msgrcv : State → Received × State
  pub signalled : State → Bool
  pub pause : State → State

-- What is printed: `R>` with a text, `T>` with a text, and the message on a transmitter that is
-- stuck.
pub data Printed : Type 0 where
  received : List ℕ → Printed
  sent : List ℕ → Printed
  unexpected : Printed

-- The variables of `main`.
pub record Node : Type 0 where
  pub tx_msg : TxMsg
  pub tx_msg_count : ℕ
  pub rx_msg_count : ℕ
  pub tx_msg_index : ℕ
  pub rx_msg_index : ℕ
  pub tx_msg_data : Array ℕ
  pub rx_msg_data : Array ℕ

-- `for (...) printf("%c", a[n])`, with `left` characters to go from `n`.
unfoldable pub chars : Array ℕ → (left n : ℕ) → List ℕ
chars a zero n = []
chars a (suc left) n = a n % 2 ^ 8 ∷ chars a left (n + 1)

-- The copy of the received frame, with `left` words to go from `n`.
pub copy_words : (from to : Array ℕ) (left n : ℕ) → Array ℕ
copy_words from to zero n = to
copy_words from to (suc left) n = copy_words from (update to n (from n)) left (n + 1)

-- What is done with a frame once it is in `rx_msg_data`.
pub accept : Node → Node × List Printed
accept s =
    let data3 = s.rx_msg_data 3 in
    let index = s.rx_msg_data 4 in
    let acked = if data3 == 0x3a then index else s.rx_msg_count in
    if data3 == 0xa1
    then (
      record s {
        rx_msg_count = acked;
        tx_msg_data = update (copy_words s.rx_msg_data s.tx_msg_data 32 0) 3 0x3a;
        tx_msg_index = 1;
        rx_msg_index = index;
      },
      (if s.rx_msg_index == index
          then []
          else received (chars s.rx_msg_data (s.rx_msg_data 5) 6) ∷ []),
    )
    else (record s { rx_msg_count = acked; tx_msg_index = 0 }, [])

-- The text of the message to its place in the frame, with `left` characters to go from `n`.
pub fill : (text ws : Array ℕ) (left n : ℕ) → Array ℕ
fill text ws zero n = ws
fill text ws (suc left) n = fill text (update ws (6 + n) (text n)) left (n + 1)

-- The frame for the message `tx_msg`.
pub load_message : Node → Node
load_message s = record s {
  tx_msg_data =
      update
        (update (update (fill s.tx_msg.mtext s.tx_msg_data s.tx_msg.mtype 0) 3 0xa1) 4
          s.tx_msg_count)
        5 (s.tx_msg.mtype % 2 ^ 32);
}

module _ (bus : Bus) where
  -- `rx_msg_data[n] = *(xcomm2ip_base_addr + 0x0300 + n)`, with `left` words to go.
  pub read_words : (left n : ℕ) → Array ℕ → bus.State → Array ℕ × bus.State
  read_words zero n ws b = (ws, b)
  read_words (suc left) n ws b =
      let (v, b') = bus.read (0x0300 + n) b in read_words left (n + 1) (update ws n v) b'

  -- The first part of a round.
  pub receive : Node → bus.State → (Node × List Printed) × bus.State
  receive s b =
      let (status, b₁) = bus.read 0x0302 b in
      if status == 0
      then (let (ws, b₂) = read_words 32 0 s.rx_msg_data b₁ in
          (accept (record s { rx_msg_data = ws }), bus.write 0x0302 1 b₂))
      else ((s, []), b₁)

  -- The second part; the Boolean says that the loop is left.
  pub prepare : Node → bus.State → (Node × List Printed × Bool) × bus.State
  prepare s b =
      if s.tx_msg_index == 0
      then (if s.tx_msg_count == s.rx_msg_count
          then (let (answer, b₁) = bus.msgrcv (bus.pause b) in
              elim answer [
                | message m ↦ (
                  (
                    load_message (record s {
                      tx_msg = m;
                      tx_msg_index = 1;
                      tx_msg_count = (s.tx_msg_count + 1) % 2 ^ 32;
                    }),
                    sent (chars m.mtext m.mtype 0) ∷ [],
                    false,
                  ),
                  b₁,
                )
                | enomsg ↦ ((load_message s, [], false), b₁)
                | failed ↦ ((s, [], true), b₁)
              ])
          else ((load_message (record s { tx_msg_index = 1 }), [], false), b))
      else ((s, [], false), b)

  -- Words 3 to 31 of the frame, with `left` to go from `n`.
  pub write_words : (ws : Array ℕ) (left n : ℕ) → bus.State → bus.State
  write_words ws zero n b = b
  write_words ws (suc left) n b = write_words ws left (n + 1) (bus.write (0x0200 + n) (ws n) b)

  -- The third part.
  pub transmit : Node → bus.State → (Node × List Printed × Bool) × bus.State
  transmit s b =
      if s.tx_msg_index == 1
      then (let b₁ = bus.pause (bus.write 0x0202 1 (write_words s.tx_msg_data 29 3 b)) in
          let (status, b₂) = bus.read 0x0202 b₁ in
          if status == 1
          then ((s, unexpected ∷ [], true), b₂)
          else ((record s { tx_msg_index = 0 }, [], false), b₂))
      else ((s, [], false), b)

  -- One round of `while (1)`.
  pub round : Node → bus.State → (Node × List Printed × Bool) × bus.State
  round s b =
      if bus.signalled b
      then ((s, [], true), b)
      else (let ((s₁, out₁), b₁) = receive s b in
          let ((s₂, out₂, left₂), b₂) = prepare s₁ b₁ in
          if left₂
          then ((s₂, out₁ ++ out₂, true), b₂)
          else (let ((s₃, out₃, left₃), b₃) = transmit s₂ b₂ in
              ((s₃, out₁ ++ out₂ ++ out₃, left₃), b₃)))

  -- What `main` writes before the loop: the reset of both sides, and its end.
  pub start : bus.State → bus.State
  start b =
      let b₁ =
        bus.pause
          (bus.write 0x0302 0 (bus.write 0x0201 0 (bus.write 0x0300 1 (bus.write 0x0200 1 b)))) in
      bus.pause
        (bus.write 0x0302 1 (bus.write 0x0201 1 (bus.write 0x0300 0 (bus.write 0x0200 0 b₁))))

  -- `while (1)` for a number of rounds; the Boolean says that the loop was left.
  pub run : (rounds : ℕ) → Node → bus.State → (Node × List Printed × Bool) × bus.State
  run zero s b = ((s, [], false), b)
  run (suc rounds) s b =
      let ((s', out, ended), b') = round s b in
      let ((s'', later, ended'), b'') = run rounds s' b' in
      if ended then ((s', out, true), b') else ((s'', out ++ later, ended'), b'')
