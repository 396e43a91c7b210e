-- ===== src/Link/Stream.antt =====
-- What a node of the link prints of a whole sequence of frames (adi-sw/xcomm2ip.c), in which the
-- other node sends each message again until it is acknowledged.
use adi_bbp.Common.{ℕ, ◌+◌, ◌≡◌, refl, ap, true, false, List, [], ◌∷◌, ◌++◌, ◌==◌, arith}
use adi_bbp.Tx.Memory.{Array}
use adi_bbp.Link.{Printed, received, Node, chars, accept}

-- The frames that a node takes in, one after the other, each into `rx_msg_data`.
pub accept_all : Node → List (Array ℕ) → Node × List Printed
accept_all s [] = (s, [])
accept_all s (f ∷ frames) =
    let (s', out) = accept (record s { rx_msg_data = f }) in
    let (s'', later) = accept_all s' frames in (s'', out ++ later)

-- The frames of a node that has sent `count` messages and sends those of the texts: each frame is
-- the last message again, an acknowledgement, or the next message.
pub data Sends : (count : ℕ) → List (List ℕ) → List (Array ℕ) → Type 0 where
  stop : (count : ℕ) → Sends count [] []
  again :
      {count : ℕ} (f : Array ℕ) {texts : List (List ℕ)} {frames : List (Array ℕ)}
      → f 3 ≡ 0xa1
      → f 4 ≡ count
      → Sends count texts frames
      → Sends count texts (f ∷ frames)
  ack :
      {count : ℕ} (f : Array ℕ) {texts : List (List ℕ)} {frames : List (Array ℕ)}
      → f 3 ≡ 0x3a
      → Sends count texts frames
      → Sends count texts (f ∷ frames)
  next :
      {count : ℕ} (f : Array ℕ) {texts : List (List ℕ)} {frames : List (Array ℕ)}
      → f 3 ≡ 0xa1
      → f 4 ≡ count + 1
      → Sends (count + 1) texts frames
      → Sends count (chars f (f 5) 6 ∷ texts) (f ∷ frames)

unfoldable pub printed : List (List ℕ) → List Printed
printed [] = []
printed (t ∷ texts) = received t ∷ printed texts

-- However often each message is sent, and with acknowledgements in between, the node prints the
-- text of each message once, and in the order in which they were sent, if the last index that it
-- has seen is the count before the first of them.
pub accept_all-printed :
    {count : ℕ} {texts : List (List ℕ)} {frames : List (Array ℕ)}
    → Sends count texts frames
    → (s : Node) → s.rx_msg_index ≡ count
    → (accept_all s frames).1 ≡ printed texts
unfolding accept_all printed accept
accept_all-printed (stop count) s same = refl
accept_all-printed (again f kind index sends) s same =
    let repeated : (s.rx_msg_index == f 4) ≡ true = ground (arith, same, index) in
    rw (kind, repeated) (accept_all-printed sends _ index)
accept_all-printed (ack f kind sends) s same = rw kind (accept_all-printed sends _ same)
accept_all-printed (next f kind index sends) s same =
    let new : (s.rx_msg_index == f 4) ≡ false = ground (arith, same, index) in
    rw (kind, new) (ap (λ out. received (chars f (f 5) 6) ∷ out) (accept_all-printed sends _ index))
