-- ===== src/Link/Laws.antt =====
-- What `accept` of a frame and `load_message` of a message do (adi-sw/xcomm2ip.c).
use adi_bbp.Common.{
  ℕ, zero, suc, ◌+◌, ◌%◌, ◌^◌, ◌≤◌, ◌<◌, ◌≡◌, refl, ◌∙◌, [], ◌∷◌, ◌==◌, ==→eq, ==→ne, Bool-cases,
  inl, inr, if◌then◌else◌, arith,
}
use adi_bbp.Tx.Memory.{Array, update, update_self, update_other}
use adi_bbp.Link.{received, Node, chars, copy_words, accept, fill, load_message}

copy_words_below : (from to : Array ℕ) (left n j : ℕ) → j < n → copy_words from to left n j ≡ to j
unfolding copy_words
copy_words_below from to zero n j h = refl
copy_words_below from to (suc left) n j h =
    copy_words_below from (update to n (from n)) left (n + 1) j (omega arith)
    ∙ update_other to n j (from n) (omega arith)

copy_words_lem :
    (from to : Array ℕ) (left n j : ℕ) → n ≤ j → j < n + left → copy_words from to left n j ≡ from j
unfolding copy_words
copy_words_lem from to zero n j lo hi = absurd (omega arith)
copy_words_lem from to (suc left) n j lo hi = elim (Bool-cases (n == j)) [
  | inl here ↦ rw (← ==→eq n j here) (
      copy_words_below from (update to n (from n)) left (n + 1) n (omega arith)
      ∙ update_self to n (from n))
  | inr later ↦
      copy_words_lem from (update to n (from n)) left (n + 1) j (omega (arith, ==→ne n j later))
        (omega arith)
]

-- A data frame is answered by an acknowledgement that is ready to be sent, with the words of the
-- frame behind its kind, its index included, whether or not the index is the one of the last
-- frame; its text is printed exactly if the index is another.
pub accept_data :
    (s : Node)
    → s.rx_msg_data 3 ≡ 0xa1
    → ((accept s).0.tx_msg_index ≡ 1)
      × ((accept s).0.tx_msg_data 3 ≡ 0x3a)
      × ((j : ℕ) → 3 < j → j < 32 → (accept s).0.tx_msg_data j ≡ s.rx_msg_data j)
      × ((accept s).0.rx_msg_index ≡ s.rx_msg_data 4)
      × ((accept s).1 ≡ (
          if s.rx_msg_index == s.rx_msg_data 4
          then []
          else received (chars s.rx_msg_data (s.rx_msg_data 5) 6) ∷ []))
unfolding accept
accept_data s kind = rw kind (
  refl,
  update_self (copy_words s.rx_msg_data s.tx_msg_data 32 0) 3 0x3a,
  λ j above below.
      update_other (copy_words s.rx_msg_data s.tx_msg_data 32 0) 3 j 0x3a (omega arith)
      ∙ copy_words_lem s.rx_msg_data s.tx_msg_data 32 0 j (omega arith) (omega arith),
  refl,
  refl,
)

-- The text of a message is in its frame.
fill_below : (text ws : Array ℕ) (left n j : ℕ) → j < 6 + n → fill text ws left n j ≡ ws j
unfolding fill
fill_below text ws zero n j h = refl
fill_below text ws (suc left) n j h =
    fill_below text (update ws (6 + n) (text n)) left (n + 1) j (omega arith)
    ∙ update_other ws (6 + n) j (text n) (omega arith)

fill_inside :
    (text ws : Array ℕ) (left n j : ℕ) → n ≤ j → j < n + left → fill text ws left n (6 + j) ≡ text j
unfolding fill
fill_inside text ws zero n j lo hi = absurd (omega arith)
fill_inside text ws (suc left) n j lo hi = elim (Bool-cases (n == j)) [
  | inl here ↦ rw (← ==→eq n j here) (
      fill_below text (update ws (6 + n) (text n)) left (n + 1) (6 + n) (omega arith)
      ∙ update_self ws (6 + n) (text n))
  | inr later ↦
      fill_inside text (update ws (6 + n) (text n)) left (n + 1) j (omega (arith, ==→ne n j later))
        (omega arith)
]

-- The frame for a message of fewer than 2 ^ 32 characters is a data frame with the count of the
-- message, its length and its text.
pub load_message_lem :
    (s : Node)
    → s.tx_msg.mtype < 2 ^ 32
    → ((load_message s).tx_msg_data 3 ≡ 0xa1)
      × ((load_message s).tx_msg_data 4 ≡ s.tx_msg_count)
      × ((load_message s).tx_msg_data 5 ≡ s.tx_msg.mtype)
      × ((j : ℕ) → j < s.tx_msg.mtype → (load_message s).tx_msg_data (6 + j) ≡ s.tx_msg.mtext j)
unfolding load_message
load_message_lem s short = (
  refl,
  refl,
  omega arith,
  λ j below.
      let ws = fill s.tx_msg.mtext s.tx_msg_data s.tx_msg.mtype 0 in
      update_other (update (update ws 3 0xa1) 4 s.tx_msg_count) 5 (6 + j) (s.tx_msg.mtype % 2 ^ 32)
        (omega arith)
      ∙ update_other (update ws 3 0xa1) 4 (6 + j) s.tx_msg_count (omega arith)
      ∙ update_other ws 3 (6 + j) 0xa1 (omega arith)
      ∙ fill_inside s.tx_msg.mtext s.tx_msg_data s.tx_msg.mtype 0 j (omega arith) (omega arith),
)
