-- ===== src/Link/Way/Moves.antt =====
-- What each act of a node does to one direction of the link (adi-sw/xcomm2ip.c).
use adi_bbp.Common.{
  ℕ, ◌+◌, ◌≤◌, ◌≡◌, ◌≢◌, ◌⊎◌, inl, inr, refl, sym, ap, ◌∙◌, List, [], ◌∷◌, ◌++◌, Bool-cases, ◌==◌,
  ==→eq, ==→ne, if◌then◌else◌, arith,
}
use adi_bbp.Link.Sender.{length}
use adi_bbp.Link.Way.{
  Frame, Same, text_of, Rising, other, this, Rising-raise, Rising-push, Rising-push_other,
  Rising-lose, Newest, Newest-Same, Way,
}

pub length-snoc : (sent : List (List ℕ)) (t : List ℕ) → length (sent ++ t ∷ []) ≡ length sent + 1
unfolding length
length-snoc [] t = refl
length-snoc (s ∷ sent) t = omega (arith, length-snoc sent t)

Rising-head :
    (kind hi : ℕ) (Good : Frame → Type 0) {lo : ℕ} {f : Frame} {fs : List Frame}
    → Rising kind hi Good lo (f ∷ fs)
    → f 3 ≡ kind
    → (lo ≤ f 4) × (f 4 ≤ hi) × Good f × Rising kind hi Good (f 4) fs
Rising-head kind hi Good (other k r) e = absurd (omega arith)
Rising-head kind hi Good (this k a b g r) e = (a, b, g, r)

Rising-rest :
    (kind hi : ℕ) (Good : Frame → Type 0) {lo : ℕ} {f : Frame} {fs : List Frame}
    → Rising kind hi Good lo (f ∷ fs)
    → f 3 ≢ kind
    → Rising kind hi Good lo fs
Rising-rest kind hi Good (other k r) e = r
Rising-rest kind hi Good (this k a b g r) e = absurd (omega arith)

module _ (c r i : ℕ) (text : List ℕ) (xy yx : List Frame) (sent got : List (List ℕ)) where
  level : ((i ≡ c) × (sent ≡ got)) ⊎ ((i + 1 ≡ c) × (sent ≡ got ++ text ∷ [])) → i ≡ c → sent ≡ got
  level (inl (at, same)) e = same
  level (inr (at, same)) e = absurd (omega arith)

  behind :
      ((i ≡ c) × (sent ≡ got)) ⊎ ((i + 1 ≡ c) × (sent ≡ got ++ text ∷ []))
      → i ≢ c
      → sent ≡ got ++ text ∷ []
  behind (inl (at, same)) e = absurd (omega arith)
  behind (inr (at, same)) e = same

  with_messages :
      Way c r i text xy yx sent got
      → (xy' : List Frame) → Rising 0xa1 c (Newest c text) i xy'
      → Way c r i text xy' yx sent got
  with_messages w xy' messages = record {
    low = w.low;
    high = w.high;
    one = w.one;
    number = w.number;
    delivered = w.delivered;
    messages = messages;
    acks = w.acks;
  }

  with_acks :
      Way c r i text xy yx sent got
      → (yx' : List Frame) → Rising 0x3a i (λ f. Unit {0}) r yx'
      → Way c r i text xy yx' sent got
  with_acks w yx' acks = record {
    low = w.low;
    high = w.high;
    one = w.one;
    number = w.number;
    delivered = w.delivered;
    messages = w.messages;
    acks = acks;
  }

  -- The sender counts a new message.
  pub Way-count :
      (t : List ℕ)
      → Way c r i text xy yx sent got
      → c ≡ r
      → Way (c + 1) r i t xy yx (sent ++ t ∷ []) got
  Way-count t w settled = record {
    low = w.low;
    high = omega (arith, w.high);
    one = omega arith;
    number = omega (arith, length-snoc sent t, w.number);
    delivered =
        let at : i ≡ c = omega (arith, w.low, w.high) in
        inr (omega arith, ap (λ l. l ++ t ∷ []) (level w.delivered at));
    messages =
        Rising-raise 0xa1 c (c + 1) (Newest c text) (Newest (c + 1) t) w.messages (omega arith)
          (λ f below newest at. absurd (omega arith));
    acks = w.acks;
  }

  -- The sender's frame goes out.
  pub Way-send :
      (f : Frame)
      → Way c r i text xy yx sent got
      → f 3 ≡ 0xa1
      → f 4 ≡ c
      → (f 5 ≤ 26) × (text_of f ≡ text)
      → Way c r i text (xy ++ f ∷ []) yx sent got
  Way-send f w kind at newest =
      with_messages w (xy ++ f ∷ [])
        (Rising-push 0xa1 c (Newest c text) f w.messages w.high kind at (λ e. newest))

  -- A frame of the sender that is an acknowledgement of the other direction goes out.
  pub Way-send_ack :
      (f : Frame)
      → Way c r i text xy yx sent got
      → f 3 ≡ 0x3a
      → Way c r i text (xy ++ f ∷ []) yx sent got
  Way-send_ack f w kind =
      with_messages w (xy ++ f ∷ [])
        (Rising-push_other 0xa1 c (Newest c text) f w.messages (omega arith))

  -- The receiver acknowledges its index.
  pub Way-acknowledge :
      (f : Frame)
      → Way c r i text xy yx sent got
      → f 3 ≡ 0x3a
      → f 4 ≡ i
      → Way c r i text xy (yx ++ f ∷ []) sent got
  Way-acknowledge f w kind at =
      with_acks w (yx ++ f ∷ []) (Rising-push 0x3a i (λ f. Unit {0}) f w.acks w.low kind at tt)

  -- A frame of the receiver that is a message of the other direction goes out.
  pub Way-back :
      (f : Frame)
      → Way c r i text xy yx sent got
      → f 3 ≡ 0xa1
      → Way c r i text xy (yx ++ f ∷ []) sent got
  Way-back f w kind =
      with_acks w (yx ++ f ∷ []) (Rising-push_other 0x3a i (λ f. Unit {0}) f w.acks (omega arith))

-- The receiver takes in a message.
pub Way-deliver :
    (c r i : ℕ) (text : List ℕ) (xy yx : List Frame) (sent got : List (List ℕ)) (f g : Frame)
    → Way c r i text (f ∷ xy) yx sent got
    → Same f g
    → g 3 ≡ 0xa1
    → Way c r (g 4) text xy yx sent (if i == g 4 then got else got ++ text_of g ∷ [])
Way-deliver c r i text xy yx sent got f g w same kind =
    let index : f 4 ≡ g 4 = same 4 (omega arith) (omega arith) in
    let (from, to, newest, messages) =
      Rising-head 0xa1 c (Newest c text) w.messages (same 3 (omega arith) (omega arith) ∙ kind) in
    elim (Bool-cases (i == g 4)) [
      | inl old ↦
          let at : i ≡ g 4 = ==→eq i (g 4) old in
          rw (old, ← at)
            (with_messages c r i text (f ∷ xy) yx sent got w xy (rw (index ∙ sym at) at messages))
      | inr new ↦
          let ne : i ≢ g 4 = ==→ne i (g 4) new in
          let top : g 4 ≡ c = omega (arith, w.low, w.one) in
          let (_, is) = Newest-Same c text f g same newest top in
          rw (new, top)
            (record {
              low = omega (arith, w.low);
              high = omega arith;
              one = w.one;
              number = w.number;
              delivered = inl (
                refl,
                behind c r i text (f ∷ xy) yx sent got w.delivered (omega arith)
                    ∙ ap (λ t. got ++ t ∷ []) (sym is),
              );
              messages = rw (index ∙ top) at messages;
              acks =
                  Rising-raise 0x3a i c (λ f. Unit {0}) (λ f. Unit {0}) w.acks w.high
                    (λ f below u. tt);
            })
    ]

-- The receiver takes in another frame.
pub Way-skip :
    (c r i : ℕ) (text : List ℕ) (xy yx : List Frame) (sent got : List (List ℕ)) (f g : Frame)
    → Way c r i text (f ∷ xy) yx sent got
    → Same f g
    → g 3 ≢ 0xa1
    → Way c r i text xy yx sent got
Way-skip c r i text xy yx sent got f g w same kind =
    with_messages c r i text (f ∷ xy) yx sent got w xy (
      Rising-rest 0xa1 c (Newest c text) w.messages
        (omega (arith, same 3 (omega arith) (omega arith))))

-- The sender takes in an acknowledgement.
pub Way-acked :
    (c r i : ℕ) (text : List ℕ) (xy yx : List Frame) (sent got : List (List ℕ)) (f g : Frame)
    → Way c r i text xy (f ∷ yx) sent got
    → Same f g
    → g 3 ≡ 0x3a
    → Way c (g 4) i text xy yx sent got
Way-acked c r i text xy yx sent got f g w same kind =
    let index : f 4 ≡ g 4 = same 4 (omega arith) (omega arith) in
    let (from, to, _, acks) =
      Rising-head 0x3a i (λ f. Unit {0}) w.acks (same 3 (omega arith) (omega arith) ∙ kind) in
    record {
      low = omega arith;
      high = w.high;
      one = omega (arith, w.one);
      number = w.number;
      delivered = w.delivered;
      messages = w.messages;
      acks = rw index at acks;
    }

-- The sender takes in another frame.
pub Way-unacked :
    (c r i : ℕ) (text : List ℕ) (xy yx : List Frame) (sent got : List (List ℕ)) (f g : Frame)
    → Way c r i text xy (f ∷ yx) sent got
    → Same f g
    → g 3 ≢ 0x3a
    → Way c r i text xy yx sent got
Way-unacked c r i text xy yx sent got f g w same kind =
    with_acks c r i text xy (f ∷ yx) sent got w yx (
      Rising-rest 0x3a i (λ f. Unit {0}) w.acks (omega (arith, same 3 (omega arith) (omega arith))))

-- A frame from the sender is lost.
pub Way-lose :
    (c r i : ℕ) (text : List ℕ) (before after yx : List Frame) (f : Frame)
    (sent got : List (List ℕ))
    → Way c r i text (before ++ f ∷ after) yx sent got
    → Way c r i text (before ++ after) yx sent got
Way-lose c r i text before after yx f sent got w =
    with_messages c r i text (before ++ f ∷ after) yx sent got w (before ++ after)
      (Rising-lose 0xa1 c (Newest c text) before f after w.messages)

-- A frame from the receiver is lost.
pub Way-lose_back :
    (c r i : ℕ) (text : List ℕ) (xy before after : List Frame) (f : Frame)
    (sent got : List (List ℕ))
    → Way c r i text xy (before ++ f ∷ after) sent got
    → Way c r i text xy (before ++ after) sent got
Way-lose_back c r i text xy before after f sent got w =
    with_acks c r i text xy (before ++ f ∷ after) sent got w (before ++ after)
      (Rising-lose 0x3a i (λ f. Unit {0}) before f after w.acks)
