-- ===== src/Link/Way.antt =====
-- One direction of the link (adi-sw/xcomm2ip.c): the counters of the node that sends, the index of
-- the node that receives, and the frames under way between them.
pub mod Moves
use adi_bbp.Common.{
  ℕ, zero, suc, ◌+◌, ◌%◌, ◌^◌, ◌≤◌, ◌<◌, ◌≡◌, ◌≢◌, ◌⊎◌, inl, inr, refl, sym, ap, ◌∙◌, List, [], ◌∷◌,
  ◌++◌, Bool-cases, ◌==◌, ==→eq, ==→ne, if◌then◌else◌, arith, true, false,
}
use adi_bbp.Tx.Memory.{Array}
use adi_bbp.Link.{chars}
use adi_bbp.Link.Sender.{length}

abbrev pub Frame : Type 0
Frame = Array ℕ

-- The words that the transceiver carries agree.
abbrev pub Same : Frame → Frame → Type 0
Same f g = (j : ℕ) → 3 ≤ j → j < 32 → f j ≡ g j

-- The text of a frame.
abbrev pub text_of : Frame → List ℕ
text_of f = chars f (f 5) 6

-- The frames of one kind have indices that do not fall, from `lo` to `hi`, and are `Good`.
pub data Rising (kind hi : ℕ) (Good : Frame → Type 0) : ℕ → List Frame → Type 0 where
  empty : {lo : ℕ} → Rising kind hi Good lo []
  other :
      {lo : ℕ} {f : Frame} {fs : List Frame}
      → f 3 ≢ kind
      → Rising kind hi Good lo fs
      → Rising kind hi Good lo (f ∷ fs)
  this :
      {lo : ℕ} {f : Frame} {fs : List Frame}
      → f 3 ≡ kind
      → lo ≤ f 4
      → f 4 ≤ hi
      → Good f
      → Rising kind hi Good (f 4) fs
      → Rising kind hi Good lo (f ∷ fs)

module _ (kind : ℕ) where
  pub Rising-lower :
      (hi : ℕ) (Good : Frame → Type 0) {lo : ℕ} (lo' : ℕ) {fs : List Frame}
      → Rising kind hi Good lo fs
      → lo' ≤ lo
      → Rising kind hi Good lo' fs
  Rising-lower hi Good lo' empty h = empty
  Rising-lower hi Good lo' (other k r) h = other k (Rising-lower hi Good lo' r h)
  Rising-lower hi Good lo' (this k a b g r) h = this k (omega arith) b g r

  pub Rising-raise :
      (hi hi' : ℕ) (Good Good' : Frame → Type 0) {lo : ℕ} {fs : List Frame}
      → Rising kind hi Good lo fs
      → hi ≤ hi'
      → ((f : Frame) → f 4 ≤ hi → Good f → Good' f)
      → Rising kind hi' Good' lo fs
  Rising-raise hi hi' Good Good' empty h weaken = empty
  Rising-raise hi hi' Good Good' (other k r) h weaken =
      other k (Rising-raise hi hi' Good Good' r h weaken)
  Rising-raise hi hi' Good Good' (this {f = f} k a b g r) h weaken =
      this k a (omega arith) (weaken f b g) (Rising-raise hi hi' Good Good' r h weaken)

  pub Rising-push :
      (hi : ℕ) (Good : Frame → Type 0) {lo : ℕ} {fs : List Frame} (f : Frame)
      → Rising kind hi Good lo fs
      → lo ≤ hi
      → f 3 ≡ kind
      → f 4 ≡ hi
      → Good f
      → Rising kind hi Good lo (fs ++ f ∷ [])
  Rising-push hi Good f empty h k at g = this k (omega arith) (omega arith) g empty
  Rising-push hi Good f (other k' r) h k at g = other k' (Rising-push hi Good f r h k at g)
  Rising-push hi Good f (this k' a b g' r) h k at g =
      this k' a b g' (Rising-push hi Good f r b k at g)

  pub Rising-push_other :
      (hi : ℕ) (Good : Frame → Type 0) {lo : ℕ} {fs : List Frame} (f : Frame)
      → Rising kind hi Good lo fs
      → f 3 ≢ kind
      → Rising kind hi Good lo (fs ++ f ∷ [])
  Rising-push_other hi Good f empty k = other k empty
  Rising-push_other hi Good f (other k' r) k = other k' (Rising-push_other hi Good f r k)
  Rising-push_other hi Good f (this k' a b g r) k = this k' a b g (Rising-push_other hi Good f r k)

  -- A frame that is lost.
  pub Rising-lose :
      (hi : ℕ) (Good : Frame → Type 0) {lo : ℕ} (before : List Frame) (f : Frame) (fs : List Frame)
      → Rising kind hi Good lo (before ++ f ∷ fs)
      → Rising kind hi Good lo (before ++ fs)
  Rising-lose hi Good [] f fs (other k r) = r
  Rising-lose hi Good {lo} [] f fs (this k a b g r) = Rising-lower hi Good lo r a
  Rising-lose hi Good (b ∷ before) f fs (other k r) = other k (Rising-lose hi Good before f fs r)
  Rising-lose hi Good (b ∷ before) f fs (this k a c g r) =
      this k a c g (Rising-lose hi Good before f fs r)

chars-same :
    (f g : Frame) (left n : ℕ)
    → ((j : ℕ) → n ≤ j → j < n + left → f j ≡ g j)
    → chars f left n ≡ chars g left n
unfolding chars
chars-same f g zero n same = refl
chars-same f g (suc left) n same =
    rw
      (
        same n (omega arith) (omega arith),
        chars-same f g left (n + 1) (λ j a b. same j (omega arith) (omega arith)),
      )
      refl

-- A data frame with the newest index holds the newest text, which fits a frame.
abbrev pub Newest : (count : ℕ) (text : List ℕ) → Frame → Type 0
Newest count text f = f 4 ≡ count → (f 5 ≤ 26) × (text_of f ≡ text)

pub Newest-Same :
    (count : ℕ) (text : List ℕ) (f g : Frame) → Same f g → Newest count text f → Newest count text g
Newest-Same count text f g same newest at =
    let (fits, is) = newest (same 4 (omega arith) (omega arith) ∙ at) in
    let size : f 5 ≡ g 5 = same 5 (omega arith) (omega arith) in
    (
      omega arith,
      rw (← size) (sym (chars-same f g (f 5) 6 (λ j a b. same j (omega arith) (omega arith))) ∙ is),
    )

-- The sender has counted `count` messages, of which `acked` were acknowledged, and the newest of
-- which is `text`; the receiver has seen the index `taken`, and printed `got`.
pub record Way (count acked taken : ℕ) (text : List ℕ) (xy yx : List Frame)
    (sent got : List (List ℕ)) : Type 0 where
  pub low : acked ≤ taken
  pub high : taken ≤ count
  pub one : count ≤ acked + 1
  pub number : length sent ≡ count
  pub delivered :
      ((taken ≡ count) × (sent ≡ got)) ⊎ ((taken + 1 ≡ count) × (sent ≡ got ++ text ∷ []))
  pub messages : Rising 0xa1 count (Newest count text) taken xy
  pub acks : Rising 0x3a taken (λ f. Unit {0}) acked yx
