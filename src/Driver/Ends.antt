-- ===== src/Driver/Ends.antt =====
-- Postconditions of the driver's commands, and what a command leaves alone.
use adi_bbp.Common.{ℕ, ◌≡◌, refl, ◌∙◌, List, ◌∷◌, ==_refl}
use adi_bbp.Driver.World.{Env, World, Run, done, blocked, fault, polling, and_then, forget}

-- The command returns with `P`, or is still polling with `L`. It does not block and not fault.
abbrev pub Ends : {W A : Type 0} → (A → W → Type 0) → (W → Type 0) → Run W A → Type 0
Ends P L (done a w) = P a w
Ends P L (blocked w) = ⊥
Ends P L (fault w) = ⊥
Ends P L (polling w) = L w

-- The command returns, with `P`.
abbrev pub Returns : {W A : Type 0} → (A → W → Type 0) → Run W A → Type 0
Returns P r = Ends P (λ _. ⊥) r

-- If the command returns, then with `P`.
abbrev pub IfDone : {W A : Type 0} → (A → W → Type 0) → Run W A → Type 0
IfDone P (done a w) = P a w
IfDone P (blocked w) = Unit {0}
IfDone P (fault w) = Unit {0}
IfDone P (polling w) = Unit {0}

module _ {W : Type 0} where
  pub if_done :
      {A : Type 0} (P Q : A → W → Type 0) (L : W → Type 0) (r : Run W A)
      → Ends P L r
      → ((a : A) (w : W) → P a w → Q a w)
      → IfDone Q r
  if_done P Q L (done a w) p weaken = weaken a w p
  if_done P Q L (blocked w) p weaken = tt
  if_done P Q L (fault w) p weaken = tt
  if_done P Q L (polling w) p weaken = tt

  pub bind :
      {A B : Type 0} (P : A → W → Type 0) (Q : B → W → Type 0) (L : W → Type 0) (r : Run (W) A)
      (k : A → W → Run W B)
      → Ends P L r
      → ((a : A) (w : W) → P a w → Ends Q L (k a w))
      → Ends Q L (and_then r k)
  bind P Q L (done a w) k p next = next a w p
  bind P Q L (blocked w) k p next = p
  bind P Q L (fault w) k p next = p
  bind P Q L (polling w) k p next = p

  pub mono :
      {A : Type 0} (P Q : A → W → Type 0) (L : W → Type 0) (r : Run (W) A)
      → Ends P L r
      → ((a : A) (w : W) → P a w → Q a w)
      → Ends Q L r
  mono P Q L (done a w) p weaken = weaken a w p
  mono P Q L (blocked w) p weaken = p
  mono P Q L (fault w) p weaken = p
  mono P Q L (polling w) p weaken = p

  pub both :
      {A : Type 0} (P Q : A → W → Type 0) (L : W → Type 0) (r : Run (W) A)
      → Ends P L r
      → Ends Q L r
      → Ends (λ a w. P a w × Q a w) L r
  both P Q L (done a w) p q = (p, q)
  both P Q L (blocked w) p q = p
  both P Q L (fault w) p q = p
  both P Q L (polling w) p q = p

module _ {e : Env} where
  -- The driver's own state is that of `w`, and no register was written.
  abbrev pub Keeps : (w w' : World e) → Type 0
  Keeps w w' =
      (w'.locked ≡ w.locked)
      × (w'.rx_enabled ≡ w.rx_enabled)
      × (w'.live ≡ w.live)
      × (w'.writes ≡ w.writes)

module _ {e : Env} where
  pub Keeps-trans : (w w' w'' : World e) → Keeps w w' → Keeps w' w'' → Keeps w w''
  Keeps-trans w w' w'' a b = (b.0 ∙ a.0, b.1 ∙ a.1, b.2 ∙ a.2, b.3 ∙ a.3)

-- The postcondition of a command that may go on polling for as long as it is given rounds.
abbrev pub Any : {W : Type 0} → W → Type 0
Any w = Unit {0}

pub forget_head : (p : ℕ) (live : List ℕ) → forget p (p ∷ live) ≡ live
forget_head p live = rw (==_refl p) refl
