-- ===== src/Streaming/Laws.antt =====
-- How the commands of sw/iiostream.c end, and what they hold.
pub mod Shutdown
pub mod Cfg
pub mod Loop
pub mod Main
pub mod Success
use adi_bbp.Common.{
  ℕ, zero, suc, ◌+◌, ◌*◌, ◌/◌, ◌^◌, ◌≤◌, ◌<◌, ◌≡◌, refl, ap, ◌∙◌, sym, Bool, true, false, Option,
  none, some, List, [], ◌∷◌, ◌++◌, Bool-cases, inl, inr, ◌==◌, if◌then◌else◌, arith,
}
use mathlib.Core.List.{Perm}
use adi_bbp.Streaming.Library.{Iio}
use adi_bbp.Streaming.State.{
  Statics, Handle, context, channel, buffer, Event, acquired, released, wrote_text, wrote_number,
  write_error, refill_error, no_buffer, saved, waiting, World, End, returned, exited, aborted,
  crashed, unfinished, and_then,
}

-- What an event acquires, what it releases, and how many files it saves.
abbrev pub acquires : Event → List Handle
acquires (acquired h) = h ∷ []
acquires (released h) = []
acquires (wrote_text c a t) = []
acquires (wrote_number c a n) = []
acquires (write_error r a) = []
acquires (refill_error r) = []
acquires no_buffer = []
acquires (saved c n) = []
acquires waiting = []

abbrev pub releases : Event → List Handle
releases (acquired h) = []
releases (released h) = h ∷ []
releases (wrote_text c a t) = []
releases (wrote_number c a n) = []
releases (write_error r a) = []
releases (refill_error r) = []
releases no_buffer = []
releases (saved c n) = []
releases waiting = []

abbrev pub saves : Event → ℕ → ℕ
saves (acquired h) k = k
saves (released h) k = k
saves (wrote_text c a t) k = k
saves (wrote_number c a n) k = k
saves (write_error r a) k = k
saves (refill_error r) k = k
saves no_buffer k = k
saves (saved c n) k = k + 1
saves waiting k = k

-- The newest first.
abbrev pub all_acquired : List Event → List Handle
all_acquired [] = []
all_acquired (e ∷ es) = acquires e ++ all_acquired es

abbrev pub all_released : List Event → List Handle
all_released [] = []
all_released (e ∷ es) = releases e ++ all_released es

abbrev pub all_saved : List Event → ℕ
all_saved [] = 0
all_saved (e ∷ es) = saves e (all_saved es)

-- What has been acquired is what has been released, each handle as often, and at most one file was
-- saved.
abbrev pub Balanced : {iio : Iio} → World iio → Type 0
Balanced w = Perm (all_released w.events) (all_acquired w.events) × (all_saved w.events ≤ 1)

-- Nothing has been released, and at most one file was saved.
abbrev pub Kept : {iio : Iio} → World iio → Type 0
Kept w = (all_released w.events ≡ []) × (all_saved w.events ≤ 1)

-- The command returns with `P`; or the program exits with 0 and the handles balanced; or it aborts or
-- crashes with every handle kept.
abbrev pub Post : {iio : Iio} {A : Type 0} → (A → World iio → Type 0) → End (World iio) A → Type 0
Post P (returned a w) = P a w
Post P (exited code w) = (code ≡ 0) × Balanced w
Post P (aborted w) = Kept w
Post P (crashed w) = Kept w
Post P (unfinished w) = ⊥

module _ {iio : Iio} where
  pub bind :
      {A B : Type 0} (P : A → World iio → Type 0) (Q : B → World iio → Type 0)
      (r : End (World iio) A) (k : A → World iio → End (World iio) B)
      → Post P r
      → ((a : A) (w : World iio) → P a w → Post Q (k a w))
      → Post Q (and_then r k)
  bind P Q (returned a w) k p after = after a w p
  bind P Q (exited code w) k p after = p
  bind P Q (aborted w) k p after = p
  bind P Q (crashed w) k p after = p
  bind P Q (unfinished w) k p after = p

-- The static variables are `st`, the handles `hs` have been acquired and none released, and `n` files
-- were saved.
abbrev pub Holds : {iio : Iio} → Statics → List Handle → ℕ → World iio → Type 0
Holds st hs n w =
    (w.statics ≡ st)
    × (all_acquired w.events ≡ hs)
    × (all_released w.events ≡ [])
    × (all_saved w.events ≡ n)
