-- ===== src/Tx/Mapping/Pilots/Place.antt =====
-- The position in the pilots, `pilots_idx`, in the loop of `add_pilots` (sw/tx.c).
use native.Mathlib.Nat.{mod_self, mod-eq_of_lt}
use adi_bbp.Common.{
  leb→le, leb→gt, ℕ, zero, suc, ◌+◌, ◌%◌, ◌≤◌, ◌<◌, ◌≡◌, ◌≢◌, refl, none, some, ltb, leb, ◌==◌,
  ==→eq, ==→ne, ==_refl, ==_ne, Bool-cases, inl, inr, if◌then◌else◌, arith, ltb→lt, ltb→le,
}
use adi_bbp.Common.Double.{Double}
use adi_bbp.Tx.Memory.{Array}
use adi_bbp.Tx.Mapping.{PilotTone}
use adi_bbp.Tx.Mapping.Pilots.{find}

module _ (d : Double) (pilots : Array (PilotTone d)) (num n_fft : ℕ) (some_pilot : 0 < num)
    (inside : (j : ℕ) → j < num → (pilots j).pos < n_fft)
    (increasing : (i j : ℕ) → i < j → j < num → (pilots i).pos < (pilots j).pos) where
  -- `pilots_idx` at the position `r` of a symbol.
  pub data Place (r : ℕ) : ℕ → Type 0 where
    ahead :
        {idx : ℕ}
        → idx < num
        → ((j : ℕ) → j < idx → (pilots j).pos < r)
        → r ≤ (pilots idx).pos
        → Place r idx
    wrapped : ((j : ℕ) → j < num → (pilots j).pos < r) → Place r 0

  find-none : (n r : ℕ) → ((j : ℕ) → j < n → (pilots j).pos ≢ r) → find d pilots n r ≡ none
  unfolding find
  find-none zero r h = refl
  find-none (suc n) r h =
      rw (==_ne (pilots n).pos r (h n (omega arith))) (find-none n r (λ j below. h j (omega arith)))

  find-some : (n q : ℕ) → q < n → n ≤ num → find d pilots n (pilots q).pos ≡ some q
  unfolding find
  find-some zero q h le = absurd (omega arith)
  find-some (suc n) q h le = elim (Bool-cases (n == q)) [
    | inl here ↦ rw (==→eq n q here, ==_refl (pilots q).pos) refl
    | inr later ↦
        let lt : q < n = omega (arith, ==→ne n q later) in
        let ne : (pilots n).pos ≢ (pilots q).pos = omega (arith, increasing q n lt (omega arith)) in
        rw (==_ne (pilots n).pos (pilots q).pos ne) (find-some n q lt (omega arith))
  ]

  -- What the test of the loop finds.
  pub find-hit :
      (r : ℕ) {idx : ℕ} → Place r idx → (pilots idx).pos ≡ r → find d pilots num r ≡ some idx
  find-hit r (ahead {idx} small below above) at = rw (← at) (find-some num idx small (omega arith))
  find-hit r (wrapped all) at = absurd (omega (arith, all 0 some_pilot))

  pub find-miss :
      (r : ℕ) {idx : ℕ} → Place r idx → (pilots idx).pos ≢ r → find d pilots num r ≡ none
  find-miss r (ahead {idx} small below above) other = find-none num r λ j h.
      elim (Bool-cases (ltb j idx)) [
        | inl lt ↦ omega (arith, below j (ltb→lt j idx lt))
        | inr ge ↦ elim (Bool-cases (j == idx)) [
          | inl same ↦ rw (==→eq j idx same) other
          | inr ne ↦
              omega (arith, increasing idx j (omega (arith, ltb→le j idx ge, ==→ne j idx ne)) h)
        ]
      ]
  find-miss r (wrapped all) other = find-none num r λ j h. omega (arith, all j h)

  abbrev pub advance : ℕ → ℕ
  advance idx = if leb num (idx + 1) then 0 else idx + 1

  pub Place-start : Place 0 0
  Place-start = ahead some_pilot (λ j h. absurd (omega arith)) (omega arith)

  wrap-last : (r : ℕ) → r < n_fft → n_fft ≤ r + 1 → (r + 1) % n_fft ≡ 0
  wrap-last r fits last = let whole : n_fft ≡ r + 1 = omega arith in rw whole (mod_self (r + 1))

  wrap-inner : (r : ℕ) → r + 1 < n_fft → (r + 1) % n_fft ≡ r + 1
  wrap-inner r inner = mod-eq_of_lt inner

  up_to :
      (r idx : ℕ)
      → (pilots idx).pos ≡ r
      → ((j : ℕ) → j < idx → (pilots j).pos < r)
      → (j : ℕ) → j < idx + 1
      → (pilots j).pos < r + 1
  up_to r idx at below j h = elim (Bool-cases (ltb j idx)) [
    | inl lt ↦ omega (arith, below j (ltb→lt j idx lt))
    | inr ge ↦ let same : j ≡ idx = omega (arith, ltb→le j idx ge) in rw same (omega arith)
  ]

  pub Place-hit :
      (r : ℕ) {idx : ℕ}
      → r < n_fft
      → Place r idx
      → (pilots idx).pos ≡ r
      → Place ((r + 1) % n_fft) (advance idx)
  Place-hit r fits (wrapped all) at = absurd (omega (arith, all 0 some_pilot))
  Place-hit r fits (ahead {idx} small below above) at = elim (Bool-cases (leb num (idx + 1))) [
    | inl end ↦ elim (Bool-cases (ltb (r + 1) n_fft)) [
      | inl inner ↦
          rw (end, wrap-inner r (ltb→lt (r + 1) n_fft inner))
            (wrapped λ j h. up_to r idx at below j (omega (arith, leb→le num (idx + 1) end)))
      | inr last ↦ rw (end, wrap-last r fits (ltb→le (r + 1) n_fft last)) Place-start
    ]
    | inr more ↦
        let small' : idx + 1 < num = omega (arith, leb→gt num (idx + 1) more) in
        let next : (pilots idx).pos < (pilots (idx + 1)).pos =
          increasing idx (idx + 1) (omega arith) small' in
        let inner : r + 1 < n_fft = omega (arith, inside (idx + 1) small') in
        rw (more, wrap-inner r inner) (ahead small' (up_to r idx at below) (omega arith))
  ]

  pub Place-miss :
      (r : ℕ) {idx : ℕ}
      → r < n_fft
      → Place r idx
      → (pilots idx).pos ≢ r
      → Place ((r + 1) % n_fft) idx
  Place-miss r fits (wrapped all) other = elim (Bool-cases (ltb (r + 1) n_fft)) [
    | inl inner ↦
        rw (wrap-inner r (ltb→lt (r + 1) n_fft inner)) (wrapped λ j h. omega (arith, all j h))
    | inr last ↦ rw (wrap-last r fits (ltb→le (r + 1) n_fft last)) Place-start
  ]
  Place-miss r fits (ahead {idx} small below above) other =
      let inner : r + 1 < n_fft = omega (arith, inside idx small) in
      rw (wrap-inner r inner) (ahead small (λ j h. omega (arith, below j h)) (omega arith))

  pub Place-lt : {r idx : ℕ} → Place r idx → idx < num
  Place-lt (ahead small below above) = small
  Place-lt (wrapped all) = some_pilot

  pub n_fft-positive : 0 < n_fft
  n_fft-positive = omega (arith, inside 0 some_pilot)
