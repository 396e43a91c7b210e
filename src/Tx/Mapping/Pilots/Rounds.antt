-- ===== src/Tx/Mapping/Pilots/Rounds.antt =====
-- The rounds of the loop of `add_pilots` (sw/tx.c), and what they write.
use native.Mathlib.Nat.{mod-eq_of_lt, mod-lt, mod-add-mod}
use adi_bbp.Common.{
  ℕ, zero, suc, ◌+◌, ◌*◌, ◌%◌, ◌≤◌, ◌<◌, ◌≡◌, ◌≢◌, ◌⊎◌, refl, ◌∙◌, Bool, true, false, none, some,
  ltb, ◌==◌, ==→eq, ==→ne, Bool-cases, inl, inr, if◌then◌else◌, arith, lt→ltb, ge→ltb, ltb→lt,
  ltb→le,
}
use adi_bbp.Common.Double.{Double}
use adi_bbp.Tx.Memory.{Array, update, update_self, update_other}
use adi_bbp.Tx.Samples.{pp}
use adi_bbp.Tx.Mapping.{PilotTone, Adding, put, add_step, add_loop, add_pilots}
use adi_bbp.Tx.Mapping.Pilots.{find, data_before, real_at, imag_at}
use adi_bbp.Tx.Mapping.Pilots.Place.{
  Place, find-hit, find-miss, advance, Place-start, Place-hit, Place-miss, Place-lt, n_fft-positive,
}

module _ (d : Double) (pilots : Array (PilotTone d)) (num n_fft : ℕ) (some_pilot : 0 < num)
    (inside : (j : ℕ) → j < num → (pilots j).pos < n_fft)
    (increasing : (i j : ℕ) → i < j → j < num → (pilots i).pos < (pilots j).pos) (input : Array d.D)
    (n_in : ℕ) where
  -- The variables of the loop before the output `k`.
  pub record Reached (k : ℕ) (s : Adding d) : Type 0 where
    pub place : Place d pilots num n_fft some_pilot inside increasing (k % n_fft) s.pilots_idx
    pub taken :
        ((s.in_idx ≡ data_before d pilots num n_fft k) × (data_before d pilots num n_fft k ≤ n_in))
        ⊎ ((s.in_idx ≡ n_in) × (n_in < data_before d pilots num n_fft k))

  -- A round writes subcarrier `k` and no other, and goes on to the next.
  abbrev pub Round : (k : ℕ) (s s' : Adding d) → Type 0
  Round k s s' =
      (s'.out (k * 2) ≡ real_at d pilots num n_fft input n_in k)
      × (s'.out (k * 2 + 1) ≡ imag_at d pilots num n_fft input n_in k)
      × ((x : ℕ) → (x < k * 2) ⊎ (k * 2 + 2 ≤ x) → s'.out x ≡ s.out x)
      × Reached (k + 1) s'

  put_lem :
      (out : Array d.D) (k : ℕ) (r i : d.D)
      → (put d out k r i (k * 2) ≡ r)
        × (put d out k r i (k * 2 + 1) ≡ i)
        × ((x : ℕ) → (x < k * 2) ⊎ (k * 2 + 2 ≤ x) → put d out k r i x ≡ out x)
  put_lem out k r i = (
    update_other (update out (k * 2) r) (k * 2 + 1) (k * 2) i (omega arith)
        ∙ update_self out (k * 2) r,
    update_self (update out (k * 2) r) (k * 2 + 1) i,
    λ x h.
        update_other (update out (k * 2) r) (k * 2 + 1) x i (omega arith)
        ∙ update_other out (k * 2) x r (omega arith),
  )

  data_before-hit :
      (k q : ℕ)
      → find d pilots num (k % n_fft) ≡ some q
      → data_before d pilots num n_fft (k + 1) ≡ data_before d pilots num n_fft k
  unfolding data_before
  data_before-hit k q found =
      let next : k + 1 ≡ suc k = omega arith in rw (next, data_before, found) refl

  data_before-miss :
      (k : ℕ)
      → find d pilots num (k % n_fft) ≡ none
      → data_before d pilots num n_fft (k + 1) ≡ data_before d pilots num n_fft k + 1
  unfolding data_before
  data_before-miss k missing =
      let next : k + 1 ≡ suc k = omega arith in rw (next, data_before, missing) refl

  next_position : (k : ℕ) → (k % n_fft + 1) % n_fft ≡ (k + 1) % n_fft
  next_position k = mod-add-mod k n_fft 1

  Round-pilot :
      (k : ℕ) (s : Adding d)
      → Reached k s
      → (pilots s.pilots_idx).pos ≡ k % n_fft
      → Round k s (record {
        out =
            put d s.out k
              (d.mul (pilots s.pilots_idx).real (pp d))
              (d.mul (pilots s.pilots_idx).imag (pp d));
        in_idx = s.in_idx;
        pilots_idx = advance d pilots num n_fft some_pilot inside increasing s.pilots_idx;
      })
  unfolding real_at imag_at
  Round-pilot k s reached at =
      let found =
        find-hit d pilots num n_fft some_pilot inside increasing (k % n_fft) reached.place at in
      let written =
        put_lem s.out k (d.mul (pilots s.pilots_idx).real (pp d))
          (d.mul (pilots s.pilots_idx).imag (pp d)) in
      let same = data_before-hit k s.pilots_idx found in
      (
        rw (real_at, found) (written.0),
        rw (imag_at, found) (written.1),
        written.2,
        record {
          place = rw (next_position k) at (
              Place-hit d pilots num n_fft some_pilot inside increasing (k % n_fft)
                (mod-lt k (n_fft-positive d pilots num n_fft some_pilot inside increasing))
                reached.place at);
          taken = rw same reached.taken;
        },
      )

  -- A round without a pilot, given whether there is input left.
  Round-data :
      (k : ℕ) (s : Adding d) (more : Bool)
      → Reached k s
      → (pilots s.pilots_idx).pos ≢ k % n_fft
      → ltb s.in_idx n_in ≡ more
      → Round k s (
          if more
          then record {
            out = put d s.out k (input (s.in_idx * 2)) (input (s.in_idx * 2 + 1));
            in_idx = s.in_idx + 1;
            pilots_idx = s.pilots_idx;
          }
          else record s { out = put d s.out k (d.of_ℕ 0) (d.of_ℕ 0) })
  unfolding real_at imag_at
  Round-data k s true reached other more =
      let missing =
        find-miss d pilots num n_fft some_pilot inside increasing (k % n_fft) reached.place other in
      let here : s.in_idx ≡ data_before d pilots num n_fft k =
        omega (arith, reached.taken, ltb→lt s.in_idx n_in more) in
      let left : ltb (data_before d pilots num n_fft k) n_in ≡ true = rw here at more in
      let written = put_lem s.out k (input (s.in_idx * 2)) (input (s.in_idx * 2 + 1)) in
      let next = data_before-miss k missing in
      (
        rw (real_at, missing, left, ← here) (written.0),
        rw (imag_at, missing, left, ← here) (written.1),
        written.2,
        record {
          place = rw (next_position k) at (
              Place-miss d pilots num n_fft some_pilot inside increasing (k % n_fft)
                (mod-lt k (n_fft-positive d pilots num n_fft some_pilot inside increasing))
                reached.place other);
          taken = rw next (inl (omega arith, omega (arith, ltb→lt s.in_idx n_in more)));
        },
      )
  Round-data k s false reached other over =
      let missing =
        find-miss d pilots num n_fft some_pilot inside increasing (k % n_fft) reached.place other in
      let past : n_in ≤ data_before d pilots num n_fft k =
        omega (arith, reached.taken, ltb→le s.in_idx n_in over) in
      let left : ltb (data_before d pilots num n_fft k) n_in ≡ false =
        ge→ltb (data_before d pilots num n_fft k) n_in past in
      let written = put_lem s.out k (d.of_ℕ 0) (d.of_ℕ 0) in
      let next = data_before-miss k missing in
      let all : s.in_idx ≡ n_in = omega (arith, reached.taken, ltb→le s.in_idx n_in over) in
      (
        rw (real_at, missing, left) (written.0),
        rw (imag_at, missing, left) (written.1),
        written.2,
        record {
          place = rw (next_position k) at (
              Place-miss d pilots num n_fft some_pilot inside increasing (k % n_fft)
                (mod-lt k (n_fft-positive d pilots num n_fft some_pilot inside increasing))
                reached.place other);
          taken = rw next (inr (all, omega arith));
        },
      )

  add_step-Round :
      (k : ℕ) (s : Adding d) → Reached k s → Round k s (add_step d input n_in n_fft num pilots k s)
  unfolding add_step
  add_step-Round k s reached =
      let small =
        lt→ltb s.pilots_idx num
          (Place-lt d pilots num n_fft some_pilot inside increasing reached.place) in
      elim (Bool-cases ((pilots s.pilots_idx).pos == k % n_fft)) [
        | inl hit ↦
            rw (small, hit)
              (Round-pilot k s reached (==→eq (pilots s.pilots_idx).pos (k % n_fft) hit))
        | inr miss ↦
            rw (small, miss)
              (Round-data k s (ltb s.in_idx n_in) reached
                (==→ne (pilots s.pilots_idx).pos (k % n_fft) miss) refl)
      ]

  loop_lem :
      (left k : ℕ) (s : Adding d)
      → Reached k s
      → ((add_loop d input n_in n_fft num pilots left k s).0 ≡ k + left)
        × ((x : ℕ)
            → (x < k * 2) ⊎ ((k + left) * 2 ≤ x)
            → (add_loop d input n_in n_fft num pilots left k s).1.out x ≡ s.out x)
        × ((j : ℕ)
            → k ≤ j
            → j < k + left
            → ((add_loop d input n_in n_fft num pilots left k s).1.out (j * 2)
                ≡ real_at d pilots num n_fft input n_in j)
              × ((add_loop d input n_in n_fft num pilots left k s).1.out (j * 2 + 1)
                  ≡ imag_at d pilots num n_fft input n_in j))
  unfolding add_loop
  loop_lem zero k s reached = (omega arith, λ x h. refl, λ j lo hi. absurd (omega arith))
  loop_lem (suc left) k s reached =
      let (re, im, rest, reached') = add_step-Round k s reached in
      let (ends, outside, here) =
        loop_lem left (k + 1) (add_step d input n_in n_fft num pilots k s) reached' in
      (
        omega (arith, ends),
        λ x h. outside x (omega arith) ∙ rest x (omega arith),
        λ j lo hi. elim (Bool-cases (k == j)) [
          | inl same ↦
              rw (← ==→eq k j same)
                (outside (k * 2) (omega arith) ∙ re, outside (k * 2 + 1) (omega arith) ∙ im)
          | inr ne ↦ here j (omega (arith, ==→ne k j ne)) (omega arith)
        ],
      )

  -- With one pilot or more, at increasing positions inside a symbol, `add_pilots` gives back
  -- the number of subcarriers asked for; each that stands at the position of a pilot carries
  -- this pilot, in every symbol, and each other one the next of the input, or 0 behind the
  -- end of the input; nothing behind them is written.
  pub add_pilots_lem :
      (n_out : ℕ) (out : Array d.D)
      → ((add_pilots d input n_in n_fft num pilots n_out out).0 ≡ n_out)
        × ((k : ℕ)
            → k < n_out
            → ((add_pilots d input n_in n_fft num pilots n_out out).1 (k * 2)
                ≡ real_at d pilots num n_fft input n_in k)
              × ((add_pilots d input n_in n_fft num pilots n_out out).1 (k * 2 + 1)
                  ≡ imag_at d pilots num n_fft input n_in k))
        × ((x : ℕ)
            → n_out * 2 ≤ x
            → (add_pilots d input n_in n_fft num pilots n_out out).1 x ≡ out x)
  unfolding add_pilots data_before
  add_pilots_lem n_out out =
      let first : 0 % n_fft ≡ 0 =
        mod-eq_of_lt (n_fft-positive d pilots num n_fft some_pilot inside increasing) in
      let begin : Reached 0 (record { out = out; in_idx = 0; pilots_idx = 0 }) = record {
        place = rw first (Place-start d pilots num n_fft some_pilot inside increasing);
        taken = inl (refl, omega arith);
      } in
      let (ends, outside, here) =
        loop_lem n_out 0 (record { out = out; in_idx = 0; pilots_idx = 0 }) begin in
      (
        ends ∙ omega arith,
        λ k below. here k (omega arith) (omega arith),
        λ x beyond. outside x (omega arith),
      )
