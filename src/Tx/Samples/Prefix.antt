-- ===== src/Tx/Samples/Prefix.antt =====
-- The symbols with their cyclic prefix (sw/tx.c, `double_to_fixed_with_cp`).
use adi_bbp.Common.{
  ℕ, zero, suc, ◌+◌, ◌-◌, ◌*◌, ◌≤◌, ◌<◌, ◌≡◌, ◌⊎◌, inl, inr, refl, ap, ◌∙◌, arith, ◌==◌,
  if◌then◌else◌, ltb, Bool-cases, ◌≢◌, ltb→lt, ltb→le, ==→eq, ==→ne,
}
use adi_bbp.Common.Double.{Double}
use adi_bbp.Tx.Memory.{Array, update_other}
use adi_bbp.Tx.Samples.{sample, copy_loop, prefix_loop, double_to_fixed_with_cp}

module _ (d : Double) (a : Array d.D) where
  copy_loop_outside :
      (left ridx widx j : ℕ) (out : Array ℕ)
      → (j < widx) ⊎ (widx + left ≤ j)
      → copy_loop d a left ridx widx out j ≡ out j
  unfolding copy_loop
  copy_loop_outside zero ridx widx j out h = refl
  copy_loop_outside (suc left) ridx widx j out h =
      copy_loop_outside left (ridx + 2) (widx + 1) j _ (omega arith)
      ∙ update_other out widx j _ (omega arith)

  copy_loop_inside :
      (left first ridx widx j : ℕ) (out : Array ℕ)
      → ridx ≡ 2 * first
      → widx ≤ j
      → j < widx + left
      → copy_loop d a left ridx widx out j ≡ sample d a (first + (j - widx))
  unfolding copy_loop
  copy_loop_inside zero first ridx widx j out e lo hi = absurd (omega arith)
  copy_loop_inside (suc left) first ridx widx j out e lo hi = elim (Bool-cases (widx == j)) [
    | inl here ↦
        let at : widx ≡ j = ==→eq widx j here in
        let k : first + (j - widx) ≡ first = omega arith in
        copy_loop_outside left (ridx + 2) (widx + 1) j _ (inl (omega arith)) ∙ rw (here, k, e) refl
    | inr later ↦
        let ne : widx ≢ j = ==→ne widx j later in
        let k : first + 1 + (j - (widx + 1)) ≡ first + (j - widx) = omega arith in
        copy_loop_inside left (first + 1) (ridx + 2) (widx + 1) j _ (omega arith) (omega arith)
          (omega arith)
        ∙ ap (sample d a) k
  ]

  module _ (nfft ncp : ℕ) (short : ncp ≤ nfft) where
    abbrev pub period : ℕ
    period = ncp + nfft

    -- The sample that goes to place `j` of symbol `s`: the prefix is the end of the symbol.
    abbrev pub source : (s j : ℕ) → ℕ
    source s j = s * nfft + (if ltb j ncp then nfft - ncp + j else j - ncp)

    prefix_loop_outside :
        (left cnt widx i : ℕ) (out : Array ℕ)
        → (i < widx) ⊎ (widx + left * period ≤ i)
        → prefix_loop d a nfft ncp left cnt widx out i ≡ out i
    unfolding prefix_loop
    prefix_loop_outside zero cnt widx i out h = refl
    prefix_loop_outside (suc left) cnt widx i out h =
        prefix_loop_outside left (cnt + 1) (widx + ncp + nfft) i _ (omega arith)
        ∙ copy_loop_outside nfft _ (widx + ncp) i _ (omega arith)
        ∙ copy_loop_outside ncp _ widx i out (omega arith)

    -- One symbol, at the place from which the loop writes.
    symbol_lem :
        (cnt widx j : ℕ) (out : Array ℕ)
        → j < period
        → copy_loop d a nfft
            (cnt * nfft * 2)
            (widx + ncp)
            (copy_loop d a ncp (((cnt + 1) * nfft - ncp) * 2) widx out)
            (widx + j)
          ≡ sample d a (source cnt j)
    symbol_lem cnt widx j out h = elim (Bool-cases (ltb j ncp)) [
      | inl early ↦
          let index : (cnt + 1) * nfft - ncp + (widx + j - widx) ≡ cnt * nfft + (nfft - ncp + j) =
            omega arith in
          let small : j < ncp = ltb→lt j ncp early in
          copy_loop_outside nfft _ (widx + ncp) (widx + j) _ (inl (omega arith))
          ∙ copy_loop_inside ncp ((cnt + 1) * nfft - ncp) _ widx (widx + j) out (omega arith)
              (omega arith) (omega arith)
          ∙ rw (early, index) refl
      | inr late ↦
          let large : ncp ≤ j = ltb→le j ncp late in
          let index : cnt * nfft + (widx + j - (widx + ncp)) ≡ cnt * nfft + (j - ncp) =
            omega arith in
          copy_loop_inside nfft (cnt * nfft) _ (widx + ncp) (widx + j) _ (omega arith) (omega arith)
            (omega arith)
          ∙ rw (late, index) refl
    ]

    prefix_loop_inside :
        (left cnt widx s j : ℕ) (out : Array ℕ)
        → widx ≡ cnt * period
        → cnt ≤ s
        → s < cnt + left
        → j < period
        → prefix_loop d a nfft ncp left cnt widx out (s * period + j) ≡ sample d a (source s j)
    unfolding prefix_loop
    prefix_loop_inside zero cnt widx s j out e lo hi below = absurd (omega arith)
    prefix_loop_inside (suc left) cnt widx s j out e lo hi below = elim (Bool-cases (cnt == s)) [
      | inl here ↦
          let at : cnt ≡ s = ==→eq cnt s here in
          let at' : cnt * period ≡ s * period = ap (λ (t : ℕ). t * period) at in
          let index : s * period + j ≡ widx + j = omega arith in
          rw index (
            prefix_loop_outside left (cnt + 1) (widx + ncp + nfft) (widx + j) _ (inl (omega arith))
            ∙ symbol_lem cnt widx j out below
            ∙ ap (λ (t : ℕ). sample d a (source t j)) at)
      | inr later ↦
          let ne : cnt ≢ s = ==→ne cnt s later in
          prefix_loop_inside left (cnt + 1) (widx + ncp + nfft) s j _ (omega arith) (omega arith)
            (omega arith) below
    ]

    -- With a prefix no longer than a symbol, place `j` of symbol `s` holds its sample, the last
    -- `ncp` samples of the symbol standing before the symbol too; nothing behind the last symbol
    -- is written.
    pub double_to_fixed_with_cp_lem :
        (nsym : ℕ) (out : Array ℕ)
        → ((s j : ℕ)
            → s < nsym
            → j < period
            → double_to_fixed_with_cp d a nfft nsym ncp out (s * period + j)
              ≡ sample d a (source s j))
          × ((i : ℕ) → nsym * period ≤ i → double_to_fixed_with_cp d a nfft nsym ncp out i ≡ out i)
    unfolding double_to_fixed_with_cp
    double_to_fixed_with_cp_lem nsym out = (
      λ s j inside below.
          prefix_loop_inside nsym 0 0 s j out (omega arith) (omega arith) (omega arith) below,
      λ i beyond. prefix_loop_outside nsym 0 0 i out (inr (omega arith)),
    )
