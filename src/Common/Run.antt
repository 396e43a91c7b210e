-- ===== src/Common/Run.antt =====
-- Commands of C programs on a state, and how they end.

-- A command returns, waits for ever on a mutex, goes through NULL or fails an assertion, or is still
-- polling when the rounds that it was given are over.
pub data Run (W A : Type 0) : Type 0 where
  done : A → W → Run W A
  blocked : W → Run W A
  fault : W → Run W A
  polling : W → Run W A

abbrev pub pure : {W A : Type 0} → A → W → Run W A
pure a w = done a w

abbrev pub and_then : {W A B : Type 0} → Run W A → (A → W → Run W B) → Run W B
and_then (done a w) k = k a w
and_then (blocked w) k = blocked w
and_then (fault w) k = fault w
and_then (polling w) k = polling w

infixl 5 ◌>>=◌ ◌>>◌
abbrev pub ◌>>=◌ : {W A B : Type 0} → (W → Run W A) → (A → W → Run W B) → W → Run W B
m >>= k = λ w. and_then (m w) k

abbrev pub ◌>>◌ : {W B : Type 0} → (W → Run W (Unit {0})) → (W → Run W B) → W → Run W B
m >> n = m >>= λ _. n
