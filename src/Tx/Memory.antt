-- ===== src/Tx/Memory.antt =====
-- The arrays of sw/tx.c: functions of the index, with writes.
use adi_bbp.Common.{ℕ, ◌≡◌, ◌≢◌, ◌==◌, if◌then◌else◌, arith}

abbrev pub Array : Type 0 → Type 0
Array A = ℕ → A

-- `a[i] = v`
abbrev pub update : {A : Type 0} → Array A → ℕ → A → Array A
update a i v j = if i == j then v else a j

pub update_self : {A : Type 0} (a : Array A) (i : ℕ) (v : A) → update a i v i ≡ v
update_self a i v = ground arith

pub update_other : {A : Type 0} (a : Array A) (i j : ℕ) (v : A) → i ≢ j → update a i v j ≡ a j
update_other a i j v h = ground arith
