-- ===== src/Tx/Coder.antt =====
-- The convolutional coder of sw/tx.c: `update_state`, `next_in_bit`, `next_out_bits` and
-- `cc_encode_tb`. The pointers `in` and `out` are indices into the arrays that they point to.
pub mod Bits
pub mod Loops
pub mod Tail
pub mod Laws
pub mod PastEnd
use adi_bbp.Common.{
  ℕ, zero, suc, ◌+◌, ◌-◌, ◌*◌, ◌/◌, ◌%◌, ◌^◌, Bool, true, false, Option, none, some, ltb, leb, ◌==◌,
  if◌then◌else◌, bit_and, bit_or,
}
use adi_bbp.Tx.Memory.{Array, update}

-- `(uint16_t)((state << 1) | (in_byte & 0x1))`
pub update_state : (state in_byte : ℕ) → ℕ
update_state state in_byte = bit_or (state * 2) (bit_and in_byte 0x1) % 2 ^ 16

-- The input cursor: the pointer, the byte that is shifted out, and the position in it.
pub record Input : Type 0 where
  pub ptr : ℕ
  pub byte : ℕ
  pub pos : ℕ

pub next_in_bit : Array ℕ → Input → Input
next_in_bit mem s =
    let pos = (s.pos + 1) % 2 ^ 8 in
    if leb 8 pos
    then record { ptr = s.ptr + 1; byte = mem (s.ptr + 1); pos = 0 }
    else record { ptr = s.ptr; byte = s.byte / 2; pos = pos }

-- The output cursor, with the array that is written.
pub record Output : Type 0 where
  pub buf : Array ℕ
  pub ptr : ℕ
  pub byte : ℕ
  pub pos : ℕ

-- `__builtin_parity` of a 16-bit word: the parity of its ones.
ones : ℕ → ℕ → ℕ
ones zero n = 0
ones (suc k) n = n % 2 + ones k (n / 2)

pub parity : ℕ → ℕ
parity n = ones 16 n % 2

-- One round of the loop of `next_out_bits`, with the constraint `constr`.
pub put_bit : (constr mask state : ℕ) → Output → Output
put_bit constr mask state s =
    let out_bit = parity (bit_and (bit_and constr state) mask) in
    let byte = bit_or (s.byte / 2) (if out_bit == 0 then 0x00 else 0x80) in
    let pos = (s.pos + 1) % 2 ^ 8 in
    if leb 8 pos
    then record { buf = update s.buf s.ptr byte; ptr = s.ptr + 1; byte = 0; pos = 0 }
    else record { buf = s.buf; ptr = s.ptr; byte = byte; pos = pos }

-- `next_out_bits`; `none` is the failed `assert`.
pub next_out_bits : (constrs : Array ℕ) (constr_len state : ℕ) → Output → Option Output
next_out_bits constrs constr_len state s =
    let mask = (2 ^ constr_len + 2 ^ 16 - 1) % 2 ^ 16 in
    if ltb s.pos 8
    then some (put_bit (constrs 1) mask state (put_bit (constrs 0) mask state s))
    else none

infixl 5 ◌>>=◌
abbrev pub ◌>>=◌ : {A B : Type 0} → Option A → (A → Option B) → Option B
none >>= f = none
some a >>= f = f a

-- The first loop of `cc_encode_tb`, with `left` rounds to go.
pub init_loop : (mem : Array ℕ) (left state : ℕ) → Input → ℕ × Input
init_loop mem zero state s = (state, s)
init_loop mem (suc left) state s =
    init_loop mem left (update_state state s.byte) (next_in_bit mem s)

module _ (mem constrs : Array ℕ) (constr_len : ℕ) where
  -- The second loop.
  pub main_loop : (left state : ℕ) → Input → Output → Option (ℕ × Input × Output)
  main_loop zero state s out = some (state, s, out)
  main_loop (suc left) state s out = do
    let next = update_state state s.byte
    out' ← next_out_bits constrs constr_len next out
    main_loop left next (next_in_bit mem s) out'

  -- The third loop, in which the input bits come from `init_state` once the byte is used up.
  pub tail_loop : (left state init_state byte pos : ℕ) → Output → Option Output
  tail_loop zero state init_state byte pos out = some out
  tail_loop (suc left) state init_state byte pos out = do
    out' ← next_out_bits constrs constr_len state out
    let next = update_state state byte
    let wraps = leb 8 ((pos + 1) % 2 ^ 8)
    tail_loop left next (if wraps then init_state / 2 ^ 8 else init_state)
        (if wraps then init_state % 2 ^ 8 else byte / 2) (if wraps then 0 else (pos + 1) % 2 ^ 8)
        out'

  -- `none` is a failed assertion. The array `out` is the one given, with what was written.
  pub cc_encode_tb : (in_len : ℕ) (out : Array ℕ) → Option (Array ℕ)
  cc_encode_tb in_len out =
      let (init_state, s) =
        init_loop mem constr_len 0 (record { ptr = 0; byte = mem 0; pos = 0 }) in
      if ltb constr_len (in_len * 8)
      then (main_loop (in_len * 8 - constr_len) init_state s
            (record { buf = out; ptr = 0; byte = 0; pos = 0 })
          >>= λ (state, s', out₁).
              tail_loop constr_len state init_state s'.byte s'.pos out₁ >>= λ out₂. some out₂.buf)
      else none
