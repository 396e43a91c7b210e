-- ===== src/Link/Sender.antt =====
-- adi-sw/xcomm2ip_m.c: lines of input become messages of at most 20 characters.
use adi_bbp.Common.{
  ℕ, zero, suc, ◌+◌, ◌-◌, ◌%◌, ◌^◌, ◌<◌, ◌≡◌, ◌≢◌, refl, Bool, true, false, Option, none, some,
  List, [], ◌∷◌, ◌++◌, ltb, ◌==◌, ==_ne, Bool-cases, inl, inr, ltb→lt, ltb→le, if◌then◌else◌, arith,
}

abbrev pub newline : ℕ
newline = 10

-- The inner loop of `main`, from a message of used `used`: the characters that it adds to
-- `mtext`, and the input behind the newline. `none` is that the input ends first.
pub read_line : (used : ℕ) (input : List ℕ) → Option (List ℕ × List ℕ)
read_line used [] = none
read_line used (c ∷ input) =
    let rest = read_line (if ltb used 20 then used + 1 else used) input in
    if c == newline then some ([], input) else elim rest [
      | none ↦ none
      | some (text, behind) ↦ some ((if ltb used 20 then c % 2 ^ 8 ∷ text else text), behind)
    ]

-- The outer loop: the texts that are given to `msgsnd`, and whether it was left, by an empty line.
pub session : (lines : ℕ) (input : List ℕ) → List (List ℕ) × Bool
session zero input = ([], false)
session (suc lines) input = elim (read_line 0 input) [
  | none ↦ ([], false)
  | some ([], behind) ↦ ([], true)
  | some (c ∷ text, behind) ↦ let (texts, left) = session lines behind in ((c ∷ text) ∷ texts, left)
]

-- The first `n` characters, as bytes.
unfoldable pub cut : ℕ → List ℕ → List ℕ
cut zero cs = []
cut (suc n) [] = []
cut (suc n) (c ∷ cs) = c % 2 ^ 8 ∷ cut n cs

unfoldable pub length : List (List ℕ) → ℕ
length [] = 0
length (t ∷ ts) = suc (length ts)

-- No newline is among the characters.
pub data OneLine : List ℕ → Type 0 where
  done : OneLine []
  char : (c : ℕ) {cs : List ℕ} → c ≢ newline → OneLine cs → OneLine (c ∷ cs)

cut_nil : (n : ℕ) → cut n [] ≡ []
unfolding cut
cut_nil zero = refl
cut_nil (suc n) = refl

-- With `used` characters so far, a line adds its first `20 - used` characters.
read_line_from :
    (used : ℕ) {cs : List ℕ} (rest : List ℕ)
    → OneLine cs
    → read_line used (cs ++ newline ∷ rest) ≡ some (cut (20 - used) cs, rest)
unfolding read_line cut
read_line_from used rest done = rw (cut_nil (20 - used)) refl
read_line_from used rest (char c {cs} other line) = elim (Bool-cases (ltb used 20)) [
  | inl more ↦
      let left : 20 - used ≡ suc (20 - (used + 1)) = omega (arith, ltb→lt used 20 more) in
      rw (more, ==_ne c newline other, read_line_from (used + 1) rest line, left, more) refl
  | inr full ↦
      let left : 20 - used ≡ 0 = omega (arith, ltb→le used 20 full) in
      rw (full, ==_ne c newline other, read_line_from used rest line, left, full) refl
]

-- A line is read whole, up to its newline, and its text is its first 20 characters.
pub read_line_lem :
    {cs : List ℕ} (rest : List ℕ)
    → OneLine cs
    → read_line 0 (cs ++ newline ∷ rest) ≡ some (cut 20 cs, rest)
read_line_lem rest line = read_line_from 0 rest line

-- Lines, each with its newline, that are not empty.
pub data Lines : List (List ℕ) → List ℕ → Type 0 where
  last : (rest : List ℕ) → Lines [] (newline ∷ rest)
  line :
      (c : ℕ) {cs : List ℕ} {texts : List (List ℕ)} {input : List ℕ}
      → OneLine (c ∷ cs)
      → Lines texts input
      → Lines (cut 20 (c ∷ cs) ∷ texts) ((c ∷ cs) ++ newline ∷ input)

-- Of an input of lines that are not empty and an empty one behind them, the sender gives the first
-- 20 characters of each line to the queue, in order, and then leaves its loop, once it may read a
-- line more than there are texts.
pub session_lem :
    (lines : ℕ) {texts : List (List ℕ)} {input : List ℕ}
    → Lines texts input
    → length texts < lines
    → session lines input ≡ (texts, true)
unfolding session cut length
session_lem zero ls enough = absurd (omega arith)
session_lem (suc lines) (last rest) enough = rw (session, read_line_lem rest done) refl
session_lem (suc lines) (line c {cs} {texts} {input} one ls) enough =
    rw (session, read_line_lem input one) (rw (session_lem lines ls (omega arith)) refl)
