-- ===== src/Tx/Tests.antt =====
-- The theorems on sw/tx.c at small inputs: numbers for doubles, and the identity for the Fourier
-- transform.
use adi_bbp.Common.{
  false, ℕ, zero, suc, ◌+◌, ◌-◌, ◌*◌, ◌/◌, ◌%◌, ◌^◌, ◌≤◌, ◌<◌, ◌≡◌, refl, some, ltb, if◌then◌else◌,
  arith,
}
use adi_bbp.Common.Double.Numbers.{numbers}
use adi_bbp.Tx.Memory.{Array}
use adi_bbp.Tx.Coder.{cc_encode_tb}
use adi_bbp.Tx.Coder.Bits.{byte_of}
use adi_bbp.Tx.Coder.Laws.{code, cc_encode_tb_lem}
use adi_bbp.Tx.Coder.PastEnd.{cc_encode_tb_past_end}
use adi_bbp.Tx.Samples.{
  Fft, sample, double_to_packed_fixed, tf64_to_packed_160, double_to_fixed_with_cp,
}
use adi_bbp.Tx.Samples.Packing.{double_to_packed_fixed_lem, tf64_to_packed_160_lem}
use adi_bbp.Tx.Samples.Prefix.{double_to_fixed_with_cp_lem}
use adi_bbp.Tx.Mapping.{PilotTone, modulate, add_pilots}
use adi_bbp.Tx.Mapping.Pilots.{real_at, imag_at}
use adi_bbp.Tx.Mapping.Pilots.Rounds.{add_pilots_lem}
use adi_bbp.Tx.Mapping.Laws.{Carries, modulate_lem}
use adi_bbp.Tx.Frame.{TxInfo, Stack, header, encode}
use adi_bbp.Tx.Frame.Header.{header_lem}
use adi_bbp.Tx.Frame.Samples.{encode_lem, encode-same}

abbrev identity : Fft numbers
identity = record { Work = ℕ; fresh = 0; cdft = λ n inverse base s. s }

-- The message, and the constraints 1 and 3.
abbrev message : Array ℕ
message j = j % 2 ^ 8

abbrev constraints : Array ℕ
constraints zero = 1
constraints (suc j) = 3

abbrev zeros : Array ℕ
zeros j = 0

abbrev info : TxInfo numbers
info = record {
  src = 3;
  dst = 17;
  time = 0;
  r0 = 1;
  r1 = 20;
  r2 = 9;
  cc_length = 2;
  cc_constr = constraints;
  num_pilots = 1;
  pilots = λ j. record { pos = 5; real = 1; imag = 0 };
}

abbrev stack : Stack numbers
stack = record { encoded = zeros; modulated = zeros; mapped = zeros; behind = 0 }

cc_encode_tb_lem_example :
    (out' : Array ℕ) × (cc_encode_tb message constraints 2 24 zeros ≡ some out')
    × ((j : ℕ) → j < 48 → out' j ≡ byte_of (code message constraints 2 24) (8 * j))
    × ((j : ℕ) → 48 ≤ j → out' j ≡ zeros j)
cc_encode_tb_lem_example = cc_encode_tb_lem message constraints 2 24 zeros (omega arith)

cc_encode_tb_past_end_example :
    (out' : Array ℕ) × (cc_encode_tb message constraints 2 24 zeros ≡ some out')
    × (out' 47 / 64 % 2 ≡ 0)
cc_encode_tb_past_end_example =
    cc_encode_tb_past_end message constraints 24 (omega arith) refl zeros

double_to_packed_fixed_lem_example :
    (double_to_packed_fixed numbers 1 2 / 2 ^ 16 ≡ 32768)
    × (double_to_packed_fixed numbers 1 2 % 2 ^ 16 ≡ 0)
    × (double_to_packed_fixed numbers 1 2 < 2 ^ 32)
double_to_packed_fixed_lem_example = double_to_packed_fixed_lem numbers 1 2

tf64_to_packed_160_lem_example :
    tf64_to_packed_160 numbers identity message zeros 32 70 ≡ sample numbers message 38
tf64_to_packed_160_lem_example = tf64_to_packed_160_lem numbers identity message zeros 32 70

double_to_fixed_with_cp_lem_example :
    ((s j : ℕ)
      → s < 3
      → j < 74
      → double_to_fixed_with_cp numbers message 64 3 10 zeros (s * 74 + j)
        ≡ sample numbers message (s * 64 + (if ltb j 10 then 64 - 10 + j else j - 10)))
    × ((i : ℕ) → 3 * 74 ≤ i → double_to_fixed_with_cp numbers message 64 3 10 zeros i ≡ zeros i)
double_to_fixed_with_cp_lem_example =
    double_to_fixed_with_cp_lem numbers message 64 10 (omega arith) 3 zeros

modulate_lem_example :
    ((k : ℕ) → k < 192 → Carries numbers message (modulate numbers message 48 zeros) k)
    × ((x : ℕ) → 384 ≤ x → modulate numbers message 48 zeros x ≡ zeros x)
modulate_lem_example = modulate_lem numbers message 48 zeros

header_lem_example :
    (header numbers info 0 / 8 ≡ 3)
    × (header numbers info 0 % 8 * 4 + header numbers info 1 / 64 ≡ 17)
    × (header numbers info 1 / 2 % 32 ≡ 1)
    × (header numbers info 1 % 2 * 16 + header numbers info 2 / 16 ≡ 20)
    × (header numbers info 2 % 16 * 2 + header numbers info 3 / 128 ≡ 9)
    × (header numbers info 3 % 128 ≡ 0)
header_lem_example = header_lem numbers info

encode_lem_example :
    (out : Array ℕ) × (encode numbers identity stack message zeros info ≡ some (out, false))
    × ((s j : ℕ) → s < 3 → j < 10 → out (s * 74 + j) ≡ out (s * 74 + 64 + j))
    × ((i : ℕ) → 222 ≤ i → out i ≡ zeros i)
encode_lem_example = encode_lem numbers identity stack message zeros info (omega arith)

encode-same_example :
    encode numbers identity stack message zeros info
    ≡ encode numbers identity stack zeros zeros (record info { src = 9; cc_length = 7 })
encode-same_example =
    encode-same numbers identity stack message zeros zeros info
      (record info { src = 9; cc_length = 7 }) (omega arith) (omega arith) refl refl

abbrev two_pilots : Array (PilotTone numbers)
two_pilots zero = record { pos = 5; real = 1; imag = 2 }
two_pilots (suc j) = record { pos = 20; real = 3; imag = 4 }

two_pilots-inside : (j : ℕ) → j < 2 → (two_pilots j).pos < 64
two_pilots-inside zero h = omega arith
two_pilots-inside (suc j) h = omega arith

two_pilots-increasing : (i j : ℕ) → i < j → j < 2 → (two_pilots i).pos < (two_pilots j).pos
two_pilots-increasing i zero h k = absurd (omega arith)
two_pilots-increasing zero (suc j) h k = omega arith
two_pilots-increasing (suc i) (suc j) h k = absurd (omega arith)

add_pilots_lem_example :
    ((add_pilots numbers message 192 64 2 two_pilots 216 zeros).0 ≡ 216)
    × ((k : ℕ)
        → k < 216
        → ((add_pilots numbers message 192 64 2 two_pilots 216 zeros).1 (k * 2)
            ≡ real_at numbers two_pilots 2 64 message 192 k)
          × ((add_pilots numbers message 192 64 2 two_pilots 216 zeros).1 (k * 2 + 1)
              ≡ imag_at numbers two_pilots 2 64 message 192 k))
    × ((x : ℕ) → 432 ≤ x → (add_pilots numbers message 192 64 2 two_pilots 216 zeros).1 x ≡ zeros x)
add_pilots_lem_example =
    add_pilots_lem numbers two_pilots 2 64 (omega arith) two_pilots-inside two_pilots-increasing
      message 192 216 zeros
