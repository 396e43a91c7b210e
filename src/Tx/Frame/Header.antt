-- ===== src/Tx/Frame/Header.antt =====
-- The header of a frame (sw/tx.c, `encode`): its fields can be read back.
use adi_bbp.Common.{◌+◌, ◌*◌, ◌/◌, ◌%◌, ◌^◌, ◌≡◌, arith}
use adi_bbp.Common.Bits.{
  and_0x01, and_0x03, and_0x0f, and_0x1f, and_0x1e, and_0x1c, and_0x10, bit_or-add,
}
use adi_bbp.Common.Double.{Double}
use adi_bbp.Tx.Frame.{TxInfo, header}

module _ (d : Double) (info : TxInfo d) where
  first_byte : header d info 0 ≡ info.src % 32 * 8 + info.dst / 4 % 8
  unfolding header
  first_byte =
      rw
        (
          and_0x1f info.src,
          and_0x1c info.dst,
          bit_or-add 3 (info.src % 32) (info.dst / 4 % 8 * 4 / 4) (omega arith),
        )
        (omega arith)

  second_byte : header d info 1 ≡ info.dst % 4 * 64 + info.r0 % 32 * 2 + info.r1 / 16 % 2
  unfolding header
  second_byte =
      rw
        (
          and_0x03 info.dst,
          and_0x1f info.r0,
          and_0x10 info.r1,
          bit_or-add 1 (info.r0 % 32) (info.r1 / 16 % 2 * 16 / 16) (omega arith),
          bit_or-add 6 (info.dst % 4) (info.r0 % 32 * 2 ^ 1 + info.r1 / 16 % 2 * 16 / 16)
              (omega arith),
        )
        (omega arith)

  third_byte : header d info 2 ≡ info.r1 % 16 * 16 + info.r2 / 2 % 16
  unfolding header
  third_byte =
      rw
        (
          and_0x0f info.r1,
          and_0x1e info.r2,
          bit_or-add 4 (info.r1 % 16) (info.r2 / 2 % 16 * 2 / 2) (omega arith),
        )
        (omega arith)

  fourth_byte : header d info 3 ≡ info.r2 % 2 * 128
  unfolding header
  fourth_byte = rw (and_0x01 info.r2) (omega arith)

  -- From the four bytes of the header the low five bits of each of the five fields can be read
  -- back, and the seven low bits of the last byte are 0.
  pub header_lem :
      (header d info 0 / 8 ≡ info.src % 32)
      × (header d info 0 % 8 * 4 + header d info 1 / 64 ≡ info.dst % 32)
      × (header d info 1 / 2 % 32 ≡ info.r0 % 32)
      × (header d info 1 % 2 * 16 + header d info 2 / 16 ≡ info.r1 % 32)
      × (header d info 2 % 16 * 2 + header d info 3 / 128 ≡ info.r2 % 32)
      × (header d info 3 % 128 ≡ 0)
  header_lem = omega (arith, first_byte, second_byte, third_byte, fourth_byte)
