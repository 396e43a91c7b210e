-- ===== src/Driver/Regs.antt =====
-- The register map and the ioctl numbers of boot/baseband/baseband.c, as byte offsets from the
-- mapped base and as the command values that `baseband_ioctl` switches on.
use adi_bbp.Common.{ℕ, ◌+◌, ◌*◌, ◌^◌}

-- `n << ADDRESS_SHIFT`: the registers are 32-bit words.
abbrev pub word : ℕ → ℕ
word n = n * 2 ^ 2

abbrev pub dma_en : ℕ
dma_en = 0x0 + word 0x0

abbrev pub dma_idle : ℕ
dma_idle = 0x0 + word 0x1

abbrev pub dma_s2m_base : ℕ
dma_s2m_base = 0x0 + word 0x4

abbrev pub dma_s2m_length : ℕ
dma_s2m_length = 0x0 + word 0x5

abbrev pub dma_s2m_wgo_rremaining : ℕ
dma_s2m_wgo_rremaining = 0x0 + word 0x8

abbrev pub dma_m2s_base : ℕ
dma_m2s_base = 0x0 + word 0x9

abbrev pub dma_m2s_length : ℕ
dma_m2s_length = 0x0 + word 0xa

abbrev pub dma_m2s_cycles : ℕ
dma_m2s_cycles = 0x0 + word 0xb

abbrev pub dma_m2s_wgo_rremaining : ℕ
dma_m2s_wgo_rremaining = 0x0 + word 0xd

abbrev pub stream_aligner_en : ℕ
stream_aligner_en = 0x100 + word 0x0

abbrev pub stream_aligner_aligned : ℕ
stream_aligner_aligned = 0x100 + word 0x1

abbrev pub stream_aligner_cnt : ℕ
stream_aligner_cnt = 0x100 + word 0x2

abbrev pub stream_aligner_maxcnt : ℕ
stream_aligner_maxcnt = 0x100 + word 0x3

abbrev pub stream_aligner_cntpassthrough : ℕ
stream_aligner_cntpassthrough = 0x100 + word 0x4

abbrev pub skid_en : ℕ
skid_en = 0x200 + word 0x0

abbrev pub skid_count : ℕ
skid_count = 0x200 + word 0x2

abbrev pub skid_overflowed : ℕ
skid_overflowed = 0x200 + word 0x3

abbrev pub skid_drain_when_disabled : ℕ
skid_drain_when_disabled = 0x200 + word 0x5

abbrev pub stream_out_sel : ℕ
stream_out_sel = 0x300 + word 0x0

abbrev pub time_rx_base : ℕ
time_rx_base = 0x400

abbrev pub splitter_bb_sel : ℕ
splitter_bb_sel = 0x900 + word 0x0

abbrev pub splitter_bypass_sel : ℕ
splitter_bypass_sel = 0x900 + word 0x1

abbrev pub enable_tx : ℕ
enable_tx = 0xa00

abbrev pub ram_base : ℕ
ram_base = 0x4000

-- The ioctl numbers.

abbrev pub ioctl_stream_aligner_maxcnt : ℕ
ioctl_stream_aligner_maxcnt = 0

abbrev pub ioctl_stream_aligner_aligned : ℕ
ioctl_stream_aligner_aligned = 1

abbrev pub ioctl_stream_aligner_cnt : ℕ
ioctl_stream_aligner_cnt = 2

abbrev pub ioctl_stream_aligner_cntpassthrough : ℕ
ioctl_stream_aligner_cntpassthrough = 3

abbrev pub ioctl_stream_aligner_en : ℕ
ioctl_stream_aligner_en = 4

abbrev pub ioctl_skid_overflowed : ℕ
ioctl_skid_overflowed = 5

abbrev pub ioctl_skid_set_overflow : ℕ
ioctl_skid_set_overflow = 6

abbrev pub ioctl_dma_set_cycle : ℕ
ioctl_dma_set_cycle = 7

abbrev pub ioctl_scratch_read : ℕ
ioctl_scratch_read = 8

abbrev pub ioctl_scratch_write : ℕ
ioctl_scratch_write = 9

abbrev pub ioctl_dma_scratch_tx : ℕ
ioctl_dma_scratch_tx = 10

abbrev pub ioctl_stream_out_sel : ℕ
ioctl_stream_out_sel = 11

abbrev pub ioctl_tx_enable : ℕ
ioctl_tx_enable = 12

abbrev pub ioctl_rx_conf : ℕ
ioctl_rx_conf = 13

abbrev pub ioctl_test_plus_one : ℕ
ioctl_test_plus_one = 14

abbrev pub ioctl_rx_use_baseband : ℕ
ioctl_rx_use_baseband = 15
