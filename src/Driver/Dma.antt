-- ===== src/Driver/Dma.antt =====
-- The lengths and times of a transfer in boot/baseband/baseband.c. `size_t`, `u32` and
-- `unsigned long` have 32 bits on the ARM target, `u64` has 64.
pub mod Laws
use adi_bbp.Common.{ℕ, ◌+◌, ◌-◌, ◌*◌, ◌/◌, ◌%◌, ◌^◌}

-- `estimate_max_time(size)`, in nanoseconds.
unfoldable pub estimate_max_time : ℕ → ℕ
estimate_max_time size =
    let words = size / 2 ^ 2 in
    let nseconds = (words * 200 * 2) % 2 ^ 64 in (nseconds + 5_000_000_000) % 2 ^ 64

-- `((size + 3) >> 2) - 1`, as it is written to a DMA length register.
unfoldable pub dma_length : ℕ → ℕ
dma_length size = ((size + 3) % 2 ^ 32 / 2 ^ 2 + 2 ^ 32 - 1) % 2 ^ 32

-- The `u64` difference of two `struct timespec`s in the polling loop of `baseband_read`.
unfoldable pub elapsed : ℕ × ℕ → ℕ × ℕ → ℕ
elapsed (init_sec, init_nsec) (sec, nsec) =
    let sec_diff = (sec + 2 ^ 64 - init_sec) % 2 ^ 64 in
    let nsec_diff = (nsec + 2 ^ 64 - init_nsec) % 2 ^ 64 in
    (nsec_diff + sec_diff * 1_000_000_000 % 2 ^ 64) % 2 ^ 64
