-- ===== src/Driver/Dma/Laws.antt =====
-- Bounds of the lengths and times of a transfer (boot/baseband/baseband.c).
use adi_bbp.Common.{ℕ, ◌+◌, ◌-◌, ◌*◌, ◌/◌, ◌^◌, ◌≤◌, ◌<◌, ◌≡◌, arith}
use adi_bbp.Driver.Dma.{estimate_max_time, dma_length, elapsed}

-- For a size from 1 to 2 ^ 32 - 4 the DMA is given the least number of words, less one, that
-- holds the size.
pub dma_length-covers :
    (size : ℕ)
    → 0 < size
    → size + 3 < 2 ^ 32
    → (size ≤ 4 * (dma_length size + 1)) × (4 * dma_length size < size)
unfolding dma_length
dma_length-covers size pos fits = (omega arith, omega arith)

pub dma_length_zero : dma_length 0 ≡ 2 ^ 32 - 1
unfolding dma_length
dma_length_zero = omega arith

-- For a 32-bit size the time limit does not wrap: it is five seconds and 400 ns for each word.
pub estimate_max_time_bounds :
    (size : ℕ) → size < 2 ^ 32 → estimate_max_time size ≡ 5_000_000_000 + 400 * (size / 4)
unfolding estimate_max_time
estimate_max_time_bounds size h = omega arith

abbrev pub nanoseconds : ℕ × ℕ → ℕ
nanoseconds (sec, nsec) = sec * 1_000_000_000 + nsec

-- The wrapped differences add up to the time that has passed, if that is below 2 ^ 64 ns, also
-- when the nanoseconds of the later time are below those of the earlier one.
pub elapsed_lem :
    (s n s' n' : ℕ)
    → n < 1_000_000_000
    → n' < 1_000_000_000
    → nanoseconds (s, n) ≤ nanoseconds (s', n')
    → nanoseconds (s', n') < nanoseconds (s, n) + 2 ^ 64
    → elapsed (s, n) (s', n') + nanoseconds (s, n) ≡ nanoseconds (s', n')
unfolding elapsed
elapsed_lem s n s' n' hn hn' le fits = omega arith
