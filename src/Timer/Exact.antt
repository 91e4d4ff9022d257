-- ===== src/Timer/Exact.antt =====
-- The literals of timer.hpp lose nothing.
use co_net.Base.{ℕ, ◌+◌, ◌*◌, ◌/◌, ◌%◌, ◌^◌, ◌<◌, ◌≡◌, refl, arith}
use co_net.Base.Int.{pos}
use co_net.Timer.{Timespec, from_s, from_ms, from_us, from_ns}

-- A normalised duration of `total` nanoseconds.
pub data Lasts (total : ℕ) (t : Timespec) : Type 0 where
  lasts :
      (sec nsec : ℕ)
      → t.tv_sec ≡ pos sec
      → t.tv_nsec ≡ pos nsec
      → nsec < 10 ^ 9
      → sec * 10 ^ 9 + nsec ≡ total
      → Lasts total t

-- The literals keep the whole duration: `_s` of a number below 2 ^ 63 and `_ms`, `_us` and `_ns` of
-- every 64-bit number give a normalised timespec that lasts exactly that many units.
pub literals-Lasts :
    (n : ℕ)
    → n < 2 ^ 64
    → (n < 2 ^ 63 → Lasts (n * 10 ^ 9) (from_s n))
      × Lasts (n * 10 ^ 6) (from_ms n)
      × Lasts (n * 10 ^ 3) (from_us n)
      × Lasts n (from_ns n)
unfolding from_s from_ms from_us from_ns
literals-Lasts n h = (
  λ k. lasts n 0 (ground arith) refl (omega arith) (omega arith),
  lasts (n / 1000) (n % 1000 * 1_000_000) (ground arith) (ground arith) (omega arith) (omega arith),
  lasts (n / 1_000_000) (n % 1_000_000 * 1000) (ground arith) (ground arith) (omega arith)
      (omega arith),
  lasts (n / 1_000_000_000) (n % 1_000_000_000) (ground arith) (ground arith) (omega arith)
      (omega arith),
)
