-- ===== src/Timer.antt =====
-- include/co_net/timer/timer.hpp: the duration literals, as seconds and nanoseconds. An
-- `unsigned long long` is a number below 2 ^ 64, and its conversion to `long long` wraps.
pub mod Exact
mod Tests
use co_net.Base.{ℕ, ◌-◌, ◌*◌, ◌/◌, ◌%◌, ◌^◌}
use co_net.Base.Int.{ℤ, pos, signed}

-- `__kernel_timespec`
pub record Timespec : Type 0 where
  pub tv_sec : ℤ
  pub tv_nsec : ℤ

abbrev ull : ℕ → ℕ
ull n = n % 2 ^ 64

abbrev long : ℕ → ℤ
long n = signed 64 n

pub from_s : ℕ → Timespec
from_s second = record { tv_sec = long second; tv_nsec = pos 0 }

-- The body that `_ms`, `_us` and `_ns` share: `per` units make a second, each `scale` nanoseconds.
unfoldable split : ℕ → ℕ → ℕ → Timespec
split per scale n =
    let sec = n / per in
    let rest = ull (n - sec * per) in
    record { tv_sec = long sec; tv_nsec = long (ull (rest * scale)) }

pub from_ms : ℕ → Timespec
unfolding split
from_ms ms = split 1000 1_000_000 ms

pub from_us : ℕ → Timespec
unfolding split
from_us us = split 1_000_000 1000 us

pub from_ns : ℕ → Timespec
unfolding split
from_ns ns = split 1_000_000_000 1 ns
