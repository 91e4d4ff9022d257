-- ===== src/Timer/Tests.antt =====
-- Runs of the duration literals.
use co_net.Base.{refl, ◌≡◌}
use co_net.Base.Int.{pos}
use co_net.Timer.{from_ms}

interval : from_ms 1015 ≡ record { tv_sec = pos 1; tv_nsec = pos 15_000_000 }
unfolding from_ms
interval = refl
