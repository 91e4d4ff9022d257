-- ===== src/Io/Stream.antt =====
-- include/co_net/net/tcp/connection.hpp: reading, writing and sleeping on a connection, by what it
-- awaits and the check of the result.
use co_net.Base.{ℕ}
use co_net.Base.Int.{ℤ, pos}
use co_net.Timer.{Timespec}
use co_net.Net.Connection.{TcpConnection}
use co_net.Io.Sqe.{Span}
use co_net.Io.Await.{
  Awaiter, Result, read_awaiter, prep_read, write_awaiter, write_len_awaiter, prep_write,
  timeout_awaiter, async_sleep_for,
}

unfoldable pub read_some : TcpConnection → Span → Awaiter × (ℤ → Result ℤ)
read_some c buf = (read_awaiter c.socket buf, prep_read)

unfoldable pub write_some : TcpConnection → Span → ℕ → Awaiter × (ℤ → Result ℤ)
write_some c buf len = (write_len_awaiter c.socket buf len, prep_write)

unfoldable pub write_all : TcpConnection → Span → Awaiter × (ℤ → Result ℤ)
write_all c buf = (write_awaiter c.socket buf, prep_write)

-- IORING_TIMEOUT_REALTIME | IORING_TIMEOUT_ETIME_SUCCESS, the default of `async_sleep_for`.
abbrev timeout_flags : ℤ
timeout_flags = pos 40

unfoldable pub sleep : TcpConnection → Timespec → Awaiter × (ℤ → Result (Unit {0}))
sleep c tm = (timeout_awaiter tm (pos 1) timeout_flags, async_sleep_for)
