-- ===== src/Io/Await/Operations.antt =====
-- The operations that the program awaits.
use co_net.Base.{ℕ, refl}
use co_net.Base.Int.{ℤ}
use co_net.Timer.{Timespec}
use co_net.Io.Sqe.{Span}
use co_net.Io.Tickets.{tickets, sent, recurs}
use co_net.Io.Await.{
  Awaiter, accept_awaiter, direct_accept_awaiter, close_awaiter, direct_close_awaiter,
  direct_socket_awaiter, socket_awaiter, read_awaiter, recv_ring_buf_awaiter, write_awaiter,
  write_len_awaiter, timeout_awaiter,
}
use co_net.Io.Await.Sends.{IsOneShot}
use co_net.Io.Handler.Wake.{IsAwaited}

pub data IsOperation : Awaiter → Type 0 where
  accept : (socket flags : ℤ) → IsOperation (accept_awaiter socket flags)
  direct_accept : (socket : ℤ) → IsOperation (direct_accept_awaiter socket)
  close : (socket : ℤ) → IsOperation (close_awaiter socket)
  direct_close : (socket : ℤ) → IsOperation (direct_close_awaiter socket)
  direct_socket :
      (domain type protocol flags : ℤ)
      → IsOperation (direct_socket_awaiter domain type protocol flags)
  socket :
      (domain type protocol flags : ℤ) → IsOperation (socket_awaiter domain type protocol flags)
  read : (socket : ℤ) (buffer : Span) → IsOperation (read_awaiter socket buffer)
  recv_ring_buf : (socket : ℤ) → IsOperation (recv_ring_buf_awaiter socket)
  write : (socket : ℤ) (buffer : Span) → IsOperation (write_awaiter socket buffer)
  write_len :
      (socket : ℤ) (buffer : Span) (len : ℕ) → IsOperation (write_len_awaiter socket buffer len)
  timeout : (t : Timespec) (count flags : ℤ) → IsOperation (timeout_awaiter t count flags)

-- Each asks for one completion, which is not the multishot accept's.
pub operation-IsOneShot : (a : Awaiter) → IsOperation a → IsOneShot a
unfolding tickets sent recurs accept_awaiter direct_accept_awaiter close_awaiter
    direct_close_awaiter direct_socket_awaiter socket_awaiter read_awaiter recv_ring_buf_awaiter
    write_awaiter write_len_awaiter timeout_awaiter
operation-IsOneShot _ (accept _ _) = record { once = λ r p. refl; op = λ e. cc }
operation-IsOneShot _ (direct_accept _) = record { once = λ r p. refl; op = λ e. cc }
operation-IsOneShot _ (close _) = record { once = λ r p. refl; op = λ e. cc }
operation-IsOneShot _ (direct_close _) = record { once = λ r p. refl; op = λ e. cc }
operation-IsOneShot _ (direct_socket _ _ _ _) = record { once = λ r p. refl; op = λ e. cc }
operation-IsOneShot _ (socket _ _ _ _) = record { once = λ r p. refl; op = λ e. cc }
operation-IsOneShot _ (read _ _) = record { once = λ r p. refl; op = λ e. cc }
operation-IsOneShot _ (recv_ring_buf _) = record { once = λ r p. refl; op = λ e. cc }
operation-IsOneShot _ (write _ _) = record { once = λ r p. refl; op = λ e. cc }
operation-IsOneShot _ (write_len _ _ _) = record { once = λ r p. refl; op = λ e. cc }
operation-IsOneShot _ (timeout _ _ _) = record { once = λ r p. refl; op = λ e. cc }

-- Its handler writes the result and wakes the task.
pub operation-IsAwaited : (a : Awaiter) → IsOperation a → IsAwaited a.op
unfolding accept_awaiter direct_accept_awaiter close_awaiter direct_close_awaiter
    direct_socket_awaiter socket_awaiter read_awaiter recv_ring_buf_awaiter write_awaiter
    write_len_awaiter timeout_awaiter
operation-IsAwaited _ (accept _ _) = IsAwaited.accept
operation-IsAwaited _ (direct_accept _) = IsAwaited.accept
operation-IsAwaited _ (close _) = IsAwaited.close
operation-IsAwaited _ (direct_close _) = IsAwaited.async_close_direct
operation-IsAwaited _ (direct_socket _ _ _ _) = IsAwaited.socket
operation-IsAwaited _ (socket _ _ _ _) = IsAwaited.socket
operation-IsAwaited _ (read _ _) = IsAwaited.receive
operation-IsAwaited _ (recv_ring_buf _) = IsAwaited.receive
operation-IsAwaited _ (write _ _) = IsAwaited.send
operation-IsAwaited _ (write_len _ _ _) = IsAwaited.send
operation-IsAwaited _ (timeout _ _ _) = IsAwaited.timeout
