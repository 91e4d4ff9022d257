-- ===== src/Io/Buffer/Growth.antt =====
-- How often the buffer ring can grow.
use co_net.Base.{ℕ, ◌+◌, ◌*◌, ◌≤◌, ◌<◌, ◌≡◌, refl, false, List, ◌∷◌, none, arith}
use co_net.Net.Connection.{TcpConnection}
use co_net.Io.Await.{enobufs, prep_recv_in_ring_buf}
use co_net.Io.Buffer.{
  Kernel, RingBuffer, n_buffers, extend_buffer, Arrival, failed, ring_buf_receive, call, release,
}

-- The kernel takes no buffer ring of more than 2 ^ 15 entries.
module _ (kernel : Kernel) (limit : (n : ℕ) → 32768 < n → kernel.sets_up n ≡ false) where
  pub extend_buffer-none : (b : RingBuffer) → 2 ≤ b.buf_count → extend_buffer kernel b ≡ none
  unfolding extend_buffer call release
  extend_buffer-none b h = ground (arith, limit (n_buffers * (b.buf_count + 1)))

  -- Where the kernel sets up no buffer ring of more than 2 ^ 15 entries, a receive that is short of
  -- buffers when there are two rounds of them or more fails, whatever would come after it.
  pub ring_buf_receive-failed :
      (a : Arrival) (rest : List Arrival) (c : TcpConnection) (b : RingBuffer)
      → a.res ≡ enobufs
      → 2 ≤ b.buf_count
      → ring_buf_receive kernel (a ∷ rest) c b ≡ failed
  unfolding ring_buf_receive prep_recv_in_ring_buf
  ring_buf_receive-failed a rest c b e h =
      rw (e, extend_buffer-none (record b { buffer = a.memory b.buffer }) h) refl
