-- ===== src/Io/Await/Results.antt =====
-- What an awaiting coroutine may get back.
use co_net.Base.{◌≡◌, ◌≢◌, ◌⊎◌, true, false, arith}
use co_net.Base.Int.{ℤ, is_neg}
use co_net.Io.Await.{
  Result, returned, thrown, enfile, enobufs, prep_accept, prep_accept_direct, prep_direct_socket,
  prep_read, prep_write, prep_normal_socket, prep_recv_in_ring_buf,
}

-- A negative result is an exception, any other is returned as it is.
abbrev pub IsStrict : (ℤ → Result ℤ) → Type 0
IsStrict check =
    (res : ℤ)
    → ((is_neg res ≡ true) × (check res ≡ thrown))
      ⊎ ((is_neg res ≡ false) × (check res ≡ returned res))

-- What `prep_accept`, `prep_accept_direct`, `prep_direct_socket`, `prep_read` and `prep_write` do
-- with any result: a negative one is thrown, any other is returned as it is.
pub results-IsStrict :
    IsStrict prep_accept
    × IsStrict prep_accept_direct
    × IsStrict prep_direct_socket
    × IsStrict prep_read
    × IsStrict prep_write
unfolding prep_accept prep_accept_direct prep_direct_socket prep_read prep_write
results-IsStrict = (
  λ res. ground arith,
  λ res. ground arith,
  λ res. ground arith,
  λ res. ground arith,
  λ res. ground arith,
)

pub prep_normal_socket-lax :
    (res : ℤ) → is_neg res ≡ true → res ≢ enfile → prep_normal_socket res ≡ returned res
unfolding prep_normal_socket
prep_normal_socket-lax res n h = ground arith

pub prep_recv_in_ring_buf-returned :
    (res flags r f : ℤ)
    → prep_recv_in_ring_buf (res, flags) ≡ returned (r, f)
    → (r ≡ res) × (f ≡ flags) × ((is_neg r ≡ false) ⊎ (r ≡ enobufs))
unfolding prep_recv_in_ring_buf
prep_recv_in_ring_buf-returned res flags r f h = (ground arith, ground arith, ground arith)
