-- ===== src/Io/Buffer/Slices.antt =====
-- The buffers are slices of one array, and a receive copies out the slice that the kernel names.
use co_net.Base.{
  ◌⊎◌, inl, inr, Option-cases, ℕ, zero, ◌+◌, ◌-◌, ◌*◌, ◌^◌, ◌≤◌, ◌<◌, ◌≡◌, ◌∙◌, refl, ap, true,
  false, List, [], ◌∷◌, ◌++◌, none, some, arith, length, length-append, length-take, take-all,
  length-drop, length-replicate, take, drop, replicate,
}
use native.Mathlib.Decide.{dec_le}
use co_net.Base.Int.{pos, signed}
use co_net.Net.Connection.{TcpConnection}
use co_net.Io.Await.{prep_recv_in_ring_buf}
use co_net.Io.Buffer.{
  Kernel, RingBuffer, buffer_ring_size, n_buffers, resize, extend_buffer, copy_data, repay,
  buffer_id, take_data, Arrival, ring_buf_receive, received, call, release,
}

-- A buffer ring that is set up: its array holds `n_buffers * buf_count` buffers.
pub record IsSetUp (b : RingBuffer) : Type 0 where
  pub linked : b.br ≡ true
  pub size : length b.buffer ≡ n_buffers * b.buf_count * buffer_ring_size

length-resize : (n : ℕ) (xs : List ℕ) → length (resize n xs) ≡ n
unfolding resize
length-resize n xs =
    length-append (take n xs) (replicate (n - length xs) 0) ∙ elim (dec_le n (length xs)) [
      | yes p ↦ omega (arith, length-take n xs p, length-replicate (n - length xs) (zero))
      | no p ↦
          omega (
            arith,
            ap length (take-all n xs (omega arith)),
            length-replicate (n - length xs) (zero),
          )
    ]

-- `b'` is `b` with one more round of `n_buffers`.
pub record Extended (b b' : RingBuffer) : Type 0 where
  pub set_up : IsSetUp b'
  pub count : b'.buf_count ≡ b.buf_count + 1
  pub bytes : b'.buffer ≡ resize (n_buffers * (b.buf_count + 1) * buffer_ring_size) b.buffer

pub extend_buffer-Extended :
    (kernel : Kernel) (b b' : RingBuffer) → extend_buffer kernel b ≡ some b' → Extended b b'
unfolding extend_buffer call release
extend_buffer-Extended kernel b b' e = record {
  set_up = record {
    linked = ground arith;
    size =
        ground (arith, length-resize (n_buffers * (b.buf_count + 1) * buffer_ring_size) b.buffer);
  };
  count = ground arith;
  bytes = ground arith;
}

extend_buffer-fails :
    (kernel : Kernel) (b : RingBuffer)
    → extend_buffer kernel b ≡ none
    → kernel.sets_up (n_buffers * (b.buf_count + 1)) ≡ false
unfolding extend_buffer call release
extend_buffer-fails kernel b e = ground arith

-- An extension either succeeds, or fails because the kernel sets up no ring of one more round of
-- `n_buffers` entries. When it succeeds the array holds as many buffers as the ring has entries, it
-- is the old array resized, and one more round is counted.
pub extend_buffer-IsSetUp :
    (kernel : Kernel) (b : RingBuffer)
    → ((b' : RingBuffer) × (extend_buffer kernel b ≡ some b') × Extended b b')
      ⊎ ((extend_buffer kernel b ≡ none) × (kernel.sets_up (n_buffers * (b.buf_count + 1)) ≡ false))
extend_buffer-IsSetUp kernel b = elim (Option-cases (extend_buffer kernel b)) [
  | inl e ↦ inr (e, extend_buffer-fails kernel b e)
  | inr (b', e) ↦ inl (b', e, extend_buffer-Extended kernel b b' e)
]

-- The buffer's number that the kernel reports in the upper half of the flags, below 2 ^ 15,
-- survives the conversion of the flags to `int`, whatever the lower half is.
pub buffer_id-signed :
    (bid low : ℕ)
    → bid < 2 ^ 15
    → low < 2 ^ 16
    → buffer_id (signed 32 (bid * 2 ^ 16 + low)) ≡ pos bid
unfolding buffer_id
buffer_id-signed bid low h l = ground arith

module _ (b : RingBuffer) (v : IsSetUp b) (bid n : ℕ) (known : bid < n_buffers * b.buf_count)
    (fits : n ≤ buffer_ring_size) where
  abbrev pub slice : List ℕ
  slice = take n (drop (bid * buffer_ring_size) b.buffer)

  in_range : bid * buffer_ring_size + n ≤ length b.buffer
  in_range = omega (arith, v.size)

  pub copy_data-slice :
      (output : List ℕ)
      → (copy_data b output (pos bid) n ≡ some (output ++ slice)) × (length slice ≡ n)
  unfolding copy_data
  copy_data-slice output = (
    ground (arith, in_range),
    length-take n (drop (bid * buffer_ring_size) b.buffer)
        (omega (arith, in_range, length-drop (bid * buffer_ring_size) b.buffer)),
  )

  take_data-slice :
      (c : TcpConnection)
      → take_data (pos n) (pos bid) c b
        ≡ received (pos n) (record c { receive_buffer = slice }) (repay bid b)
  unfolding take_data
  take_data-slice c = rw ((copy_data-slice []).0, take_data) refl

-- A receive that brings `n` bytes in buffer `bid`: the connection holds those bytes and the buffer is
-- given back.
module _ (kernel : Kernel) (c : TcpConnection) (a : Arrival) (rest : List Arrival) (bid low n : ℕ)
    (res : a.res ≡ pos n) (flags : a.flags ≡ signed 32 (bid * 2 ^ 16 + low))
    (id_fits : bid < 2 ^ 15) (low_fits : low < 2 ^ 16) (fits : n ≤ buffer_ring_size)
    (b : RingBuffer) where
  abbrev pub filled : RingBuffer
  filled = record b { buffer = a.memory b.buffer }

  -- A receive whose first completion brings `n` bytes, at most the size of a buffer, and names the
  -- buffer `bid` in the upper half of its flags, a buffer of the ring that is set up and below 2 ^
  -- 15: the connection's receive buffer becomes those `n` bytes of that buffer as the kernel left
  -- it, and the buffer is given back to the ring.
  pub ring_buf_receive-received :
      (v : IsSetUp filled) (known : bid < n_buffers * b.buf_count)
      → ring_buf_receive kernel (a ∷ rest) c b
        ≡ received
            (pos n)
            (record c {
              receive_buffer = take n (drop (bid * buffer_ring_size) (a.memory b.buffer));
            })
            (repay bid filled)
  unfolding ring_buf_receive take_data prep_recv_in_ring_buf
  ring_buf_receive-received v known =
      rw (res, flags, buffer_id-signed bid low id_fits low_fits)
        (take_data-slice filled v bid n known fits c)
