-- ===== src/Io/Buffer.antt =====
-- include/co_net/io/buffer.hpp: class RingBuffer, and the receive loop of net/tcp/connection.hpp
-- that uses it. The calls of liburing on a buffer ring are recorded in order; what its set-up
-- answers, and the mask that it gives for a size, are parameters.
pub mod Slices
pub mod Growth
pub mod Pool
use co_net.Base.{
  ℕ, zero, suc, ◌+◌, ◌-◌, ◌*◌, ◌/◌, ◌^◌, ◌%◌, ◌≤◌, Bool, true, false, List, [], ◌∷◌, ◌++◌, Option,
  none, some, ◌==◌, leb, length, take, drop, replicate, if◌then◌else◌,
}
use co_net.Base.Int.{ℤ, pos, negsuc, is_neg, ◌==ℤ◌}
use co_net.Net.Connection.{TcpConnection}
use co_net.Io.Await.{Result, returned, thrown, enobufs, prep_recv_in_ring_buf}

-- config::BUFFER_RING_SIZE and config::N_BUFFERS
abbrev pub buffer_ring_size : ℕ
buffer_ring_size = 512

abbrev pub n_buffers : ℕ
n_buffers = 1024 * 16

pub record Kernel : Type 0 where
  -- Whether `io_uring_setup_buf_ring` succeeds for a number of entries.
  pub sets_up : ℕ → Bool
  pub mask : ℕ → ℤ

-- `add offset len bid mask slot`: the buffer at `buffer_.data() + offset`.
pub data BufCall : Type 0 where
  setup : ℕ → BufCall
  add : ℕ → ℕ → ℕ → ℤ → ℕ → BufCall
  advance : ℕ → BufCall
  free : ℕ → BufCall

-- `br` says whether `br_` is not null.
pub record RingBuffer : Type 0 where
  pub buf_count : ℕ
  pub br : Bool
  pub br_mask : ℤ
  pub buffer : List ℕ
  pub calls : List BufCall

-- Before the constructor's call of `extend_buffer`.
unfoldable pub unset : RingBuffer
unset = record { buf_count = 0; br = false; br_mask = pos 0; buffer = []; calls = [] }

unfoldable pub call : List BufCall → RingBuffer → RingBuffer
call cs b = record b { calls = b.calls ++ cs }

unfoldable pub release : RingBuffer → RingBuffer
unfolding call
release b =
    if b.br
    then record b { br = false; calls = b.calls ++ free (n_buffers * b.buf_count) ∷ [] }
    else b

-- `std::vector::resize`
unfoldable pub resize : ℕ → List ℕ → List ℕ
resize n xs = take n xs ++ replicate (n - length xs) 0

-- The loop that adds the buffers `i`, `i + 1`, … of which `n` are left.
unfoldable pub adds : ℤ → ℕ → ℕ → List BufCall
adds mask i zero = []
adds mask i (suc n) = add (i * buffer_ring_size) buffer_ring_size i mask i ∷ adds mask (suc i) n

-- `none` is the `std::runtime_error`.
unfoldable pub extend_buffer : Kernel → RingBuffer → Option RingBuffer
unfolding release call
extend_buffer kernel b =
    let old = if b.buf_count == 0 then b else release b in
    let count = old.buf_count + 1 in
    let entries = n_buffers * count in
    let mask = kernel.mask entries in
    let set : RingBuffer = record {
      buf_count = count;
      br = kernel.sets_up entries;
      br_mask = mask;
      buffer = resize (entries * buffer_ring_size) old.buffer;
      calls = old.calls ++ setup entries ∷ [];
    } in
    if kernel.sets_up entries
    then some (call (adds mask 0 entries ++ advance entries ∷ []) set)
    else none

-- What is behind the end of the buffer is not defined.
unfoldable pub copy_data : RingBuffer → List ℕ → ℤ → ℕ → Option (List ℕ)
copy_data b output (negsuc _) bytes = none
copy_data b output (pos bid) bytes =
    let offset = bid * buffer_ring_size in
    if leb (offset + bytes) (length b.buffer)
    then some (output ++ take bytes (drop offset b.buffer))
    else none

unfoldable pub repay : ℕ → RingBuffer → RingBuffer
unfolding call
repay bid b =
    call (add (bid * buffer_ring_size) buffer_ring_size bid b.br_mask 0 ∷ advance 1 ∷ []) b

-- `flag >> IORING_CQE_BUFFER_SHIFT` on `int`
unfoldable pub buffer_id : ℤ → ℤ
buffer_id (pos n) = pos (n / 2 ^ 16)
buffer_id (negsuc n) = negsuc (n / 2 ^ 16)

pub data Receive : Type 0 where
  waiting : RingBuffer → Receive
  failed : Receive
  undefined : Receive
  received : ℤ → TcpConnection → RingBuffer → Receive

unfoldable pub take_data : ℤ → ℤ → TcpConnection → RingBuffer → Receive
take_data (negsuc _) bid c b = undefined
take_data (pos n) (negsuc _) c b = undefined
take_data (pos n) (pos bid) c b = elim (copy_data b [] (pos bid) n) [
  | none ↦ undefined
  | some bytes ↦ received (pos n) (record c { receive_buffer = bytes }) (repay bid b)
]

-- The completion of a receive: its result, its flags, and what the kernel has made of the buffers.
pub record Arrival : Type 0 where
  pub res : ℤ
  pub flags : ℤ
  pub memory : List ℕ → List ℕ

-- `ring_buf_receive`, with the completions of the receives that it makes, in order. Where
-- they end before the loop does, it waits for one more.
unfoldable pub ring_buf_receive : Kernel → List Arrival → TcpConnection → RingBuffer → Receive
unfolding take_data
ring_buf_receive kernel [] c b = waiting b
ring_buf_receive kernel (r ∷ rs) c b =
    let now = record b { buffer = r.memory b.buffer } in
    let again : Receive = (elim (extend_buffer kernel now) [
      | none ↦ failed
      | some b' ↦ ring_buf_receive kernel rs c b'
    ]) in
    elim (prep_recv_in_ring_buf (r.res, r.flags)) [
      | thrown ↦ failed
      | returned (res, flag) ↦
          if res ==ℤ enobufs then again else take_data res (buffer_id flag) c now
    ]
