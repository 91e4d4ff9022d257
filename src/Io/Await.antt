-- ===== src/Io/Await.antt =====
-- include/co_net/io/prep: uring_awaiter.hpp, and the operations built on it. A coroutine that awaits
-- one runs `suspend`, and when it is resumed the check of the result. `local` is the ring of the
-- thread, `caller` the coroutine that awaits and `chain` its promise's `this_chain_task_`.
pub mod Kept
pub mod Results
pub mod Suspend
pub mod Sends
pub mod Operations
pub mod RoundTrip
use co_net.Base.{
  ℕ, Bool, true, false, not, ◌&&◌, ◌++◌, List, [], ◌∷◌, Option, none, some, get_elem?, modify,
  if◌then◌else◌,
}
use co_net.Base.Int.{ℤ, pos, negsuc, is_neg, ◌==ℤ◌}
use co_net.Async.Scheduled.{ScheduledTask, set_awaiting_handle, set_pending}
use co_net.Timer.{Timespec}
use co_net.Io.Token.{Op, CompletionToken, new_token, TaskRef, Coro, Cell, token}
use co_net.Io.Sqe.{Sqe, Span, Prep, Flag, prep, flag, user_data, buf_group}
use co_net.Io.World.{
  Ring, World, Platform, Fault, M, pure, stop, ok, ◌>>=◌, ◌>>◌, get_ring, put_ring, alloc, load,
  store, cast_token,
}
use co_net.Io.Ring.{put_sqe, set_task_pending}

-- An awaiter class with its arguments: the ring it asks for an entry, what its function writes to
-- it, the operation it stores in the token, and what its constructor writes after that.
pub record Awaiter : Type 0 where
  pub on_sys_ring : Bool
  pub call : Prep
  pub op : Op
  pub extra : Sqe

-- `task->set_awaiting_handle(caller)`
unfoldable pub set_task_handle : Coro → Option TaskRef → M (Unit {0})
set_task_handle caller none = stop Fault.null_task
set_task_handle caller (some t) = do
  r ← get_ring t.ring
  elim (get_elem? r.tasks t.index) [
    | none ↦ stop Fault.dangling
    | some _ ↦
        put_ring t.ring (record r { tasks = modify t.index (set_awaiting_handle caller) r.tasks })
  ]

-- `UringAwaiter::await_suspend`; `p` is the address of `token_`.
unfoldable pub await_suspend : ℕ → Coro → Option TaskRef → M (Unit {0})
await_suspend p caller chain = do
  set_task_handle caller chain
  t ← cast_token (← load p)
  store p (token (record t { chain_task = chain }))
  set_task_pending true chain

-- `UringAwaiter::await_resume`
unfoldable pub await_resume : ℕ → M (ℤ × ℤ)
await_resume p = do t ← cast_token (← load p); pure (t.cqe_res, t.cqe_flags)

-- `PendingAwaiter::await_suspend`
unfoldable pub pending_suspend : Coro → Option TaskRef → M (Unit {0})
pending_suspend caller chain = do set_task_handle caller chain; set_task_pending true chain

module _ (lib : Platform) where
  -- The constructor, of the class and of its base; the result is the address of `token_`.
  unfoldable pub construct : ℕ → Awaiter → M ℕ
  construct local a = do
    p ← alloc (token (record new_token { op = a.op }))
    put_sqe lib (if a.on_sys_ring then lib.sys else local) (prep a.call ∷ user_data p ∷ a.extra)
    pure p

  unfoldable pub suspend : ℕ → Awaiter → Coro → Option TaskRef → M ℕ
  suspend local a caller chain = do p ← construct local a; await_suspend p caller chain; pure p

-- What a coroutine makes of its result. `thrown` is a `std::runtime_error`.
pub data Result {ℓ} (A : Type ℓ) : Type ℓ where
  returned : A → Result A
  thrown : Result A

abbrev pub enosys : ℤ
enosys = negsuc 37

abbrev pub enfile : ℤ
enfile = negsuc 22

abbrev pub etime : ℤ
etime = negsuc 61

abbrev pub enobufs : ℤ
enobufs = negsuc 104

unfoldable pub accept_awaiter : ℤ → ℤ → Awaiter
accept_awaiter socket flags = record {
  on_sys_ring = true;
  call = Prep.accept socket flags;
  op = Op.accept;
  extra = [];
}

unfoldable pub prep_accept : ℤ → Result ℤ
prep_accept res = if is_neg res then thrown else returned res

unfoldable pub direct_accept_awaiter : ℤ → Awaiter
direct_accept_awaiter socket = record {
  on_sys_ring = true;
  call = Prep.accept_direct_alloc socket;
  op = Op.accept;
  extra = [];
}

unfoldable pub prep_accept_direct : ℤ → Result ℤ
prep_accept_direct res = if is_neg res then thrown else returned res

unfoldable pub close_awaiter : ℤ → Awaiter
close_awaiter socket = record {
  on_sys_ring = false;
  call = Prep.close socket;
  op = Op.close;
  extra = [];
}

unfoldable pub prep_close_socket : ℤ → Result (Unit {0})
prep_close_socket res = if is_neg res then thrown else returned tt

unfoldable pub direct_close_awaiter : ℤ → Awaiter
direct_close_awaiter socket = record {
  on_sys_ring = false;
  call = Prep.close_direct socket;
  op = Op.async_close_direct;
  extra = [];
}

unfoldable pub prep_close_socket_direct : ℤ → Result (Unit {0})
prep_close_socket_direct res = if is_neg res then thrown else returned tt

unfoldable pub direct_socket_awaiter : ℤ → ℤ → ℤ → ℤ → Awaiter
direct_socket_awaiter domain type protocol flags = record {
  on_sys_ring = false;
  call = Prep.socket_direct_alloc domain type protocol flags;
  op = Op.socket;
  extra = flag Flag.fixed_file ∷ [];
}

unfoldable pub prep_direct_socket : ℤ → Result ℤ
prep_direct_socket res = if is_neg res then thrown else returned res

unfoldable pub socket_awaiter : ℤ → ℤ → ℤ → ℤ → Awaiter
socket_awaiter domain type protocol flags = record {
  on_sys_ring = true;
  call = Prep.socket domain type protocol flags;
  op = Op.socket;
  extra = [];
}

-- Only `-ENFILE` is an error here.
unfoldable pub prep_normal_socket : ℤ → Result ℤ
prep_normal_socket res = if res ==ℤ enfile then thrown else returned res

unfoldable pub read_awaiter : ℤ → Span → Awaiter
read_awaiter socket buffer = record {
  on_sys_ring = false;
  call = Prep.read socket buffer;
  op = Op.receive;
  extra = flag Flag.fixed_file ∷ [];
}

unfoldable pub prep_read : ℤ → Result ℤ
prep_read res = if is_neg res then thrown else returned res

-- `BUFFER_RING_SIZE` bytes at most, into a buffer of group 0.
unfoldable pub recv_ring_buf_awaiter : ℤ → Awaiter
recv_ring_buf_awaiter socket = record {
  on_sys_ring = false;
  call = Prep.recv_select socket 512;
  op = Op.receive;
  extra = buf_group 0 ∷ flag Flag.buffer_select ∷ flag Flag.fixed_file ∷ [];
}

unfoldable pub prep_recv_in_ring_buf : ℤ × ℤ → Result (ℤ × ℤ)
prep_recv_in_ring_buf (res, flags) =
    if is_neg res && not (res ==ℤ enobufs) then thrown else returned (res, flags)

unfoldable pub write_awaiter : ℤ → Span → Awaiter
write_awaiter socket buffer = record {
  on_sys_ring = false;
  call = Prep.write socket buffer.address buffer.size;
  op = Op.send;
  extra = flag Flag.fixed_file ∷ [];
}

-- The overload with a length.
unfoldable pub write_len_awaiter : ℤ → Span → ℕ → Awaiter
write_len_awaiter socket buffer len = record {
  on_sys_ring = false;
  call = Prep.write socket buffer.address len;
  op = Op.send;
  extra = flag Flag.fixed_file ∷ [];
}

unfoldable pub prep_write : ℤ → Result ℤ
prep_write res = if is_neg res then thrown else returned res

unfoldable pub timeout_awaiter : Timespec → ℤ → ℤ → Awaiter
timeout_awaiter ts count flags = record {
  on_sys_ring = false;
  call = Prep.timeout ts count flags;
  op = Op.timeout;
  extra = [];
}

unfoldable pub async_sleep_for : ℤ → Result (Unit {0})
async_sleep_for res = if not (res ==ℤ etime) && not (res ==ℤ pos 0) then thrown else returned tt
