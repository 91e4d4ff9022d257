-- ===== src/Context/Spawn.antt =====
-- include/co_net/context/context.hpp: the functions that hand work to the loops, and the end of the
-- main loop. `local` is the ring of the calling thread. An exception that is thrown before anything
-- has changed stops the run with `logic_error`.
pub mod Kept
pub mod Multishot
pub mod Delivery
pub mod TaskDelivery
pub mod Notified
pub mod Terminate
pub mod Sends
pub mod Accepts
use co_net.Base.{ℕ, Bool, true, false, not, List, [], ◌∷◌, Option, none, some, ◌==◌, if◌then◌else◌}
use co_net.Base.Int.{ℤ, pos}
use co_net.Net.Connection.{TcpConnection, release}
use co_net.Io.Token.{
  Op, new_token, Coro, token, task_msg, conn_msg, macc_msg, Func, RingMsgType, to_int,
}
use co_net.Io.Sqe.{Sqe, Cqe, Prep, Flag, prep, flag, user_data, f_task}
use co_net.Io.World.{
  Ring, World, Platform, Fault, M, ok, pure, stop, ◌>>=◌, ◌>>◌, get_ring, put_ring, alloc,
}
use co_net.Io.Ring.{enqueue, put_sqe, submit_all, notify_workers_to_stop, notify_self_quit}
use co_net.Io.Handler.{process_all}
use co_net.Context.Workers.{pick_worker, get_worker_ids, request_stop}

-- `co_spawn`
unfoldable pub co_spawn : ℕ → Coro → M (Unit {0})
co_spawn local c = enqueue local c

-- The two entries that send a connection.
abbrev pub linked_fd_entry : ℕ → ℤ → ℕ → ℕ → Sqe
linked_fd_entry worker fd receiver sender =
    prep (Prep.msg_ring_fd_alloc worker fd receiver) ∷ user_data sender ∷ flag Flag.io_link ∷ []

abbrev pub func_entry : ℕ → ℕ → Sqe
func_entry worker helper =
    prep (Prep.msg_ring_cqe_flags worker (to_int RingMsgType.ring_func_task) helper f_task)
    ∷ flag Flag.cqe_skip_success
    ∷ []

-- The three entries of one round.
abbrev pub fd_entry : ℕ → ℤ → ℕ → Sqe
fd_entry worker fd receiver =
    prep (Prep.msg_ring_fd_alloc worker fd receiver)
    ∷ flag Flag.cqe_skip_success
    ∷ flag Flag.io_link
    ∷ []

abbrev pub task_entry : ℕ → ℕ → Sqe
task_entry worker task_token =
    prep (Prep.msg_ring_cqe_flags worker (to_int RingMsgType.multi_acc_task) task_token f_task)
    ∷ flag Flag.cqe_skip_success
    ∷ flag Flag.io_link
    ∷ []

abbrev pub close_entry : ℤ → Sqe
close_entry fd = prep (Prep.close_direct fd) ∷ flag Flag.cqe_skip_success ∷ []

module _ (lib : Platform) where
  unfoldable pub check_main : ℕ → M (Unit {0})
  check_main local = if lib.sys == local then pure tt else stop Fault.logic_error

  abbrev released : Option TcpConnection → M TcpConnection
  released none = stop Fault.logic_error
  released (some c) = pure c

  -- `parallel_spawn` with a connection, which is left as the caller's variable has it. `task` is
  -- the callable with its other arguments bound.
  unfoldable pub parallel_spawn_conn : ℕ → ℕ → TcpConnection → M TcpConnection
  parallel_spawn_conn local task conn = do
    check_main local
    conn' ← released (release conn)
    let fd = conn'.socket
    worker ← pick_worker
    helper ← alloc (conn_msg (some task) fd)
    sender ← alloc (token (record new_token { op = Op.ring_fd_sender }))
    receiver ← alloc (token (record new_token { op = Op.ring_fd_receiver; cqe_res = fd }))
    put_sqe lib lib.sys (linked_fd_entry worker fd receiver sender)
    put_sqe lib lib.sys (func_entry worker helper)
    submit_all lib lib.sys lib.sys
    pure conn'

  -- `parallel_spawn` with a task alone.
  unfoldable pub parallel_spawn : ℕ → Coro → M (Unit {0})
  parallel_spawn local task = do
    check_main local
    msg ← alloc (task_msg task)
    t ← alloc (token (record new_token { op = Op.ring_task }))
    worker ← pick_worker
    put_sqe lib lib.sys (
        prep (Prep.msg_ring_cqe_flags worker (to_int RingMsgType.ring_task) msg f_task)
        ∷ user_data t
        ∷ [])
    submit_all lib lib.sys lib.sys

  -- One round of the loop over `awaiting_direct_fd_`.
  unfoldable pub send_one : Func → ℤ → M (Unit {0})
  send_one func fd = do
    worker ← pick_worker
    receiver ← alloc (token (record new_token { op = Op.multishot_accept_fd_receiver }))
    task_token ← alloc (macc_msg Op.multishot_accept_task_receiver func)
    put_sqe lib lib.sys (fd_entry worker fd receiver)
    put_sqe lib lib.sys (task_entry worker task_token)
    put_sqe lib lib.sys (close_entry fd)

  -- The loop; each round moves the function out of its variable.
  unfoldable pub send_each : Func → List ℤ → M (Unit {0})
  send_each func [] = pure tt
  send_each func (fd ∷ fds) = do send_one func fd; send_each (lib.moved_from func) fds

  -- `Uring::mshot_accept_send_awaiting_fd_and_process`
  unfoldable pub mshot_accept_send_awaiting_fd_and_process : ℕ → Func → M (Unit {0})
  mshot_accept_send_awaiting_fd_and_process this func = do
    r ← get_ring this
    send_each func r.awaiting_direct_fd
    r' ← get_ring this
    put_ring this (record r' { awaiting_direct_fd = [] })
    submit_all lib lib.sys lib.sys

  -- `SystemLoop::terminate`; `cqes` is what `process_all` finds after the wait.
  unfoldable pub terminate : List Cqe → M (Unit {0})
  terminate cqes w =
      if w.sys_loop.stopped
      then ok tt w
      else (do
        notify_workers_to_stop lib lib.sys (get_worker_ids w.sys_loop)
        notify_self_quit lib lib.sys
        submit_all lib lib.sys lib.sys
        process_all lib lib.sys cqes)
          (record w { sys_loop = request_stop (record (w.sys_loop) { stopped = true }) })
