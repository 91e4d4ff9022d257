-- ===== src/Io/Ring.antt =====
-- include/co_net/io/uring.hpp: the methods of class Uring that submit, and the destructor of a
-- TcpConnection (net/tcp/connection.hpp), which calls them. `this` names the ring that a method is
-- called on; `local` is the ring of the thread that runs.
pub mod Steps
pub mod Kept
use co_net.Base.{
  ℕ, ◌+◌, Bool, true, false, not, List, [], ◌∷◌, ◌++◌, Option, none, some, length, take, drop,
  get_elem?, modify, if◌then◌else◌,
}
use co_net.Base.Int.{ℤ, pos, minus_one, is_neg}
use co_net.Async.Scheduled.{schedule, set_pending}
use co_net.Net.Connection.{TcpConnection}
use co_net.Io.Token.{Op, new_token, TaskRef, Coro, token}
use co_net.Io.Sqe.{Sqe, Prep, Flag, prep, flag, user_data}
use co_net.Io.World.{
  Ring, World, Platform, Fault, M, ok, pure, stop, ◌>>=◌, ◌>>◌, get_ring, put_ring, alloc, load,
  store, cast_token,
}

-- `peer_task_loop_->enqueue(task)`, and `emplace_back`
unfoldable pub enqueue : ℕ → Coro → M (Unit {0})
enqueue this c = do
  r ← get_ring this
  put_ring this (record r { tasks = r.tasks ++ schedule c ∷ [] })

-- `chain_task->set_pending(p)`
unfoldable pub set_task_pending : Bool → Option TaskRef → M (Unit {0})
set_task_pending p none = stop Fault.null_task
set_task_pending p (some t) = do
  r ← get_ring t.ring
  elim (get_elem? r.tasks t.index) [
    | none ↦ stop Fault.dangling
    | some _ ↦ put_ring t.ring (record r { tasks = modify t.index (set_pending p) r.tasks })
  ]

unfoldable pub consume : ℕ → ℕ → M (Unit {0})
consume this n = do r ← get_ring this; put_ring this (record r { consumed = r.consumed + n })

module _ (lib : Platform) where
  -- `get_sqe`, and what the caller writes through the pointer before the ring is used again. A
  -- null pointer is written through like any other.
  unfoldable pub put_sqe : ℕ → Sqe → M (Unit {0})
  put_sqe this writes = do
    r ← get_ring this
    if lib.sqe_free (length r.waiting)
        then put_ring this (record r { waiting = r.waiting ++ writes ∷ [] })
        else stop Fault.null_sqe

  -- Called on the thread whose ring is `by`; its answer is not looked at.
  unfoldable pub submit_all : ℕ → ℕ → M (Unit {0})
  submit_all by this = do
    r ← get_ring this
    let n = lib.accepted by this (length r.waiting)
    put_ring this
        (record r { submitted = r.submitted ++ take n r.waiting; waiting = drop n r.waiting })

  unfoldable pub notify_main_ring_release_fd : ℕ → ℤ → M (Unit {0})
  notify_main_ring_release_fd this direct_fd = do
    t ← alloc (token (record new_token { op = Op.main_ring_close_direct_socket }))
    put_sqe this (prep (Prep.msg_ring lib.sys direct_fd t) ∷ flag Flag.cqe_skip_success ∷ [])
    submit_all this this

  unfoldable pub close_direct_socket : ℕ → ℕ → ℤ → M (Unit {0})
  close_direct_socket by this direct_fd = do
    put_sqe this (prep (Prep.close_direct direct_fd) ∷ flag Flag.cqe_skip_success ∷ [])
    submit_all by this

  unfoldable pub notify_workers_to_stop : ℕ → List ℕ → M (Unit {0})
  notify_workers_to_stop this [] = pure tt
  notify_workers_to_stop this (fd ∷ workers) = do
    t ← alloc (token (record new_token { op = Op.quit }))
    put_sqe this (flag Flag.cqe_skip_success ∷ prep (Prep.msg_ring fd (pos 0) t) ∷ [])
    notify_workers_to_stop this workers

  unfoldable pub notify_self_quit : ℕ → M (Unit {0})
  notify_self_quit this = do
    t ← alloc (token (record new_token { op = Op.quit }))
    put_sqe this (flag Flag.cqe_skip_success ∷ prep (Prep.msg_ring this (pos 0) t) ∷ [])

  -- `~TcpConnection`, on the thread whose ring is `local`.
  unfoldable pub destroy : ℕ → TcpConnection → M (Unit {0})
  destroy local c =
      if c.ownership_in_sys_ring
      then close_direct_socket local lib.sys c.socket
      else if is_neg c.direct_fd_in_this_ring
      then pure tt
      else close_direct_socket local local c.socket
