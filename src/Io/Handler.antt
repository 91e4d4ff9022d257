-- ===== src/Io/Handler.antt =====
-- include/co_net/io/uring.hpp: the completion side of class Uring, with the two handlers that
-- net/tcp/connection.hpp defines. The completions that a call of liburing shows are arguments.
pub mod Kept
pub mod Batches
pub mod Harmless
pub mod Matching
pub mod Safety
pub mod Sends
pub mod Freed
pub mod Dispatch
pub mod Wake
pub mod Stop
pub mod Macc
pub mod Restart
pub mod Handoff
use co_net.Base.{
  ℕ, zero, suc, ◌+◌, Bool, true, false, ◌&&◌, List, [], ◌∷◌, ◌++◌, Option, none, some, length,
  if◌then◌else◌,
}
use co_net.Base.Int.{ℤ, pos, minus_one, is_neg, signed, ◌==ℤ◌}
use co_net.Net.Connection.{TcpConnection, connection, move, set_subring_socket}
use co_net.Io.Token.{
  Op, CompletionToken, Coro, on_connection, Cell, token, task_msg, conn_msg, macc_msg, Func,
  ring_task, ring_func_task, multi_acc_task, to_int,
}
use co_net.Io.Sqe.{Cqe, Prep, prep, has_task}
use co_net.Io.World.{
  Ring, World, Platform, Fault, M, ok, pure, stop, ◌>>=◌, ◌>>◌, get_ring, put_ring, alloc, load,
  free, store, cast_token,
}
use co_net.Io.Ring.{
  enqueue, set_task_pending, consume, put_sqe, submit_all, notify_main_ring_release_fd,
  close_direct_socket, destroy,
}

-- `std::unordered_map<int, int>`
abbrev pub IntMap : Type 0
IntMap = List (ℤ × ℤ)

unfoldable pub find : ℤ → IntMap → Option ℤ
find k [] = none
find k ((j, v) ∷ m) = if j ==ℤ k then some v else find k m

unfoldable pub assign : ℤ → ℤ → IntMap → IntMap
assign k v [] = (k, v) ∷ []
assign k v ((j, u) ∷ m) = if j ==ℤ k then (k, v) ∷ m else (j, u) ∷ assign k v m

unfoldable pub erase : ℤ → IntMap → IntMap
erase k [] = []
erase k ((j, u) ∷ m) = if j ==ℤ k then m else (j, u) ∷ erase k m

-- `m[k]`, which enters 0 for a key that is not there.
unfoldable pub index : ℤ → IntMap → ℤ × IntMap
index k m = elim (find k m) [ none ↦ (pos 0, assign k (pos 0) m) | some v ↦ (v, m) ]

abbrev pub cast_task : Cell → M Coro
cast_task (task_msg c) = pure c
cast_task _ = stop Fault.bad_cast

abbrev pub cast_conn : Cell → M (Func × ℤ)
cast_conn (conn_msg f fd) = pure (f, fd)
cast_conn _ = stop Fault.bad_cast

abbrev pub cast_macc : Cell → M Func
cast_macc (macc_msg op f) = pure f
cast_macc _ = stop Fault.bad_cast

-- The call of a `std::function`.
abbrev pub invoke : Func → TcpConnection → M Coro
invoke none c = stop Fault.bad_function_call
invoke (some f) c = pure (on_connection f c)

unfoldable pub push_awaiting : ℕ → ℤ → M (Unit {0})
push_awaiting this fd = do
  r ← get_ring this
  if is_neg fd
      then pure tt
      else put_ring this (record r { awaiting_direct_fd = r.awaiting_direct_fd ++ fd ∷ [] })

module _ (lib : Platform) where
  unfoldable pub destroy_each : ℕ → ℕ → TcpConnection → M (Unit {0})
  destroy_each local zero c = pure tt
  destroy_each local (suc n) c = do destroy lib local c; destroy_each local n c

  unfoldable pub impl_handle_msg_conn : ℕ → Cqe → M (Unit {0})
  impl_handle_msg_conn this cqe = do
    (task, sys_conn_fd) ← cast_conn (← load cqe.user_data)
    free cqe.user_data
    r ← get_ring this
    let found = index sys_conn_fd r.direct_map
    put_ring this (record r { direct_map = erase sys_conn_fd found.1 })
    let moved = move (set_subring_socket found.0 (connection minus_one))
    c ← invoke task moved.0
    destroy_each this lib.call_moves moved.1
    enqueue this c
    notify_main_ring_release_fd lib this sys_conn_fd
    destroy lib this moved.1

  -- One round of the loop over `awaiting_direct_fd_`; the argument and the copies of it that the
  -- call moved from are destroyed before the task is queued.
  unfoldable pub start_each : ℕ → Func → List ℤ → M (Unit {0})
  start_each this func [] = pure tt
  start_each this func (fd ∷ fds) = do
    let moved = move (connection fd)
    c ← invoke func moved.0
    destroy_each this (suc lib.call_moves) moved.1
    enqueue this c
    start_each this func fds

  unfoldable pub impl_handle_macc_task : ℕ → Cqe → M (Unit {0})
  impl_handle_macc_task this cqe = do
    func ← cast_macc (← load cqe.user_data)
    free cqe.user_data
    r ← get_ring this
    start_each this func r.awaiting_direct_fd

  -- `switch (token->op_)`; `p` is the token's address.
  unfoldable pub switch : ℕ → Cqe → ℕ → CompletionToken → Op → M (Unit {0})
  switch this cqe p t Op.sync_close_direct = free p
  switch this cqe p t Op.quit = do
    r ← get_ring this
    put_ring this (record r { stopped = true })
    free p
  switch this cqe p t Op.cancel_any = free p
  switch this cqe p t Op.ring_task = free p
  switch this cqe p t Op.ring_fd_sender = free p
  switch this cqe p t Op.ring_fd_receiver = do
    r ← get_ring this
    put_ring this (record r { direct_map = assign t.cqe_res cqe.res r.direct_map })
    free p
  switch this cqe p t Op.main_ring_close_direct_socket = do
    close_direct_socket lib this this cqe.res
    free p
  switch this cqe p t Op.multishot_accept = do
    push_awaiting this cqe.res
    s ← cast_token (← load lib.multishot_token)
    set_task_pending false s.chain_task
  switch this cqe p t Op.multishot_accept_fd_receiver = do push_awaiting this cqe.res; free p
  switch this cqe p t _ = do
    store p (token (record t { cqe_res = cqe.res; cqe_flags = signed 32 cqe.flags }))
    set_task_pending false t.chain_task

  unfoldable pub handle_token : ℕ → Cqe → ℕ → M (Unit {0})
  unfolding switch
  handle_token this cqe zero = pure tt
  handle_token this cqe (suc q) = do t ← cast_token (← load (suc q)); switch this cqe (suc q) t t.op

  unfoldable pub handle_ring_task : ℕ → Cqe → M (Unit {0})
  handle_ring_task this cqe = do
    c ← cast_task (← load cqe.user_data)
    enqueue this c
    free cqe.user_data

  unfoldable pub handle_request : ℕ → Cqe → M (Unit {0})
  handle_request this cqe =
      if (cqe.res ==ℤ to_int ring_task) && has_task cqe.flags
      then handle_ring_task this cqe
      else if (cqe.res ==ℤ to_int ring_func_task) && has_task cqe.flags
      then impl_handle_msg_conn this cqe
      else if (cqe.res ==ℤ to_int multi_acc_task) && has_task cqe.flags
      then impl_handle_macc_task this cqe
      else handle_token this cqe cqe.user_data

  unfoldable pub handle_all : ℕ → List Cqe → M (Unit {0})
  handle_all this [] = pure tt
  handle_all this (c ∷ cs) = do handle_request this c; handle_all this cs

  -- `cqes` is what `io_uring_for_each_cqe` shows.
  unfoldable pub process_all : ℕ → List Cqe → M (Unit {0})
  process_all this cqes = do handle_all this cqes; consume this (length cqes)

  -- The loop of `process_batch`, which a completion can stop.
  unfoldable pub handle_until_stopped : ℕ → List Cqe → M (Unit {0})
  handle_until_stopped this [] = pure tt
  handle_until_stopped this (c ∷ cs) = do
    r ← get_ring this
    if r.stopped then pure tt else (do handle_request this c; handle_until_stopped this cs)

  -- `cqes` is what the peek shows, `left` and `after` how many completions the two calls of
  -- `consume_all` count.
  unfoldable pub process_batch : ℕ → List Cqe → ℕ → ℕ → M (Unit {0})
  process_batch this cqes left after = do
    handle_until_stopped this cqes
    consume this (length cqes)
    r ← get_ring this
    if r.stopped
        then (do
          consume this left
          put_sqe lib this (prep Prep.cancel_any ∷ [])
          submit_all lib this this
          consume this after)
        else pure tt
