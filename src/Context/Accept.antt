-- ===== src/Context/Accept.antt =====
-- include/co_net/io/prep/prep_multishot_accept.hpp, the constructor that io/uring.hpp defines, and
-- the loop of `multishot_accept_then` in net/tcp/listener.hpp. The token is static: the platform
-- says at which address it lies.
pub mod Armed
use co_net.Base.{ℕ, List, [], ◌∷◌, Option, none, some}
use co_net.Base.Int.{ℤ}
use co_net.Io.Token.{Op, Coro, TaskRef, CompletionToken, token, Func}
use co_net.Io.Sqe.{Prep, prep, user_data}
use co_net.Io.World.{World, Platform, M, ok, ◌>>=◌, ◌>>◌, load, store, cast_token}
use co_net.Io.Ring.{put_sqe}
use co_net.Io.Await.{set_task_handle, pending_suspend}
use co_net.Context.Spawn.{mshot_accept_send_awaiting_fd_and_process}

module _ (lib : Platform) where
  -- `MultishotAcceptDirectAwaiter`'s constructor
  unfoldable pub construct_multishot : ℤ → M (Unit {0})
  construct_multishot socket = do
    put_sqe lib lib.sys
        (prep (Prep.multishot_accept_direct socket) ∷ user_data lib.multishot_token ∷ [])
    t ← cast_token (← load lib.multishot_token)
    store lib.multishot_token (token (record t { op = Op.multishot_accept }))

  -- Its `await_suspend`, which leaves the task ready.
  unfoldable pub suspend_multishot : Coro → Option TaskRef → M (Unit {0})
  suspend_multishot caller chain = do
    t ← cast_token (← load lib.multishot_token)
    store lib.multishot_token (token (record t { chain_task = chain }))
    set_task_handle caller chain

  -- `prep_multishot_accept_direct`, up to where it gives control back.
  unfoldable pub prep_multishot_accept_direct : ℤ → Coro → Option TaskRef → M (Unit {0})
  prep_multishot_accept_direct socket caller chain = do
    construct_multishot socket
    suspend_multishot caller chain

  -- One round of the loop of `multishot_accept_then`, up to where it gives control back.
  unfoldable pub accept_round : Func → Coro → Option TaskRef → M (Unit {0})
  accept_round func caller chain = do
    mshot_accept_send_awaiting_fd_and_process lib lib.sys func
    pending_suspend caller chain
