-- ===== src/Context/Process.antt =====
-- What the threads of a process do to the rings, one call after another in any order: the calls of
-- the coroutines, and the work of the loops between them.
pub mod Steps
pub mod Picking
use co_net.Base.{ℕ, ◌≡◌, List, Option}
use co_net.Base.Int.{ℤ}
use co_net.Io.Token.{Coro, Func, TaskRef}
use co_net.Io.Sqe.{Cqe}
use co_net.Io.World.{World, Platform, M, ok, pure, ◌>>=◌, ◌>>◌}
use co_net.Net.Connection.{TcpConnection}
use co_net.Io.Ring.{submit_all, destroy}
use co_net.Io.Handler.{process_all, process_batch}
use co_net.Io.Await.{Awaiter, suspend, pending_suspend}
use co_net.Context.Spawn.{co_spawn, parallel_spawn_conn, parallel_spawn, terminate}
use co_net.Context.Accept.{construct_multishot, suspend_multishot, accept_round}

-- The first argument is the ring of the thread that calls.
pub data Call : Type 0 where
  spawn : ℕ → Coro → Call
  spawn_conn : ℕ → ℕ → TcpConnection → Call
  spawn_task : ℕ → Coro → Call
  await : ℕ → Awaiter → Coro → Option TaskRef → Call
  await_pending : Coro → Option TaskRef → Call
  accept_multishot : ℤ → Coro → Option TaskRef → Call
  accept_again : Func → Coro → Option TaskRef → Call
  drop_connection : ℕ → TcpConnection → Call
  submit : ℕ → Call
  complete_all : ℕ → List Cqe → Call
  complete_batch : ℕ → List Cqe → ℕ → ℕ → Call
  end_main : List Cqe → Call

module _ (lib : Platform) where
  unfoldable pub perform : Call → M (Unit {0})
  perform (spawn local c) = co_spawn local c
  perform (spawn_conn local task conn) = do left ← parallel_spawn_conn lib local task conn; pure tt
  perform (spawn_task local task) = parallel_spawn lib local task
  perform (await local a caller chain) = do p ← suspend lib local a caller chain; pure tt
  perform (await_pending caller chain) = pending_suspend caller chain
  perform (accept_multishot socket caller chain) = do
    construct_multishot lib socket
    suspend_multishot lib caller chain
  perform (accept_again func caller chain) = accept_round lib func caller chain
  perform (drop_connection local c) = destroy lib local c
  perform (submit this) = submit_all lib this this
  perform (complete_all this cqes) = process_all lib this cqes
  perform (complete_batch this cqes left after) = process_batch lib this cqes left after
  perform (end_main cqes) = terminate lib cqes

  pub data Step (w w' : World) : Type 0 where
    call : (c : Call) → perform c w ≡ ok tt w' → Step w w'

  pub data Reach (w : World) : World → Type 0 where
    here : Reach w w
    next : {v u : World} → Reach w v → Step v u → Reach w u
