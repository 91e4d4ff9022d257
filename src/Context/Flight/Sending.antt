-- ===== src/Context/Flight/Sending.antt =====
-- What each call sends.
use co_net.Base.{◌≡◌, ℕ, ◌<◌, ◌≢◌, refl, inl, true, false, Option, [], ◌∷◌}
use co_net.Base.Int.{ℤ}
use co_net.Io.Token.{Coro, TaskRef}
use co_net.Io.World.{World, Platform}
use co_net.Io.World.Keeps.{After}
use co_net.Io.Ring.Kept.{Keeps-enqueue, Keeps-destroy}
use co_net.Io.Await.Kept.{Keeps-pending_suspend}
use co_net.Io.Await.Suspend.{target}
use co_net.Io.Await.Sends.{Posting-suspend}
use co_net.Io.Await.Operations.{operation-IsOneShot}
use co_net.Io.Tickets.{tickets, recurs}
use co_net.Io.Tickets.Posts.{Posts, post, Posting, Posting-bind, Posting-then, Posting-pure}
use co_net.Io.Tickets.Sends.{Posting-submit_all}
use co_net.Io.Tickets.Quiet.{
  Quiet, Posting-Quiet, Quiet-bind, Quiet-then, Quiet-enqueue, Quiet-destroy, Quiet-put_sqe,
  Quiet-load, Quiet-store, Quiet-cast_token, Quiet-set_task_handle, Quiet-pending_suspend,
}
use co_net.Context.Accept.{construct_multishot, suspend_multishot}
use co_net.Context.Spawn.{co_spawn}
use co_net.Context.Spawn.Kept.{Keeps-construct_multishot, Keeps-suspend_multishot}
use co_net.Context.Spawn.Sends.{Posting-parallel_spawn_conn, Posting-parallel_spawn}
use co_net.Context.Spawn.Accepts.{Posting-accept_round, Posting-terminate}
use co_net.Context.Process.{
  Call, spawn, spawn_conn, spawn_task, await, await_pending, accept_multishot, accept_again,
  drop_connection, submit, complete_all, complete_batch, end_main, perform,
}
use co_net.Context.Flight.{Sending, arms}

module _ (lib : Platform) where
  -- The ring whose entries a call writes.
  abbrev pub entered : Call → ℕ
  entered (await local a caller chain) = target lib local a
  entered _ = lib.sys

  Quiet-construct_multishot : (socket : ℤ) → Quiet (construct_multishot lib socket)
  unfolding construct_multishot tickets recurs
  Quiet-construct_multishot socket = Quiet-then _ _ (Quiet-put_sqe lib lib.sys _ λ q. refl) (
      Quiet-bind _ _ (Quiet-load lib.multishot_token)
        λ c. Quiet-bind _ _ (Quiet-cast_token c) λ t. Quiet-store lib.multishot_token _)

  Quiet-suspend_multishot :
      (caller : Coro) (chain : Option TaskRef) → Quiet (suspend_multishot lib caller chain)
  unfolding suspend_multishot
  Quiet-suspend_multishot caller chain = Quiet-bind _ _ (Quiet-load lib.multishot_token) λ c.
      Quiet-bind _ _ (Quiet-cast_token c)
        λ t. Quiet-then _ _ (Quiet-store lib.multishot_token _) (Quiet-set_task_handle caller chain)

  pub Posting-accept_multishot :
      {r : ℕ} (socket : ℤ) (caller : Coro) (chain : Option TaskRef)
      → Posting lib.multishot_token r (perform lib (accept_multishot socket caller chain))
  unfolding perform
  Posting-accept_multishot socket caller chain =
      Posting-then _ _
        (Posting-Quiet _ (λ n. Keeps-construct_multishot lib socket (inl refl))
          (Quiet-construct_multishot socket))
        (Posting-Quiet _ (λ n. Keeps-suspend_multishot lib caller chain (inl refl))
          (Quiet-suspend_multishot caller chain))

  -- The other calls.
  pub Posting-perform :
      {o : ℕ} (c : Call) → Sending c → arms c ≡ false → Posting o (entered c) (perform lib c)
  unfolding perform co_spawn
  Posting-perform (spawn local c) h k =
      Posting-Quiet _ (λ n. Keeps-enqueue local c) (Quiet-enqueue local c)
  Posting-perform (spawn_conn local task conn) h k =
      Posting-bind _ _ (Posting-parallel_spawn_conn lib local task conn) λ left. Posting-pure tt
  Posting-perform (spawn_task local task) h k = Posting-parallel_spawn lib local task
  Posting-perform (await local a caller chain) h k =
      Posting-bind _ _ (Posting-suspend lib local a caller (operation-IsOneShot a h) chain)
        λ p. Posting-pure tt
  Posting-perform (await_pending caller chain) h k =
      Posting-Quiet _ (λ n. Keeps-pending_suspend caller chain) (Quiet-pending_suspend caller chain)
  Posting-perform (accept_multishot socket caller chain) h k = absurd (differ k)
    where
      differ : true ≢ false
      differ e = cc
  Posting-perform (accept_again func caller chain) h k = Posting-accept_round lib func caller chain
  Posting-perform (drop_connection local c) h k =
      Posting-Quiet _ (λ n. Keeps-destroy lib local c) (Quiet-destroy lib local c)
  Posting-perform (submit this) h k = Posting-submit_all lib this this
  Posting-perform (complete_all this cqes) h k = absurd h
  Posting-perform (complete_batch this cqes left after) h k = absurd h
  Posting-perform (end_main []) h k = Posting-terminate lib
  Posting-perform (end_main (c ∷ cqes)) h k = absurd h

  -- Where the static token's address has been given out, each spawn, await of one of the program's
  -- operations, pending await, accept, destruction of a connection, submission, and termination
  -- that finds no completion either fails, or asks for completions by entries of one ring only, at
  -- new addresses, each its own, with what their handlers read, and changes old memory at most at
  -- the static token's address.
  pub perform-Posts :
      (c : Call) (w : World)
      → Sending c
      → lib.multishot_token < w.next
      → After (Posts lib.multishot_token (entered c) w) (perform lib c w)
  perform-Posts (accept_multishot socket caller chain) w h old =
      post (Posting-accept_multishot socket caller chain) w old
  perform-Posts c w h old = post (Posting-perform c h refl) w old
