-- ===== src/Context/Process/Steps.antt =====
-- What holds however the threads' calls follow one another.
use co_net.Base.{subst, inr, arith}
use co_net.Io.World.{World, Platform}
use co_net.Io.World.Later.{Later, Later-refl, Later-trans, Touches}
use co_net.Io.World.Keeps.{After, Keeps, at, Keeps-bind, Keeps-then, Keeps-pure}
use co_net.Io.Ring.Kept.{Keeps-enqueue, Keeps-submit_all, Keeps-destroy}
use co_net.Io.Handler.Batches.{Keeps-process_all, Keeps-process_batch}
use co_net.Io.Await.Kept.{Keeps-suspend, Keeps-pending_suspend}
use co_net.Context.Spawn.{co_spawn}
use co_net.Context.Spawn.Kept.{
  Keeps-parallel_spawn_conn, Keeps-parallel_spawn, Keeps-accept_round, Keeps-construct_multishot,
  Keeps-suspend_multishot, Keeps-terminate,
}
use co_net.Context.Process.{
  Call, spawn, spawn_conn, spawn_task, await, await_pending, accept_multishot, accept_again,
  drop_connection, submit, complete_all, complete_batch, end_main, perform, Step, call, Reach, here,
  next,
}

module _ (lib : Platform) where
  anywhere : Touches 0 0 lib.multishot_token
  anywhere = inr (omega arith)

  Keeps-perform : (c : Call) → Keeps 0 0 (perform lib c)
  unfolding perform co_spawn
  Keeps-perform (spawn local c) = Keeps-enqueue local c
  Keeps-perform (spawn_conn local task conn) =
      Keeps-bind _ _ (Keeps-parallel_spawn_conn lib local task conn) λ left. Keeps-pure tt
  Keeps-perform (spawn_task local task) = Keeps-parallel_spawn lib local task
  Keeps-perform (await local a caller chain) =
      Keeps-bind _ _ (Keeps-suspend lib local a caller chain) λ p. Keeps-pure tt
  Keeps-perform (await_pending caller chain) = Keeps-pending_suspend caller chain
  Keeps-perform (accept_multishot socket caller chain) =
      Keeps-then _ _ (Keeps-construct_multishot lib socket anywhere)
        (Keeps-suspend_multishot lib caller chain anywhere)
  Keeps-perform (accept_again func caller chain) = Keeps-accept_round lib func caller chain
  Keeps-perform (drop_connection local c) = Keeps-destroy lib local c
  Keeps-perform (submit this) = Keeps-submit_all lib this this
  Keeps-perform (complete_all this cqes) = Keeps-process_all lib this cqes
  Keeps-perform (complete_batch this cqes left after) = Keeps-process_batch lib this cqes left after
  Keeps-perform (end_main cqes) = Keeps-terminate lib cqes (Keeps-process_all lib lib.sys cqes)

  pub Step-Later : {w w' : World} → Step lib w w' → Later w w'
  Step-Later {w} (call c e) = subst (After (Later w)) e (at (Keeps-perform c) w (omega arith))

  -- After any calls of the threads of a process that do not fail, one after another in any order
  -- (spawns, awaits, accepts, destructions of connections, submissions, completions and the end of
  -- the main loop): every ring's tasks have kept their places in front of the new ones, the entries
  -- that a ring has been handed are still handed or waiting, in their order, its count of
  -- completions has not become less, no stop of a ring or of the main loop and no stop request has
  -- been taken back, the workers are the same and one can still be picked if one could, if nothing
  -- lay at addresses that had not been given out, nothing does, and an address that had been freed
  -- is not in use again.
  pub Reach-Later : {w w' : World} → Reach lib w w' → Later w w'
  Reach-Later {w} here = Later-refl w
  Reach-Later {w} {w'} (next {v} r s) = Later-trans w v w' (Reach-Later r) (Step-Later s)
