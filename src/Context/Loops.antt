-- ===== src/Context/Loops.antt =====
-- include/co_net/context/context.hpp and worker.hpp: `SystemLoop::run` and the loop of a worker
-- thread, over task_loop.hpp, as relations between the world before and after. What a coroutine
-- does while it is resumed, and what the other threads do meanwhile, is any sequence of calls.
pub mod Exit
use co_net.Base.{
  ℕ, zero, suc, Bool, true, false, ◌≡◌, ◌≢◌, Option, none, some, List, [], get_elem?, modify,
}
use co_net.Async.Scheduled.{ScheduledTask, settle}
use co_net.Io.Token.{Coro}
use co_net.Io.Sqe.{Cqe}
use co_net.Io.World.{World, Platform, Run, M, ok, get_ring, put_ring, ◌>>=◌, ◌>>◌}
use co_net.Io.Ring.{submit_all, enqueue}
use co_net.Io.Handler.{process_batch}
use co_net.Context.TaskLoop.{is_ready}
use co_net.Context.Process.{Reach}
use co_net.Context.Spawn.{terminate}

-- The end of `ScheduledTask::resume`, for the task at the place `i`.
unfoldable pub settle_at : ℕ → ℕ → Bool → M (Unit {0})
settle_at this i done = do
  r ← get_ring this
  put_ring this (record r { tasks = modify i (settle done) r.tasks })

module _ (lib : Platform) where
  -- `TaskLoop::run` on the loop of the ring `this`, from the place `i` on. `meanwhile` is what the
  -- other threads do before the next look at a task.
  pub data Pass (this : ℕ) : ℕ → World → World → Type 0 where
    finished : {i : ℕ} {w : World} → get_elem? (w.ring this).tasks i ≡ none → Pass this i w w
    skipped :
        {i : ℕ} {w w' : World} (t : ScheduledTask Coro)
        → get_elem? (w.ring this).tasks i ≡ some t
        → is_ready t ≡ false
        → Pass this (suc i) w w'
        → Pass this i w w'
    resumed :
        {i : ℕ} {w w' : World} (t : ScheduledTask Coro) (done : Bool) (v u : World)
        → get_elem? (w.ring this).tasks i ≡ some t
        → is_ready t ≡ true
        → Reach lib w v
        → settle_at this i done v ≡ ok tt u
        → Pass this (suc i) u w'
        → Pass this i w w'
    meanwhile :
        {i : ℕ} {w w' : World} (v : World) → Reach lib w v → Pass this i v w' → Pass this i w w'

  -- `SystemLoop::run`. After the wait the ring may have completions, or the time is over. The other
  -- threads, and the handler of SIGINT, may make calls between any two of its steps, also between
  -- the look at the tasks and the submission, and during the wait.
  pub data MainLoop : World → World → Type 0 where
    stops : {w : World} → w.sys_loop.stopped ≡ true → MainLoop w w
    empty :
        {w w' : World}
        → w.sys_loop.stopped ≡ false
        → Pass lib.sys 0 w w'
        → (w'.ring lib.sys).tasks ≡ []
        → MainLoop w w'
    times_out :
        {w w' : World} (v t u : World)
        → w.sys_loop.stopped ≡ false
        → Pass lib.sys 0 w v
        → (v.ring lib.sys).tasks ≢ []
        → Reach lib v t
        → submit_all lib lib.sys lib.sys t ≡ ok tt u
        → MainLoop u w'
        → MainLoop w w'
    completes :
        {w w' : World} (v t u y x : World) (cqes : List Cqe) (left after : ℕ)
        → w.sys_loop.stopped ≡ false
        → Pass lib.sys 0 w v
        → (v.ring lib.sys).tasks ≢ []
        → Reach lib v t
        → submit_all lib lib.sys lib.sys t ≡ ok tt u
        → Reach lib u y
        → process_batch lib lib.sys cqes left after y ≡ ok tt x
        → MainLoop x w'
        → MainLoop w w'
    others : {w w' : World} (v : World) → Reach lib w v → MainLoop v w' → MainLoop w w'

  -- One round of a worker's loop, up to where it looks at its stop token. The other threads may make
  -- calls between any two of its steps, also during the wait.
  pub data Round (this : ℕ) (w w' : World) : Type 0 where
    round :
        (v u y x : World) (cqes : List Cqe) (left after : ℕ)
        → Pass this 0 w v
        → submit_all lib this this v ≡ ok tt u
        → Reach lib u y
        → process_batch lib this cqes left after y ≡ ok tt x
        → Reach lib x w'
        → Round this w w'

  -- The loop of a worker, with the number of its rounds.
  pub data WorkerLoop (this : ℕ) : World → World → ℕ → Type 0 where
    leaves :
        {w w' : World}
        → Round this w w'
        → w'.sys_loop.stop_requested ≡ true
        → WorkerLoop this w w' 1
    again :
        {w w' : World} {n : ℕ} (v : World)
        → Round this w v
        → v.sys_loop.stop_requested ≡ false
        → WorkerLoop this v w' n
        → WorkerLoop this w w' (suc n)

  -- `block_on`, once the loop has been constructed in `w`: the task is queued, the loop runs, and the
  -- destructor of SystemLoop terminates it; the other threads may make calls in between.
  pub data BlockOn (task : Coro) : World → World → Type 0 where
    returns :
        {w w' : World} (t v u y : World) (cqes : List Cqe)
        → Reach lib w t
        → enqueue lib.sys task t ≡ ok tt v
        → MainLoop v u
        → Reach lib u y
        → terminate lib cqes y ≡ ok tt w'
        → BlockOn task w w'
