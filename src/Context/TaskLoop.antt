-- ===== src/Context/TaskLoop.antt =====
-- include/co_net/context/task_loop.hpp: class TaskLoop, over the coroutines of the program, which
-- are a parameter: in an environment `S`, resuming a handle gives the next environment and what the
-- coroutine did to the loop before it gave control back.
pub mod Run
use co_net.Base.{
  ℕ, zero, suc, Bool, true, false, not, ◌&&◌, List, [], ◌∷◌, ◌++◌, map, Option, none, some, length,
  if◌then◌else◌,
}
use co_net.Async.Scheduled.{ScheduledTask, schedule, settle}

-- The handle that its task waits at, the task's pending flag, whether the task's own coroutine has
-- ended, and the coroutines that `co_spawn` has put at the end of the list.
pub record Effect (H : Type 0) : Type 0 where
  pub awaiting_handle : H
  pub pending : Bool
  pub done : Bool
  pub spawned : List H

unfoldable pub enqueue {ℓ} : {H : Type ℓ} → H → List (ScheduledTask H) → List (ScheduledTask H)
unfolding schedule
enqueue h ts = ts ++ schedule h ∷ []

-- `task.valid() && !task.pending()`
unfoldable pub is_ready {ℓ} : {H : Type ℓ} → ScheduledTask H → Bool
is_ready t = t.valid && not t.pending

abbrev cons_done :
    {S H : Type 0}
    → ScheduledTask H
    → Option (S × List (ScheduledTask H))
    → Option (S × List (ScheduledTask H))
cons_done t none = none
cons_done t (some (s, ts)) = some (s, t ∷ ts)

module _ {S H : Type 0} (coro : S → H → S × Effect H) where
  -- `ScheduledTask::resume`
  unfoldable pub resume : S → ScheduledTask H → ScheduledTask H
  unfolding settle
  resume s t =
      let e = (coro s t.awaiting_handle).1 in
      settle e.done (record t { awaiting_handle = e.awaiting_handle; pending = e.pending })

  -- `run`, from one place of the list on. A task that is spawned meanwhile stands at the end of the
  -- list, so the same pass comes to it. `none` means that the fuel ran out.
  unfoldable pub run : ℕ → S → List (ScheduledTask H) → Option (S × List (ScheduledTask H))
  unfolding is_ready
  run zero s ts = none
  run (suc fuel) s [] = some (s, [])
  run (suc fuel) s (t ∷ ts) =
      let (s', e) = coro s t.awaiting_handle in
      let resumed = cons_done (resume s t) (run fuel s' (ts ++ map schedule e.spawned)) in
      let passed = cons_done t (run fuel s ts) in if is_ready t then resumed else passed
