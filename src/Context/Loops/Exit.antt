-- ===== src/Context/Loops/Exit.antt =====
-- When the loops of a process end.
use co_net.Base.{
  arith, ℕ, suc, Bool, true, false, ◌≡◌, ◌≢◌, refl, sym, subst, ◌∙◌, ap, List, [], ◌∷◌, ◌++◌, map,
  ==_self, if◌then◌else◌,
}
use co_net.Async.Scheduled.{ScheduledTask, schedule, settle}
use co_net.Io.Token.{Coro}
use co_net.Io.World.{World, Platform, M, Run, ok, fault}
use co_net.Io.World.Later.{owner, Later, Later-refl, Later-trans}
use co_net.Io.World.Keeps.{After, Keeps, at, Keeps-change}
use co_net.Io.Ring.Kept.{modify-RingLater, Keeps-submit_all, Keeps-enqueue}
use co_net.Io.Handler.Batches.{Keeps-process_batch}
use co_net.Io.Sqe.{Cqe}
use co_net.Io.Ring.{enqueue, submit_all}
use co_net.Context.Process.{Reach}
use co_net.Context.Spawn.{terminate}
use co_net.Context.Process.Steps.{Reach-Later}
use co_net.Context.Loops.{
  settle_at, Pass, finished, skipped, resumed, meanwhile, MainLoop, stops, empty, times_out,
  completes, others, BlockOn, returns, Round, round, WorkerLoop, leaves, again,
}

ran : {m : M (Unit {0})} {w w' : World} → Keeps 0 0 m → m w ≡ ok tt w' → Later w w'
ran {m} {w} h e = subst (After (Later w)) e (at h w (omega arith))

settle-owner : (done : Bool) (u : ScheduledTask Coro) → owner (settle done u) ≡ owner u
unfolding settle
settle-owner true u = refl
settle-owner false u = refl

Keeps-settle_at : (this i : ℕ) (done : Bool) → Keeps 0 0 (settle_at this i done)
unfolding settle_at
Keeps-settle_at this i done =
    Keeps-change this _ λ x. modify-RingLater i (settle done) x (settle-owner done)

module _ (lib : Platform) where
  pub Pass-Later : (this i : ℕ) (w w' : World) → Pass lib this i w w' → Later w w'
  Pass-Later this i w w' (finished e) = Later-refl w
  Pass-Later this i w w' (skipped t e r p) = Pass-Later this (suc i) w w' p
  Pass-Later this i w w' (resumed t done v u e r calls s p) =
      Later-trans w v w' (Reach-Later lib calls)
        (Later-trans v u w' (ran (Keeps-settle_at this i done) s) (Pass-Later this (suc i) u w' p))
  Pass-Later this i w w' (meanwhile v calls p) =
      Later-trans w v w' (Reach-Later lib calls) (Pass-Later this i v w' p)

  stays_queued :
      (w w' : World) → Later w w' → (w.ring lib.sys).tasks ≢ [] → (w'.ring lib.sys).tasks ≢ []
  stays_queued w w' l some_ none_ =
      some_
        (owners (w.ring lib.sys).tasks _ (ap (map owner) (sym none_) ∙ (l.rings lib.sys).tasks.1))
    where
      owners : (ts : List (ScheduledTask Coro)) (l : List Coro) → [] ≡ map owner ts ++ l → ts ≡ []
      owners [] l e = refl
      owners (t ∷ ts) l e = cc

  -- A round up to the wait.
  submitted :
      (w v t u : World)
      → Pass lib lib.sys 0 w v
      → Reach lib v t
      → submit_all lib lib.sys lib.sys t ≡ ok tt u
      → Later w u
  submitted w v t u p c s =
      Later-trans w v u (Pass-Later lib.sys 0 w v p)
        (Later-trans v t u (Reach-Later lib c) (ran (Keeps-submit_all lib lib.sys lib.sys) s))

  -- However the loop of `SystemLoop::run` goes, with any calls of the resumed coroutines, with any
  -- calls of the other threads and of the handler of SIGINT before each of its steps and during the
  -- wait, and with any completions: where the main loop has a task at its start, it ends only when
  -- it has been stopped. Every ring's tasks have kept their places, its entries and completions
  -- have only been added to, no stop and no stop request has been taken back, and an address that
  -- was freed is not in use again.
  pub MainLoop-stopped :
      (w w' : World)
      → (w.ring lib.sys).tasks ≢ []
      → MainLoop lib w w'
      → (w'.sys_loop.stopped ≡ true) × Later w w'
  MainLoop-stopped w w' has (stops e) = (e, Later-refl w)
  MainLoop-stopped w w' has (empty run p none_) =
      absurd (stays_queued w w' (Pass-Later lib.sys 0 w w' p) has none_)
  MainLoop-stopped w w' has (times_out v t u run p some_ c s rest) =
      let l = submitted w v t u p c s in
      let (stop, m) = MainLoop-stopped u w' (stays_queued w u l has) rest in
      (stop, Later-trans w u w' l m)
  MainLoop-stopped w w' has (completes v t u y x cqes left after run p some_ c s d b rest) =
      let l = Later-trans w u y (submitted w v t u p c s) (Reach-Later lib d) in
      let k = Later-trans w y x l (ran (Keeps-process_batch lib lib.sys cqes left after) b) in
      let (stop, m) = MainLoop-stopped x w' (stays_queued w x k has) rest in
      (stop, Later-trans w x w' k m)
  MainLoop-stopped w w' has (others v calls rest) =
      let l = Reach-Later lib calls in
      let (stop, m) = MainLoop-stopped v w' (stays_queued w v l has) rest in
      (stop, Later-trans w v w' l m)

  queued :
      (task : Coro) (w v : World)
      → enqueue lib.sys task w ≡ ok tt v
      → (v.ring lib.sys).tasks ≡ (w.ring lib.sys).tasks ++ schedule task ∷ []
  unfolding enqueue
  queued task w v e = subst left e own
    where
      left : Run (Unit {0}) → Type 0
      left (ok a u) = (u.ring lib.sys).tasks ≡ (w.ring lib.sys).tasks ++ schedule task ∷ []
      left (fault x) = Unit {0}

      own : left (enqueue lib.sys task w)
      own = rw (==_self lib.sys) refl

  not_empty : (ts : List (ScheduledTask Coro)) (t : ScheduledTask Coro) → ts ++ t ∷ [] ≢ []
  not_empty [] t h = cc
  not_empty (u ∷ ts) t h = cc

  terminate-over :
      (cqes : List Cqe) (u w' : World)
      → u.sys_loop.stopped ≡ true
      → terminate lib cqes u ≡ ok tt w'
      → w' ≡ u
  unfolding terminate
  terminate-over cqes u w' stop e = subst left (sym (over _ _ _ stop) ∙ e) refl
    where
      left : Run (Unit {0}) → Type 0
      left (ok a v) = v ≡ u
      left (fault x) = Unit {0}

      over : (x y : Run (Unit {0})) (b : Bool) → b ≡ true → (if b then x else y) ≡ x
      over x y true h = refl
      over x y false h = cc

  -- However a run of `block_on` goes once the loop has been constructed, with any calls of the
  -- coroutines, with any calls of the other threads before the task is queued, within the main
  -- loop, its wait included, and before the destructor, and with any completions: where it returns,
  -- the main loop has been stopped. It had started with the task at the end of the tasks, and after
  -- its end only the calls of other threads have changed anything: the destructor has not. Every
  -- ring's tasks have kept their places, its entries and completions have only been added to, no
  -- stop and no stop request has been taken back, and an address that was freed is not in use
  -- again.
  pub BlockOn-MainLoop :
      (task : Coro) (w w' : World)
      → BlockOn lib task w w'
      → (w'.sys_loop.stopped ≡ true)
        × Later w w'
        × ((t v u y : World) × Reach lib w t
            × ((v.ring lib.sys).tasks ≡ (t.ring lib.sys).tasks ++ schedule task ∷ [])
            × MainLoop lib v u
            × Reach lib u y
            × (w' ≡ y))
  BlockOn-MainLoop task w w' (returns t v u y cqes before e loop after d) =
      let tasks = queued task t v e in
      let (stop, l) = MainLoop-stopped v u (rw tasks (not_empty (t.ring lib.sys).tasks _)) loop in
      let m = Reach-Later lib after in
      let over : w' ≡ y = terminate-over cqes y w' (m.halted stop) d in
      (
        subst (λ (x : World). x.sys_loop.stopped ≡ true) (sym over) (m.halted stop),
        subst (Later w) (sym over) (
            Later-trans w t y (Reach-Later lib before)
              (Later-trans t v y (ran (Keeps-enqueue lib.sys task) e) (Later-trans v u y l m))),
        (t, v, u, y, before, tasks, loop, after, over),
      )

  Round-Later : (this : ℕ) (w w' : World) → Round lib this w w' → Later w w'
  Round-Later this w w' (round v u y x cqes left after p s d b calls) =
      Later-trans w v w' (Pass-Later this 0 w v p) (
        Later-trans v u w' (ran (Keeps-submit_all lib this this) s) (
          Later-trans u y w' (Reach-Later lib d) (
            Later-trans y x w' (ran (Keeps-process_batch lib this cqes left after) b)
              (Reach-Later lib calls))))

  -- However a worker's loop goes, with any calls of the resumed coroutines, with any calls of the
  -- other threads before each of its steps and during the wait, and with any completions: it ends
  -- only when the threads have been asked to stop, and where they had been asked before its first
  -- round, it makes that one round. Every ring's tasks have kept their places, its entries and
  -- completions have only been added to, no stop and no stop request has been taken back, and an
  -- address that was freed is not in use again.
  pub WorkerLoop-requested :
      (this n : ℕ) (w w' : World)
      → WorkerLoop lib this w w' n
      → (w'.sys_loop.stop_requested ≡ true)
        × Later w w'
        × (w.sys_loop.stop_requested ≡ true → n ≡ 1)
  WorkerLoop-requested this n w w' (leaves r e) = (e, Round-Later this w w' r, λ h. refl)
  WorkerLoop-requested this m w w' (again {n} v r e rest) =
      let l = Round-Later this w v r in
      let (stop, later, _) = WorkerLoop-requested this n v w' rest in
      (stop, Later-trans w v w' l later, λ h. absurd (not_asked (l.requested h) e))
    where
      not_asked : {b : Bool} → b ≡ true → b ≢ false
      not_asked h k = cc
