-- ===== src/Context/Process/Picking.antt =====
-- A process whose main loop has been constructed can always pick a worker.
use co_net.Base.{ℕ, ◌<◌, ◌≡◌, sym, subst, ◌∙◌, some, arith, get_elem?, get_elem?-some, inl, inr}
use co_net.Io.World.{World, SystemLoop, Platform, ok}
use co_net.Context.Workers.{pick_worker}
use co_net.Context.Workers.RoundRobin.{picked, pick_worker-ok}
use co_net.Context.Workers.Picks.{index-below}
use co_net.Context.Startup.{Machine, Startup, Opened, waiting, failed, opened, begin, system_loop}
use co_net.Context.Startup.Latch.{Reach}
use co_net.Context.Startup.Ready.{IsReady, system_loop-IsReady}
use co_net.Context.Process
use co_net.Context.Process.Steps.{Reach-Later}

opened-IsReady :
    (m : Machine) (n : ℕ) (any : 0 < n) (s : Startup) (l : SystemLoop)
    → Reach m n (begin n) s
    → system_loop m s ≡ opened l
    → IsReady m n l
opened-IsReady m n any s l r e = elim (system_loop-IsReady m n any s r) [
  | inl (w, _) ↦ absurd (not_waiting (sym w ∙ e))
  | inr (inl (f, _)) ↦ absurd (not_failed (sym f ∙ e))
  | inr (inr (l', e', ready)) ↦ subst (IsReady m n) (same (sym e' ∙ e)) ready
]
  where
    not_waiting : ¬ (◌≡◌ {A = Opened m} waiting (opened l))
    not_waiting h = cc

    not_failed : ¬ (◌≡◌ {A = Opened m} failed (opened l))
    not_failed h = cc

    same : {k : SystemLoop} → ◌≡◌ {A = Opened m} (opened k) (opened l) → k ≡ l
    same h = cc

-- Where the constructor of SystemLoop is done, for a process with workers and after the threads
-- have started in any order since the construction of the latch: after any calls of the threads
-- that do not fail, `pick_worker` neither divides by zero nor leaves the range, and picks the ring
-- of one of the workers.
pub Reach-pick_worker :
    (lib : Platform) (m : Machine) (n : ℕ) (any : 0 < n) (s : Startup) (w w' : World)
    → Reach m n (begin n) s
    → system_loop m s ≡ opened w.sys_loop
    → Process.Reach lib w w'
    → (fd : ℕ) × (j : ℕ) × (pick_worker w' ≡ ok fd (picked w' j))
      × ((i : ℕ) × (i < n) × (fd ≡ m.worker_fd i))
Reach-pick_worker lib m n any s w w' r e calls =
    let ready = opened-IsReady m n any s w.sys_loop r e in
    let later = Reach-Later lib calls in
    let (j, next, below) = index-below w'.sys_loop (later.picks ready.can_pick) in
    let (fd, found) = get_elem?-some w'.sys_loop.uring_fds j below in
    (
      fd,
      j,
      pick_worker-ok w' j fd next found (omega (arith, below)),
      ready.only j fd (subst (λ l. get_elem? l j ≡ some fd) later.workers found),
    )
