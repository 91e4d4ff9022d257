-- ===== src/Context/Workers/Picks.antt =====
-- When a worker can be picked.
use co_net.Base.{ℕ, ◌+◌, ◌%◌, ◌<◌, ◌≡◌, refl, arith, length, get_elem?-some}
use native.Mathlib.Nat.{mod-lt}
use co_net.Base.Int.{pos, minus_one}
use co_net.Io.World.{World, SystemLoop, ok}
use co_net.Context.Workers.{pick_worker, next_index}
use co_net.Context.Workers.RoundRobin.{picked, pick_worker-ok}

-- There are workers, and the index is the initial one or that of an earlier pick.
pub data CanPick (s : SystemLoop) : Type 0 where
  fresh : 0 < length s.uring_fds → s.current_worker_uring_idx ≡ minus_one → CanPick s
  again : (i : ℕ) → 0 < length s.uring_fds → s.current_worker_uring_idx ≡ pos i → CanPick s

pub index-below :
    (s : SystemLoop)
    → CanPick s
    → (j : ℕ) × (next_index s.current_worker_uring_idx (length s.uring_fds) ≡ pos j)
      × (j < length s.uring_fds)
unfolding next_index
index-below s (fresh h e) = (0, rw e (ground (arith, mod-lt 0 h)), h)
index-below s (again i h e) = ((i + 1) % length s.uring_fds, rw e, mod-lt (i + 1) h)

pub pick_worker-CanPick :
    (w : World)
    → CanPick w.sys_loop
    → (fd j : ℕ) × (pick_worker w ≡ ok fd (picked w j)) × CanPick (picked w j).sys_loop
pick_worker-CanPick w c =
    let (j, e, below) = index-below w.sys_loop c in
    let (fd, found) = get_elem?-some w.sys_loop.uring_fds j below in
    (fd, j, pick_worker-ok w j fd e found (omega arith), again j (omega arith) refl)
