-- ===== src/Context/Workers.antt =====
-- include/co_net/context/worker.hpp and context.hpp: the rings of the workers, and which one is next.
pub mod RoundRobin
pub mod Picks
use co_net.Base.{
  true, ℕ, zero, suc, ◌+◌, ◌-◌, ◌%◌, List, [], ◌∷◌, Option, none, some, ◌==◌, length, get_elem?,
  if◌then◌else◌,
}
use co_net.Base.Int.{ℤ, pos, negsuc, neg}
use co_net.Io.World.{World, SystemLoop, Fault, M, ok, pure, stop, ◌>>=◌, ◌>>◌}

-- `uring_fds_.at(idx)`; `none` is `std::out_of_range`.
unfoldable pub get_uring_fd : SystemLoop → ℤ → Option ℕ
get_uring_fd s (pos i) = get_elem? s.uring_fds i
get_uring_fd s (negsuc i) = none

unfoldable pub get_worker_ids : SystemLoop → List ℕ
get_worker_ids s = s.uring_fds

unfoldable pub count : SystemLoop → ℕ
count s = length s.uring_fds

-- `stop`
unfoldable pub request_stop : SystemLoop → SystemLoop
request_stop s = record s { stop_requested = true }

-- `(z + 1) % n` on `int`, for `n` that is not zero: the remainder has the sign of `z + 1`.
unfoldable pub next_index : ℤ → ℕ → ℤ
next_index (pos i) n = pos ((i + 1) % n)
next_index (negsuc i) n = neg (i % n)

-- `SystemLoop::pick_worker`
unfoldable pub pick_worker : M ℕ
unfolding count get_uring_fd next_index
pick_worker w =
    let s = w.sys_loop in
    let i = next_index s.current_worker_uring_idx (count s) in
    let w' = record w { sys_loop = record s { current_worker_uring_idx = i } } in
    if count s == 0
    then stop Fault.division_by_zero w
    else elim (get_uring_fd s i) [ none ↦ stop Fault.out_of_range w | some fd ↦ ok fd w' ]
