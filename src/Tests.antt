-- ===== src/Tests.antt =====
-- The values that the runs below this module share: a process with a main ring, 3, and two workers'
-- rings, 4 and 5, of 128 entries each.
mod Rings
mod Processes
mod Startup
mod Loops
mod Flight
mod Texts
mod Values
use co_net.Base.{ℕ, Bool, true, false, ltb, List, [], ◌∷◌, Option, none, some, ◌==◌, if◌then◌else◌}
use co_net.Base.Int.{ℤ, pos, minus_one}
use co_net.Async.Scheduled.{schedule}
use co_net.Net.Connection.{TcpConnection, connection}
use co_net.Io.Token.{Op, Coro, plain, Cell, token, new_token, conn_msg}
use co_net.Io.World.{World, Ring, Platform, SystemLoop}

abbrev pub lib : Platform
lib = record {
  sqe_free = λ n. ltb n 128;
  accepted = λ by this n. if by == this then n else 0;
  call_moves = 1;
  moved_from = λ _. none;
  multishot_token = 1;
  sys = 3;
}

-- A ring whose loop has one task.
abbrev pub quiet_ring : Ring
quiet_ring = record {
  waiting = [];
  submitted = [];
  consumed = 0;
  stopped = false;
  direct_map = [];
  awaiting_direct_fd = [];
  tasks = schedule (plain 7) ∷ [];
}

abbrev pub two_workers : SystemLoop
two_workers = record {
  uring_fds = 4 ∷ 5 ∷ [];
  current_worker_uring_idx = minus_one;
  stopped = false;
  stop_requested = false;
}

abbrev pub world : World
world = record { heap = λ _. none; next = 10; ring = λ _. quiet_ring; sys_loop = two_workers }

-- The main ring has accepted descriptors.
abbrev pub accepted_world : List ℤ → World
accepted_world fds = record world { ring = λ _. record quiet_ring { awaiting_direct_fd = fds } }
