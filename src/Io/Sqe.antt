-- ===== src/Io/Sqe.antt =====
-- The submission and completion entries of liburing. An entry is the list of what the program
-- writes to it, in the program's order; how the kernel reads it is not fixed here.
use co_net.Base.{ℕ, Bool, List, ◌/◌, ◌%◌, ◌==◌}
use co_net.Base.Int.{ℤ}
use co_net.Timer.{Timespec}

-- A `std::span<char>`.
pub record Span : Type 0 where
  pub address : ℕ
  pub size : ℕ

-- The `io_uring_prep_…` calls.
pub data Prep : Type 0 where
  msg_ring : ℕ → ℤ → ℕ → Prep
  msg_ring_cqe_flags : ℕ → ℤ → ℕ → ℕ → Prep
  msg_ring_fd_alloc : ℕ → ℤ → ℕ → Prep
  close_direct : ℤ → Prep
  close : ℤ → Prep
  cancel_any : Prep
  multishot_accept_direct : ℤ → Prep
  accept : ℤ → ℤ → Prep
  accept_direct_alloc : ℤ → Prep
  socket : ℤ → ℤ → ℤ → ℤ → Prep
  socket_direct_alloc : ℤ → ℤ → ℤ → ℤ → Prep
  read : ℤ → Span → Prep
  write : ℤ → ℕ → ℕ → Prep
  recv_select : ℤ → ℕ → Prep
  timeout : Timespec → ℤ → ℤ → Prep

pub data Flag : Type 0 where
  fixed_file io_link cqe_skip_success buffer_select : Flag

pub data Write : Type 0 where
  prep : Prep → Write
  flag : Flag → Write
  user_data : ℕ → Write
  buf_group : ℕ → Write

abbrev pub Sqe : Type 0
Sqe = List Write

pub record Cqe : Type 0 where
  pub res : ℤ
  pub flags : ℕ
  pub user_data : ℕ

-- NET_IORING_CQE_F_TASK, `1u << 4`.
abbrev pub f_task : ℕ
f_task = 16

abbrev pub has_task : ℕ → Bool
has_task flags = flags / 16 % 2 == 1
