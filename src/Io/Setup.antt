-- ===== src/Io/Setup.antt =====
-- include/co_net/io/uring.hpp: the two constructors and the destructor of class Uring, by what they
-- ask liburing for. What a call answers is an argument.
use co_net.Base.{ℕ, List, [], ◌∷◌, if◌then◌else◌}
use co_net.Base.Int.{ℤ, pos, ◌==ℤ◌}
use co_net.Io.Await.{Result, returned, thrown}

pub data SetupFlag : Type 0 where
  single_issuer clamp coop_taskrun cqsize attach_wq : SetupFlag

-- The fields of `io_uring_params` that are written after it has been zeroed.
pub record Params : Type 0 where
  pub cq_entries : ℕ
  pub wq_fd : ℕ
  pub flags : List SetupFlag

-- config::URING_MAIN_CQES, config::URING_MAIN_SQES and config::URING_WOKERS_SQES
abbrev pub uring_main_cqes : ℕ
uring_main_cqes = 1024

abbrev pub uring_main_sqes : ℕ
uring_main_sqes = 128

abbrev pub uring_workers_sqes : ℕ
uring_workers_sqes = 512

pub data SetupCall : Type 0 where
  queue_init_params : ℕ → Params → SetupCall
  register_ring_fd : SetupCall
  queue_exit : SetupCall

unfoldable pub main_params : Params
main_params = record {
  cq_entries = uring_main_cqes;
  wq_fd = 0;
  flags =
      SetupFlag.single_issuer ∷ SetupFlag.clamp ∷ SetupFlag.coop_taskrun ∷ SetupFlag.cqsize ∷ [];
}

unfoldable pub worker_params : ℕ → Params
worker_params main_uring_fd = record {
  cq_entries = 0;
  wq_fd = main_uring_fd;
  flags =
      SetupFlag.single_issuer ∷ SetupFlag.clamp ∷ SetupFlag.coop_taskrun ∷ SetupFlag.attach_wq ∷ [];
}

-- What both constructors do with the result of the initialisation.
unfoldable pub checked : SetupCall → ℤ → List SetupCall × Result (Unit {0})
checked init ret =
    if ret ==ℤ pos 0 then (init ∷ register_ring_fd ∷ [], returned tt) else (init ∷ [], thrown)

unfoldable pub construct_main : ℤ → List SetupCall × Result (Unit {0})
unfolding main_params checked
construct_main ret = checked (queue_init_params uring_main_sqes main_params) ret

unfoldable pub construct_worker : ℕ → ℤ → List SetupCall × Result (Unit {0})
unfolding worker_params checked
construct_worker main_uring_fd ret =
    checked (queue_init_params uring_workers_sqes (worker_params main_uring_fd)) ret

-- `~Uring`
unfoldable pub exit : List SetupCall
exit = queue_exit ∷ []
