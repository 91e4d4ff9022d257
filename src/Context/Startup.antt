-- ===== src/Context/Startup.antt =====
-- include/co_net/context/worker.hpp and context.hpp: how the rings of a process come up. Each worker
-- thread makes its ring and its buffers, and then, under the lock, enters the ring's descriptor and
-- counts the latch down; the constructor of SystemLoop waits for the latch. What the kernel answers
-- to the thread `i` is a parameter. The latch is constructed at the start of every run here; in the
-- source it is a member declared after the workers, so a thread can count it down before that.
pub mod Latch
pub mod Ready
use co_net.Base.{
  ℕ, ◌-◌, ◌<◌, ◌≡◌, Bool, true, false, List, [], ◌∷◌, ◌++◌, Option, none, some, ◌==◌, if◌then◌else◌,
}
use co_net.Base.Int.{ℤ, pos, minus_one, is_neg}
use co_net.Io.Await.{Result, returned, thrown}
use co_net.Io.Setup.{construct_worker}
use co_net.Io.Buffer.{Kernel, RingBuffer, unset, extend_buffer}
use co_net.Io.World.{SystemLoop, update}

pub record Machine : Type 0 where
  -- `std::thread::hardware_concurrency()`
  pub concurrency : ℕ
  pub main_fd : ℕ
  -- The descriptor of the thread's ring, and what its initialisation, its buffers and the
  -- registration of its files answer.
  pub worker_fd : ℕ → ℕ
  pub init_ret : ℕ → ℤ
  pub buffers : ℕ → Kernel
  pub files_ret : ℕ → ℤ
  -- The registration of the main ring's files.
  pub main_files_ret : ℤ

-- The number of threads, and the count of the latch; `workers` is `config::WORKERS`.
unfoldable pub how_many : Machine → ℕ → ℕ
how_many m workers = if workers == 0 then m.concurrency else workers

-- What the threads share with the constructor while they start. `registered` says which threads have
-- left the locked block.
pub record Startup : Type 0 where
  pub uring_fds : List ℕ
  pub latch : ℕ
  pub registered : ℕ → Bool

unfoldable pub begin : ℕ → Startup
begin n = record { uring_fds = []; latch = n; registered = λ _. false }

-- The fields of SystemLoop as its declaration initialises them.
abbrev pub ready_loop : List ℕ → SystemLoop
ready_loop fds = record {
  uring_fds = fds;
  current_worker_uring_idx = minus_one;
  stopped = false;
  stop_requested = false;
}

module _ (m : Machine) where
  -- The locked block.
  unfoldable pub register : ℕ → Startup → Startup
  register i s = record {
    uring_fds = s.uring_fds ++ m.worker_fd i ∷ [];
    latch = s.latch - 1;
    registered = update s.registered i true;
  }

  -- The buffers of the thread's ring, which its constructor extends once.
  unfoldable pub thread_buffers : ℕ → Option RingBuffer
  thread_buffers i = extend_buffer (m.buffers i) unset

  -- The thread's function up to its loop; `none` is an exception that leaves it, which terminates the
  -- program.
  unfoldable pub start_thread : ℕ → Startup → Option Startup
  unfolding register thread_buffers
  start_thread i s = elim (construct_worker m.main_fd (m.init_ret i)).1 [
    | thrown ↦ none
    | returned _ ↦ elim (thread_buffers i) [
      | none ↦ none
      | some _ ↦ if is_neg (m.files_ret i) then none else some (register i s)
    ]
  ]

  -- The threads run in any order, each once.
  pub data Step (n : ℕ) (s s' : Startup) : Type 0 where
    thread : (i : ℕ) → i < n → start_thread i s ≡ some s' → s.registered i ≡ false → Step n s s'

  -- The constructor of SystemLoop: it waits, is done, or throws.
  pub data Opened : Type 0 where
    waiting : Opened
    failed : Opened
    opened : SystemLoop → Opened

  unfoldable pub system_loop : Startup → Opened
  system_loop s =
      if s.latch == 0
      then if is_neg m.main_files_ret then failed else opened (ready_loop s.uring_fds)
      else waiting
