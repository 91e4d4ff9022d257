-- ===== src/Context/Startup/Ready.antt =====
-- When the latch opens, and that it does.
use co_net.Base.{
  ℕ, suc, ◌<◌, ◌≡◌, ◌≢◌, ◌⊎◌, inl, inr, refl, true, false, none, some, arith, length, get_elem?,
  Bool-cases, Option-cases,
}
use native.Mathlib.Decide.{ℕ_discrete}
use co_net.Base.Int.{pos, minus_one, is_neg}
use co_net.Base.Counting.{count-full, count-less, count-update, count-le}
use co_net.Io.World.{SystemLoop, update}
use co_net.Io.Setup.{construct_worker}
use co_net.Context.Workers.Picks.{CanPick, fresh}
use co_net.Context.Startup.{
  Machine, Startup, begin, register, start_thread, thread_buffers, Step, thread, waiting, failed,
  opened, system_loop, ready_loop,
}
use co_net.Context.Startup.Latch.{Reach, IsStarting, Reach-IsStarting, start_thread-register}

-- The main loop's view of `n` workers: the rings of all of them and no others, and one to pick.
pub record IsReady (m : Machine) (n : ℕ) (l : SystemLoop) : Type 0 where
  pub all : length l.uring_fds ≡ n
  pub each : (i : ℕ) → i < n → (j : ℕ) × (get_elem? l.uring_fds j ≡ some (m.worker_fd i))
  pub only :
      (j fd : ℕ) → get_elem? l.uring_fds j ≡ some fd → (i : ℕ) × (i < n) × (fd ≡ m.worker_fd i)
  pub can_pick : CanPick l

module _ (m : Machine) (n : ℕ) (any : 0 < n) where
  IsStarting-IsReady :
      (s : Startup) (l : SystemLoop)
      → IsStarting m n s
      → s.latch ≡ 0
      → l.uring_fds ≡ s.uring_fds
      → l.current_worker_uring_idx ≡ minus_one
      → IsReady m n l
  IsStarting-IsReady s l v zero same start = record {
    all = rw same (omega (arith, v.counted, v.latched, zero));
    each = λ i below.
        rw same (v.entered i (count-full n s.registered (omega (arith, v.latched, zero)) i below));
    only = λ j fd h. let (i, below, _, e) = v.owned j fd (rw same at h) in (i, below, e);
    can_pick = fresh (rw same (omega (arith, v.counted, v.latched, zero))) start;
  }

  -- At any point of the start of the threads of a process with workers, counted from the
  -- construction of the latch and in any order of the threads, the constructor of SystemLoop either
  -- waits, and then some thread has not registered, or it throws because the main ring's files were
  -- refused, or it is done: the rings are then those of all the workers and no others, as many as
  -- there are workers, and one can be picked.
  pub system_loop-IsReady :
      (s : Startup)
      → Reach m n (begin n) s
      → ((system_loop m s ≡ waiting) × ((i : ℕ) × (i < n) × (s.registered i ≡ false)))
        ⊎ (((system_loop m s ≡ failed) × (is_neg m.main_files_ret ≡ true))
            ⊎ ((l : SystemLoop) × (system_loop m s ≡ opened l) × IsReady m n l))
  unfolding system_loop
  system_loop-IsReady s r =
      let v = Reach-IsStarting m n r in
      elim (ℕ_discrete s.latch 0) [
        | no more ↦
            inl (ground (arith, more), count-less n s.registered (omega (arith, v.latched, more)))
        | yes zero ↦ elim (Bool-cases (is_neg m.main_files_ret)) [
          | inl bad ↦ inr (inl (rw (zero, bad) refl, bad))
          | inr good ↦ inr (
              inr (
                ready_loop s.uring_fds,
                rw (zero, good) refl,
                IsStarting-IsReady s (ready_loop s.uring_fds) v zero refl refl,
              ))
        ]
      ]

  module _ (init : (i : ℕ) → i < n → m.init_ret i ≡ pos 0)
      (sets_up : (i : ℕ) → i < n → thread_buffers m i ≢ none)
      (files : (i : ℕ) → i < n → is_neg (m.files_ret i) ≡ false) where
    pub starts : (i : ℕ) (s : Startup) → i < n → start_thread m i s ≡ some (register m i s)
    unfolding start_thread construct_worker
    starts i s below = elim (Option-cases (thread_buffers m i)) [
      | inl e ↦ absurd (sets_up i below e)
      | inr (b, e) ↦ ground (arith, init i below, e, files i below)
    ]

    -- Where the initialisation of each thread's ring answers 0, its buffers can be set up and its
    -- files are accepted: from the construction of the latch on, each thread that starts takes one
    -- from the latch's count, and as long as it is not 0 some thread can start.
    pub Step-latch :
        (s : Startup)
        → Reach m n (begin n) s
        → ((t : Startup) → Step m n s t → suc t.latch ≡ s.latch)
          × (s.latch ≢ 0 → (t : Startup) × Step m n s t)
    unfolding register
    Step-latch s r = (counts_down, proceeds)
      where
        counts_down : (t : Startup) → Step m n s t → suc t.latch ≡ s.latch
        counts_down t (thread i below done new) =
            let v = Reach-IsStarting m n r in
            rw (start_thread-register m n i s t done) (
              omega (
                arith,
                v.latched,
                count-update n s.registered i below new,
                count-le n (update s.registered i true),
              ))

        proceeds : s.latch ≢ 0 → (t : Startup) × Step m n s t
        proceeds more =
            let v = Reach-IsStarting m n r in
            let (i, below, new) = count-less n s.registered (omega (arith, v.latched, more)) in
            (register m i s, thread i below (starts i s below) new)
