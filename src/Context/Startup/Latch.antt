-- ===== src/Context/Startup/Latch.antt =====
-- The threads start in any order: what holds on the way, and when the latch opens.
use co_net.Base.{
  ℕ, ◌+◌, ◌<◌, ◌≡◌, inl, inr, refl, sym, true, false, [], ◌∷◌, ◌++◌, some, arith, length,
  length-append, get_elem?, get_elem?-length, get_elem?-append_left, get_elem?-concat, ==_self,
  ==_ne,
}
use native.Mathlib.Decide.{ℕ_discrete}
use co_net.Base.Counting.{count, count-update, count-le, count-none}
use co_net.Io.World.{update}
use co_net.Context.Startup.{Machine, Startup, begin, register, start_thread, Step, thread}

pub data Reach (m : Machine) (n : ℕ) (s : Startup) : Startup → Type 0 where
  here : Reach m n s s
  next : {t u : Startup} → Reach m n s t → Step m n t u → Reach m n s u

module _ (m : Machine) (n : ℕ) where
  -- Every descriptor is that of a thread which has counted the latch down, and every such thread has
  -- entered its own.
  pub record IsStarting (s : Startup) : Type 0 where
    pub counted : length s.uring_fds ≡ count n s.registered
    pub latched : s.latch + count n s.registered ≡ n
    pub entered :
        (i : ℕ) → s.registered i ≡ true → (j : ℕ) × (get_elem? s.uring_fds j ≡ some (m.worker_fd i))
    pub owned :
        (j fd : ℕ)
        → get_elem? s.uring_fds j ≡ some fd
        → (i : ℕ) × (i < n) × (s.registered i ≡ true) × (fd ≡ m.worker_fd i)

  begin-IsStarting : IsStarting (begin n)
  unfolding begin
  begin-IsStarting = record {
    counted = sym (count-none n);
    latched = omega (arith, count-none n);
    entered = λ i h. cc;
    owned = λ j fd h. cc;
  }

  pub start_thread-register :
      (i : ℕ) (s s' : Startup) → start_thread m i s ≡ some s' → s' ≡ register m i s
  unfolding start_thread
  start_thread-register i s s' h = ground arith

  register-IsStarting :
      (i : ℕ) (s : Startup)
      → i < n
      → s.registered i ≡ false
      → IsStarting s
      → IsStarting (register m i s)
  unfolding register
  register-IsStarting i s below new v = record {
    counted = omega (
      arith,
      v.counted,
      length-append s.uring_fds (m.worker_fd i ∷ []),
      count-update n s.registered i below new,
    );
    latched = omega (
      arith,
      v.latched,
      count-update n s.registered i below new,
      count-le n (update s.registered i true),
    );
    entered = enters;
    owned = owner;
  }
    where
      enters :
          (k : ℕ)
          → update s.registered i true k ≡ true
          → (j : ℕ) × (get_elem? (s.uring_fds ++ m.worker_fd i ∷ []) j ≡ some (m.worker_fd k))
      enters k h = elim (ℕ_discrete k i) [
        | yes e ↦ (length s.uring_fds, rw e (get_elem?-length s.uring_fds (m.worker_fd i) []))
        | no ne ↦
            let (j, found) = v.entered k (rw (==_ne k i ne) at h) in
            (j, get_elem?-append_left s.uring_fds _ j found)
      ]

      owner :
          (j fd : ℕ)
          → get_elem? (s.uring_fds ++ m.worker_fd i ∷ []) j ≡ some fd
          → (k : ℕ) × (k < n) × (update s.registered i true k ≡ true) × (fd ≡ m.worker_fd k)
      owner j fd h = elim (get_elem?-concat s.uring_fds (m.worker_fd i) j h) [
        | inl old ↦
            let (k, lower, done, e) = v.owned j fd old in (k, lower, ground (arith, done), e)
        | inr e ↦ (i, below, rw (==_self i) refl, e)
      ]

  Step-IsStarting : {s s' : Startup} → Step m n s s' → IsStarting s → IsStarting s'
  Step-IsStarting {s} (thread i below done new) v =
      rw (start_thread-register i s _ done) (register-IsStarting i s below new v)

  -- However many threads have started since the construction of the latch, in whatever order: the
  -- descriptors entered are as many as the threads that have registered, these and the latch's
  -- count make up the number of threads, every thread that has registered has entered its ring, and
  -- every descriptor is that of such a thread.
  pub Reach-IsStarting : {s : Startup} → Reach m n (begin n) s → IsStarting s
  Reach-IsStarting here = begin-IsStarting
  Reach-IsStarting (next r st) = Step-IsStarting st (Reach-IsStarting r)
